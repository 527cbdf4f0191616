-- ===== src/MysqlPool/Reconnect/Returning.antt =====
-- Every coroutine that reconnects or waits returns (lua/lpersistence/mysqlpool.lua).
use testcluster.Prelude.{
  ℕ, ◌≡◌, refl, sym, ap, ap₂, subst, ◌∙◌, Bool, true, false, ◌||◌, List, [], ◌∷◌, ◌++◌,
  append_assoc, append-nil, ==_refl,
}
use testcluster.Memcache.Deque.{IsQueue}
use testcluster.Memcache.Queue.{pop-IsQueue}
use testcluster.MysqlPool.Reconnect.{
  State, return, wake_next, go_on_by, go_on, set_active, Outcome, connects, refused, raised,
  unlock_func, connected, Step, connect, resumes, Reach, here, next, new_pool,
}
use testcluster.MysqlPool.Reconnect.Exclusive.{
  IsExclusive, free, busy, waking, wake_nobody, wake_first, reconn-IsExclusive_always,
}

-- What coroutines return that reconnect one behind the other, where `outcome` is what mysql.connect comes to for each: the first
-- for which it connects, and all behind it, have a connection.
unfoldable pub is_connected : Outcome → Bool
is_connected (connects db) = true
is_connected refused = false
is_connected raised = false

unfoldable pub results : (ℕ → Outcome) → Bool → List ℕ → List (ℕ × Bool)
unfolding is_connected
results outcome active [] = []
results outcome active (co ∷ cos) =
    let is_done = active || is_connected (outcome co) in (co, is_done) ∷ results outcome is_done cos

step_first : {s t u : State} → Step s t → Reach t u → Reach s u
step_first step here = next here step
step_first step (next r last) = next (step_first step r) last

-- Nobody is left.
pub record Quiet (outcome : ℕ → Outcome) (s : State) (cos : List ℕ) : Type 0 where
  pub last : State
  pub reach : Reach s last
  pub lock : last.lock ≡ false
  pub connecting : last.connecting ≡ []
  pub woken : last.woken ≡ []
  pub pending : IsQueue last.pending []
  pub returned : last.returned ≡ s.returned ++ results outcome (s.is_active s.current) cos

pending_queue : (s : State) (waiting : List ℕ) → IsExclusive s waiting → IsQueue s.pending waiting
pending_queue s [] (free l c w q) = q
pending_queue s waiting (busy co l c w a q) = q
pending_queue s waiting (waking co l c w q) = q

module _ (outcome : ℕ → Outcome) where
  -- Whoever has just been woken, in front of those that wait.
  abbrev IfWaking : List ℕ → Type 0
  IfWaking [] = Unit
  IfWaking (co ∷ cos) =
      (s : State)
      → s.lock ≡ false
      → s.connecting ≡ []
      → s.woken ≡ co ∷ []
      → IsQueue s.pending cos
      → Quiet outcome s (co ∷ cos)

  behind :
      (s u : State) (co : ℕ) (is_done : Bool) (cos : List ℕ)
      → Step s u
      → u.returned ≡ s.returned ++ (co, is_done) ∷ []
      → (s.is_active s.current || is_connected (outcome co)) ≡ is_done
      → u.is_active u.current ≡ is_done
      → Quiet outcome u cos
      → Quiet outcome s (co ∷ cos)
  unfolding results
  behind s u co is_done cos step e d a q = record {
    last = q.last;
    reach = step_first step q.reach;
    lock = q.lock;
    connecting = q.connecting;
    woken = q.woken;
    pending = q.pending;
    returned =
        q.returned
        ∙ ap (λ active. u.returned ++ results outcome active cos) a
        ∙ ap (λ returned. returned ++ results outcome is_done cos) e
        ∙ append_assoc s.returned ((co, is_done) ∷ []) (results outcome is_done cos)
        ∙ ap (λ done. s.returned ++ (co, done) ∷ results outcome done cos) (sym d);
  }

  -- What return comes to, of the state `v` in which the next that waits was woken.
  record After (s v : State) (co : ℕ) (is_done : Bool) (waiting : List ℕ) : Type 0 where
    quiet : Quiet outcome (return v co is_done) waiting
    returned : (return v co is_done).returned ≡ s.returned ++ (co, is_done) ∷ []
    active : v.is_active v.current ≡ s.is_active s.current

  after :
      (s : State) (co : ℕ) (is_done : Bool) (waiting : List ℕ)
      → s.lock ≡ false
      → s.connecting ≡ []
      → s.woken ≡ []
      → IsQueue s.pending waiting
      → IfWaking waiting
      → After s (wake_next s) co is_done waiting
  unfolding results
  after s co is_done [] l c w q ih = rw (wake_nobody s q) (record {
    quiet = record {
      last = return s co is_done;
      reach = here;
      lock = l;
      connecting = c;
      woken = w;
      pending = q;
      returned = sym (append-nil _);
    };
    returned = refl;
    active = refl;
  })
  after s co is_done (x ∷ xs) l c w q ih = rw (wake_first s x xs q) (record {
    quiet = ih _ l c (ap (λ woken. woken ++ x ∷ []) w) ((pop-IsQueue s.pending x xs q).1);
    returned = refl;
    active = refl;
  })

  busy_returns :
      (s : State) (co : ℕ) (cos : List ℕ)
      → s.connecting ≡ co ∷ []
      → s.woken ≡ []
      → s.is_active s.current ≡ false
      → IsQueue s.pending cos
      → IfWaking cos
      → Quiet outcome s (co ∷ cos)
  unfolding connected unlock_func is_connected set_active
  busy_returns s co cos c w a q ih = by_outcome (outcome co) refl
    where
      by_outcome : (o : Outcome) → outcome co ≡ o → Quiet outcome s (co ∷ cos)
      by_outcome (connects db) e =
          let m : State = record s {
            is_active = set_active s.is_active db true;
            current = db;
            connecting = [];
            lock = false;
          } in
          let r = after m co true cos refl refl w q ih in
          let done : (s.is_active s.current || is_connected (outcome co)) ≡ true = rw (a, e) refl in
          let new : set_active s.is_active db true db ≡ true = rw (==_refl db) refl in
          behind s (connected s [] co (connects db)) co true cos
            (connect [] [] co (connects db) w c) r.returned done (r.active ∙ new) r.quiet
      by_outcome refused e =
          let m : State = record s { connecting = []; lock = false } in
          let r = after m co false cos refl refl w q ih in
          let done : (s.is_active s.current || is_connected (outcome co)) ≡ false =
            rw (a, e) refl in
          behind s (connected s [] co refused) co false cos (connect [] [] co refused w c)
            r.returned done (r.active ∙ a) r.quiet
      by_outcome raised e =
          let m : State = record s { connecting = []; lock = false } in
          let r = after m co false cos refl refl w q ih in
          let done : (s.is_active s.current || is_connected (outcome co)) ≡ false =
            rw (a, e) refl in
          behind s (connected s [] co raised) co false cos (connect [] [] co raised w c) r.returned
            done (r.active ∙ a) r.quiet

  Quiet-first :
      (s u : State) (cos : List ℕ)
      → Step s u
      → u.returned ≡ s.returned
      → u.is_active u.current ≡ s.is_active s.current
      → Quiet outcome u cos
      → Quiet outcome s cos
  Quiet-first s u cos step e a q = record {
    last = q.last;
    reach = step_first step q.reach;
    lock = q.lock;
    connecting = q.connecting;
    woken = q.woken;
    pending = q.pending;
    returned = q.returned ∙ ap₂ (λ returned active. returned ++ results outcome active cos) e a;
  }

  waking_returns : (co : ℕ) (cos : List ℕ) → IfWaking cos → IfWaking (co ∷ cos)
  unfolding go_on go_on_by
  waking_returns co cos ih s l c w q = by_active (s.is_active s.current) refl
    where
      by_active : (active : Bool) → s.is_active s.current ≡ active → Quiet outcome s (co ∷ cos)
      by_active true e =
          let m : State = record s { woken = [] } in
          let resumed : Step s (go_on m co) = resumes [] [] co w in
          let same : go_on m co ≡ return (wake_next m) co true =
            ap (λ active. go_on_by m co active) e in
          let r = after m co true cos l c refl q ih in
          let done : (s.is_active s.current || is_connected (outcome co)) ≡ true = rw (e) refl in
          behind s _ co true cos (rw same at resumed) r.returned done (r.active ∙ e) r.quiet
      by_active false e =
          let m : State = record s { woken = [] } in
          let u : State = record m { lock = true; connecting = s.connecting ++ co ∷ [] } in
          let resumed : Step s (go_on m co) = resumes [] [] co w in
          let same : go_on m co ≡ u = ap (λ active. go_on_by m co active) e in
          Quiet-first s u (co ∷ cos) (rw same at resumed) refl refl
            (busy_returns u co cos (ap (λ cos'. cos' ++ co ∷ []) c) refl e q ih)

  all_return : (cos : List ℕ) → IfWaking cos
  all_return [] = tt
  all_return (co ∷ cos) = waking_returns co cos (all_return cos)

  quiet :
      (s : State) (waiting : List ℕ)
      → IsExclusive s waiting
      → Quiet outcome s (s.connecting ++ s.woken ++ waiting)
  unfolding results
  quiet s [] (free l c w q) =
      subst (Quiet outcome s) (sym (ap₂ (λ a b. a ++ b ++ []) c w)) (record {
        last = s;
        reach = here;
        lock = l;
        connecting = c;
        woken = w;
        pending = q;
        returned = sym (append-nil _);
      })
  quiet s waiting (busy co l c w a q) =
      subst (Quiet outcome s) (sym (ap₂ (λ a b. a ++ b ++ waiting) c w))
        (busy_returns s co waiting c w a q (all_return waiting))
  quiet s waiting (waking co l c w q) =
      subst (Quiet outcome s) (sym (ap₂ (λ a b. a ++ b ++ waiting) c w))
        (waking_returns co waiting (all_return waiting) s l c w q)

  -- Of any state that a pool can come to, with nothing more called and whatever mysql.connect comes to for each coroutine, there
  -- are steps to a state where the lock is free and nobody connects, waits or has been woken. All that did have returned,
  -- the one that connects or was woken first and then those that wait, in their order: with false where mysql.connect failed,
  -- and with true from the first for which it connects, or from the start if the connection was active.
  pub waiters_return :
      {host : Bool} {current : ℕ} {is_active : ℕ → Bool} {s : State}
      → Reach (new_pool host current is_active) s
      → (waiting : List ℕ) × IsQueue s.pending waiting
        × Quiet outcome s (s.connecting ++ s.woken ++ waiting)
  waiters_return r =
      let (waiting, x) = reconn-IsExclusive_always r in
      (waiting, pending_queue _ waiting x, quiet _ waiting x)
