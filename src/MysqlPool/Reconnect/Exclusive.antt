-- ===== src/MysqlPool/Reconnect/Exclusive.antt =====
-- One coroutine connects at a time, and none that waits is forgotten (lua/lpersistence/mysqlpool.lua).
use testcluster.Prelude.{
  ℕ, ◌≡◌, refl, sym, ap, ◌∙◌, Bool, true, false, Bool-cases, List, [], ◌∷◌, ◌++◌, ltb, lt→ltb, ◌==◌,
  if◌then◌else◌, inl, inr, arith,
}
use testcluster.Memcache.{pop, size}
use testcluster.Memcache.Deque.{IsQueue, size-IsQueue}
use testcluster.Memcache.Queue.{new-IsQueue, push_back-IsQueue, pop-IsQueue}
use testcluster.MysqlPool.Reconnect.{
  State, return, wake_popped, wake_next, go_on_by, go_on, set_active, wait_pending, lock_or_wait,
  reconn, Outcome, connects, refused, raised, unlock_func, connected, Step, calls, connect, resumes,
  Reach, here, next, new_pool,
}

-- Where the coroutines are, with those that wait in their order: nobody connects and nobody waits; or one connects, has the lock,
-- and the connection is not active; or one has been woken, and nobody connects.
pub data IsExclusive (s : State) : List ℕ → Type 0 where
  free : s.lock ≡ false → s.connecting ≡ [] → s.woken ≡ [] → IsQueue s.pending [] → IsExclusive s []
  busy :
      (co : ℕ) {waiting : List ℕ}
      → s.lock ≡ true
      → s.connecting ≡ co ∷ []
      → s.woken ≡ []
      → s.is_active s.current ≡ false
      → IsQueue s.pending waiting
      → IsExclusive s waiting
  waking :
      (co : ℕ) {waiting : List ℕ}
      → s.lock ≡ false
      → s.connecting ≡ []
      → s.woken ≡ co ∷ []
      → IsQueue s.pending waiting
      → IsExclusive s waiting

pub wake_nobody : (s : State) → IsQueue s.pending [] → wake_next s ≡ s
unfolding wake_next
wake_nobody s q = let e = size-IsQueue s.pending [] q in rw (e) refl

pub wake_first :
    (s : State) (x : ℕ) (xs : List ℕ)
    → IsQueue s.pending (x ∷ xs)
    → wake_next s ≡ record s { pending = (pop s.pending).0; woken = s.woken ++ x ∷ [] }
unfolding wake_next wake_popped
wake_first s x xs q =
    let e = size-IsQueue s.pending (x ∷ xs) q in
    let some_wait : ltb 0 (size s.pending) ≡ true = lt→ltb 0 (size s.pending) (omega arith) in
    let first = (pop-IsQueue s.pending x xs q).0 in rw (some_wait) (rw (first) refl)

abbrev pub rest : List ℕ → List ℕ
rest [] = []
rest (x ∷ xs) = xs

-- With nobody woken and nobody connecting, the first that waits is woken.
pub woken-IsExclusive :
    (s : State) (waiting : List ℕ) (co : ℕ) (is_done : Bool)
    → s.lock ≡ false
    → s.connecting ≡ []
    → s.woken ≡ []
    → IsQueue s.pending waiting
    → IsExclusive (return (wake_next s) co is_done) (rest waiting)
woken-IsExclusive s [] co is_done l c w q = rw (wake_nobody s q) (free l c w q)
woken-IsExclusive s (x ∷ xs) co is_done l c w q =
    rw (wake_first s x xs q)
      (waking x l c (ap (λ woken. woken ++ x ∷ []) w) ((pop-IsQueue s.pending x xs q).1))

pub go_on-IsExclusive :
    (s : State) (waiting : List ℕ) (co : ℕ) (active : Bool)
    → s.is_active s.current ≡ active
    → s.lock ≡ false
    → s.connecting ≡ []
    → s.woken ≡ []
    → IsQueue s.pending waiting
    → (left : List ℕ) × IsExclusive (go_on_by s co active) left
unfolding go_on_by
go_on-IsExclusive s waiting co true a l c w q =
    (rest waiting, woken-IsExclusive s waiting co true l c w q)
go_on-IsExclusive s waiting co false a l c w q =
    (waiting, busy co refl (ap (λ cos. cos ++ co ∷ []) c) w a q)

waits-IsExclusive :
    (s : State) (waiting : List ℕ) (co : ℕ)
    → IsExclusive s waiting
    → s.lock ≡ true
    → (left : List ℕ) × IsExclusive (wait_pending s co) left
unfolding wait_pending
waits-IsExclusive s waiting co (busy other l c w a q) locked =
    elim (Bool-cases (ltb 2000 (size s.pending))) [
      | inl full ↦ rw (full) (waiting, busy other l c w a q)
      | inr some_room ↦
          rw (some_room)
            (waiting ++ co ∷ [], busy other l c w a (push_back-IsQueue s.pending waiting co q))
    ]
waits-IsExclusive s waiting co (free l c w q) locked = cc (l, locked)
waits-IsExclusive s waiting co (waking other l c w q) locked = cc (l, locked)

-- An object that is marked is not the current one, or the current one is not active then.
marked :
    (is_active : ℕ → Bool) (db current : ℕ)
    → is_active current ≡ false
    → set_active is_active db false current ≡ false
unfolding set_active
marked is_active db current inactive = elim (Bool-cases (db == current)) [
  | inl same ↦ rw (same) refl
  | inr other ↦ rw (other) inactive
]

marked-IsExclusive :
    (s : State) (waiting : List ℕ) (db : ℕ)
    → IsExclusive s waiting
    → IsExclusive (record s { is_active = set_active s.is_active db false }) waiting
marked-IsExclusive s [] db (free l c w q) = free l c w q
marked-IsExclusive s waiting db (busy co l c w a q) =
    busy co l c w (marked s.is_active db s.current a) q
marked-IsExclusive s waiting db (waking co l c w q) = waking co l c w q

lock_or_wait-IsExclusive :
    (s : State) (waiting : List ℕ) (co : ℕ) (lock : Bool)
    → s.lock ≡ lock
    → IsExclusive s waiting
    → s.woken ≡ []
    → (left : List ℕ) × IsExclusive (lock_or_wait s co lock) left
unfolding lock_or_wait go_on
lock_or_wait-IsExclusive s waiting co true e x none_woken = waits-IsExclusive s waiting co x e
lock_or_wait-IsExclusive s [] co false e (free l c w q) none_woken =
    go_on-IsExclusive s [] co (s.is_active s.current) refl l c w q
lock_or_wait-IsExclusive s waiting co false e (busy other l c w a q) none_woken = cc (e, l)
lock_or_wait-IsExclusive s waiting co false e (waking other l c w q) none_woken = cc (w, none_woken)

returned-IsExclusive :
    (s : State) (waiting : List ℕ) (co : ℕ) (is_done : Bool)
    → IsExclusive s waiting
    → IsExclusive (return s co is_done) waiting
returned-IsExclusive s [] co is_done (free l c w q) = free l c w q
returned-IsExclusive s waiting co is_done (busy other l c w a q) = busy other l c w a q
returned-IsExclusive s waiting co is_done (waking other l c w q) = waking other l c w q

reconn-IsExclusive :
    (s : State) (waiting : List ℕ) (co db : ℕ)
    → IsExclusive s waiting
    → s.woken ≡ []
    → (left : List ℕ) × IsExclusive (reconn s co db) left
unfolding reconn
reconn-IsExclusive s waiting co db x none_woken = by_host s.host
  where
    by_host :
        (host : Bool)
        → (left : List ℕ) × IsExclusive
            (if host
              then lock_or_wait (record s { is_active = set_active s.is_active db false }) co s.lock
              else return s co false)
            left
    by_host true =
        lock_or_wait-IsExclusive _ waiting co s.lock refl (marked-IsExclusive s waiting db x)
          none_woken
    by_host false = (waiting, returned-IsExclusive s waiting co false x)

-- One coroutine is left out of a list of one.
only :
    (before after : List ℕ) (co other : ℕ)
    → other ∷ [] ≡ before ++ co ∷ after
    → (before ++ after ≡ []) × (co ≡ other)
only [] [] co other e = (refl, cc (e))
only [] (x ∷ after) co other e = cc (e)
only (b ∷ []) after co other e = cc (e)
only (b ∷ b' ∷ before) after co other e = cc (e)

nobody {ℓ} : {A : Type ℓ} (before after : List ℕ) (co : ℕ) → [] ≡ before ++ co ∷ after → A
nobody [] after co e = cc (e)
nobody (b ∷ before) after co e = cc (e)

connected-IsExclusive :
    (s : State) (waiting before after : List ℕ) (co : ℕ) (outcome : Outcome)
    → IsExclusive s waiting
    → s.woken ≡ []
    → s.connecting ≡ before ++ co ∷ after
    → IsExclusive (connected s (before ++ after) co outcome) (rest waiting)
unfolding connected unlock_func
connected-IsExclusive s [] before after co outcome (free l c w q) none_woken e =
    nobody before after co (sym c ∙ e)
connected-IsExclusive s waiting before after co outcome (waking other l c w q) none_woken e =
    cc (w, none_woken)
connected-IsExclusive s waiting before after co (connects db) (busy other l c w a q) none_woken e =
    let (left, same) = only before after co other (sym c ∙ e) in
    woken-IsExclusive _ waiting co true refl left w q
connected-IsExclusive s waiting before after co refused (busy other l c w a q) none_woken e =
    let (left, same) = only before after co other (sym c ∙ e) in
    woken-IsExclusive _ waiting co false refl left w q
connected-IsExclusive s waiting before after co raised (busy other l c w a q) none_woken e =
    let (left, same) = only before after co other (sym c ∙ e) in
    woken-IsExclusive _ waiting co false refl left w q

resumed-IsExclusive :
    (s : State) (waiting before after : List ℕ) (co : ℕ)
    → IsExclusive s waiting
    → s.woken ≡ before ++ co ∷ after
    → (left : List ℕ) × IsExclusive (go_on (record s { woken = before ++ after }) co) left
unfolding go_on
resumed-IsExclusive s [] before after co (free l c w q) e = nobody before after co (sym w ∙ e)
resumed-IsExclusive s waiting before after co (busy other l c w a q) e =
    nobody before after co (sym w ∙ e)
resumed-IsExclusive s waiting before after co (waking other l c w q) e =
    let (left, same) = only before after co other (sym w ∙ e) in
    go_on-IsExclusive _ waiting co (s.is_active s.current) refl l c left q

Step-IsExclusive :
    {s t : State}
    → Step s t
    → (waiting : List ℕ) → IsExclusive s waiting
    → (left : List ℕ) × IsExclusive t left
Step-IsExclusive {s} (calls co db none_woken) waiting x =
    reconn-IsExclusive s waiting co db x none_woken
Step-IsExclusive {s} (connect before after co outcome none_woken e) waiting x =
    (rest waiting, connected-IsExclusive s waiting before after co outcome x none_woken e)
Step-IsExclusive {s} (resumes before after co e) waiting x =
    resumed-IsExclusive s waiting before after co x e

-- In whatever order reconn is called, mysql.connect returns or fails, and woken coroutines run, of a new pool: at most one
-- coroutine connects, which has the lock; coroutines wait only behind one that connects or has just been woken; and at most
-- one is woken, while nobody connects.
pub reconn-IsExclusive_always :
    {host : Bool} {current : ℕ} {is_active : ℕ → Bool} {s : State}
    → Reach (new_pool host current is_active) s
    → (waiting : List ℕ) × IsExclusive s waiting
reconn-IsExclusive_always here = ([], free refl refl refl new-IsQueue)
reconn-IsExclusive_always (next r step) =
    let (waiting, x) = reconn-IsExclusive_always r in Step-IsExclusive step waiting x
