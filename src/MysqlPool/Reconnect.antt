-- ===== src/MysqlPool/Reconnect.antt =====
-- gtables.reconn of lua/lpersistence/mysqlpool.lua for one connection of the pool: the coroutine that connects, and those that
-- wait for it.
pub mod Exclusive
pub mod Returning
mod Tests
use testcluster.Prelude.{
  ℕ, ◌≡◌, Bool, true, false, Option, none, some, List, [], ◌∷◌, ◌++◌, ltb, ◌==◌, if◌then◌else◌,
}
use testcluster.Memcache.{Memcache, ctor, pop, push_back, size}

-- `host` tells whether CMD.start has set it; `current` is the object pool[now_index], and `is_active` the field kk_is_active of
-- each object. `connecting` are the coroutines in mysql.connect, `woken` those for which skynet.wakeup was called and that have
-- not run, and `returned` what calls of reconn returned.
pub record State : Type 0 where
  pub host : Bool
  pub current : ℕ
  pub is_active : ℕ → Bool
  pub lock : Bool
  pub pending : Memcache ℕ
  pub connecting : List ℕ
  pub woken : List ℕ
  pub returned : List (ℕ × Bool)

abbrev pub return : State → ℕ → Bool → State
return s co is_done = record s { returned = s.returned ++ (co, is_done) ∷ [] }

-- skynet.wakeup of what pop gives.
unfoldable pub wake_popped : State → Memcache ℕ → Option ℕ → State
wake_popped s pending none = record s { pending = pending }
wake_popped s pending (some thread) = record s { pending = pending; woken = s.woken ++ thread ∷ [] }

unfoldable pub wake_next : State → State
unfolding wake_popped
wake_next s =
    if ltb 0 (size s.pending) then wake_popped s ((pop s.pending).0) ((pop s.pending).1) else s

-- Behind the wait, up to mysql.connect; `active` is kk_is_active of pool[now_index].
unfoldable pub go_on_by : State → ℕ → Bool → State
unfolding wake_next
go_on_by s co true = return (wake_next s) co true
go_on_by s co false = record s { lock = true; connecting = s.connecting ++ co ∷ [] }

unfoldable pub go_on : State → ℕ → State
unfolding go_on_by
go_on s co = go_on_by s co (s.is_active s.current)

unfoldable pub set_active : (ℕ → Bool) → ℕ → Bool → ℕ → Bool
set_active is_active db active d = if db == d then active else is_active d

-- With the lock taken, the coroutine waits, unless more than 2000 do.
unfoldable pub wait_pending : State → ℕ → State
wait_pending s co =
    if ltb 2000 (size s.pending)
    then return s co false
    else record s { pending = (push_back s.pending (some co)).0 }

unfoldable pub lock_or_wait : State → ℕ → Bool → State
unfolding wait_pending go_on
lock_or_wait s co true = wait_pending s co
lock_or_wait s co false = go_on s co

unfoldable pub reconn : State → ℕ → ℕ → State
unfolding lock_or_wait set_active
reconn s co db =
    if s.host
    then lock_or_wait (record s { is_active = set_active s.is_active db false }) co s.lock
    else return s co false

-- What mysql.connect and the query that sets the character set come to: a new object, nil, or an error that pcall catches.
pub data Outcome : Type 0 where
  connects : (db : ℕ) → Outcome
  refused : Outcome
  raised : Outcome

unfoldable pub unlock_func : State → State
unfolding wake_next
unlock_func s = wake_next (record s { lock = false })

unfoldable pub connected : State → List ℕ → ℕ → Outcome → State
unfolding set_active unlock_func
connected s left co (connects db) =
    return
      (unlock_func
        (record s { is_active = set_active s.is_active db true; current = db; connecting = left }))
      co true
connected s left co refused = return (unlock_func (record s { connecting = left })) co false
connected s left co raised = return (unlock_func (record s { connecting = left })) co false

-- A call of reconn, the return of mysql.connect, or a coroutine that was woken. skynet runs the coroutines that were woken before it
-- takes the next message (dispatch_wakeup of skynet.lua).
pub data Step (s : State) : State → Type 0 where
  calls : (co db : ℕ) → s.woken ≡ [] → Step s (reconn s co db)
  connect :
      (before after : List ℕ) (co : ℕ) (outcome : Outcome)
      → s.woken ≡ []
      → s.connecting ≡ before ++ co ∷ after
      → Step s (connected s (before ++ after) co outcome)
  resumes :
      (before after : List ℕ) (co : ℕ)
      → s.woken ≡ before ++ co ∷ after
      → Step s (go_on (record s { woken = before ++ after }) co)

pub data Reach (s : State) : State → Type 0 where
  here : Reach s s
  next : {t u : State} → Reach s t → Step t u → Reach s u

-- The pool as CMD.start leaves it, or before it.
abbrev pub new_pool : Bool → ℕ → (ℕ → Bool) → State
new_pool host current is_active = record {
  host = host;
  current = current;
  is_active = is_active;
  lock = false;
  pending = ctor;
  connecting = [];
  woken = [];
  returned = [];
}
