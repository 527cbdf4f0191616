-- ===== src/MysqlPool/Reconnect/Tests.antt =====
-- Two coroutines whose connection was lost: one connects, the other waits.
use testcluster.Prelude.{ℕ, ◌≡◌, refl, true, false, List, [], ◌∷◌, ◌++◌, ◌==◌, if◌then◌else◌}
use testcluster.Memcache.{ctor, size}
use testcluster.Memcache.Deque.{IsQueue}
use testcluster.MysqlPool.Reconnect.{
  State, lock_or_wait, wait_pending, go_on, go_on_by, set_active, reconn, Outcome, connects,
  refused, calls, Reach, here, next, new_pool,
}
use testcluster.MysqlPool.Reconnect.Exclusive.{IsExclusive, reconn-IsExclusive_always}
use testcluster.MysqlPool.Reconnect.Returning.{Quiet, results, is_connected, waiters_return}

abbrev pool : State
pool = new_pool true 7 (λ db. false)

abbrev contended : State
contended = reconn (reconn pool 1 7) 2 7

contended-Reach : Reach pool contended
unfolding reconn lock_or_wait wait_pending go_on go_on_by set_active
contended-Reach = next (next here (calls 1 7 refl)) (calls 2 7 refl)

contended_connecting : contended.connecting ≡ 1 ∷ []
unfolding reconn lock_or_wait wait_pending go_on go_on_by set_active size ctor
contended_connecting = refl

reconn-IsExclusive_always_example : (waiting : List ℕ) × IsExclusive contended waiting
reconn-IsExclusive_always_example = reconn-IsExclusive_always contended-Reach

-- The first fails, the second connects.
abbrev outcome : ℕ → Outcome
outcome co = if co == 1 then refused else connects 8

waiters_return_example :
    (waiting : List ℕ) × IsQueue contended.pending waiting
    × Quiet outcome contended (contended.connecting ++ contended.woken ++ waiting)
waiters_return_example = waiters_return outcome contended-Reach

in_order : results outcome false (1 ∷ 2 ∷ 3 ∷ []) ≡ (1, false) ∷ (2, true) ∷ (3, true) ∷ []
unfolding results is_connected
in_order = refl
