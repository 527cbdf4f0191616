-- ===== src/Cluster/Request/Sessions.antt =====
-- The sessions of successive requests of one sender, which starts with session 1.
use testcluster.Prelude.{ℕ, zero, suc, ◌+◌, ◌-◌, ◌%◌, ◌^◌, ◌≡◌, refl, arith}
use testcluster.Cluster.Request.{next_session}

-- The session of the k-th request, from 0: each call of packrequest returns the next.
unfoldable pub nth_session : ℕ → ℕ
nth_session zero = 1
nth_session (suc k) = next_session (nth_session k)

-- The k-th session is k modulo INT32_MAX, plus 1: sessions are positive as an `int`, never the 0 that
-- marks a push, and repeat only after INT32_MAX requests.
pub nth_session_eq : (k : ℕ) → nth_session k ≡ k % (2 ^ 31 - 1) + 1
unfolding nth_session next_session
nth_session_eq zero = refl
nth_session_eq (suc k) = ground (arith, nth_session_eq k)
