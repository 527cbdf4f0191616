-- ===== src/MysqlPool.antt =====
-- lua/lpersistence/mysqlpool.lua: CMD.start and gtables.getconn, the choice of a connection.
pub mod Turns
pub mod Reconnect
mod Tests
use testcluster.Prelude.{
  ℕ, ◌+◌, ◌-◌, ◌%◌, ◌≡◌, Bool, true, false, Option, none, some, List, [], ◌∷◌, ◌++◌, ltb, ◌==◌,
  get_elem?, if◌then◌else◌,
}
use testcluster.Prelude.Int.{ℤ, pos, negsuc}

-- The connections by number, from index 1 on.
pub record MysqlPool : Type 0 where
  pub pool : List ℕ
  pub maxconn : ℕ
  pub index : ℕ

-- The loop of CMD.start, over what mysql.connect gives in each round: a connection, or nil.
unfoldable pub start_loop : MysqlPool → List (Option ℕ) → MysqlPool × Bool
start_loop p [] = (p, true)
start_loop p (none ∷ connections) = (p, false)
start_loop p (some db ∷ connections) =
    start_loop (record p { pool = p.pool ++ db ∷ [] }) connections

-- CMD.start of a service that has just come up. With fewer than two connections asked for, the assertion fails.
unfoldable pub start : ℕ → (ℕ → List (Option ℕ)) → Option (MysqlPool × Bool)
unfolding start_loop
start maxconn connect =
    if ltb maxconn 2
    then none
    else some (start_loop (record { pool = []; maxconn = maxconn; index = 1 }) (connect maxconn))

-- % of Lua, whose result has the sign of the divisor.
unfoldable pub lua_mod : ℤ → ℕ → ℕ
lua_mod (pos n) m = n % m
lua_mod (negsuc n) m = m - 1 - n % m

-- tonumber(channel) or 0
unfoldable pub channel_or_zero : Option ℤ → ℤ
channel_or_zero none = pos 0
channel_or_zero (some channel) = channel

unfoldable pub next_index : MysqlPool → ℕ
next_index p = if ltb p.maxconn (p.index + 1) then 1 else p.index + 1

-- assert(db): a connection that is not there is an error.
unfoldable pub return_conn : Option ℕ → ℕ → MysqlPool → Option (ℕ × ℕ × MysqlPool)
return_conn none now_index p = none
return_conn (some db) now_index p = some (db, now_index, p)

unfoldable pub conn_at : MysqlPool → ℕ → MysqlPool → Option (ℕ × ℕ × MysqlPool)
unfolding return_conn
conn_at p now_index after = return_conn (get_elem? p.pool (now_index - 1)) now_index after

unfoldable pub is_zero : ℤ → Bool
is_zero (pos n) = n == 0
is_zero (negsuc n) = false

unfoldable pub getconn : MysqlPool → Option ℤ → Option (ℕ × ℕ × MysqlPool)
unfolding channel_or_zero next_index conn_at lua_mod is_zero
getconn p channel =
    let c = channel_or_zero channel in
    if is_zero c
    then conn_at p p.index (record p { index = next_index p })
    else conn_at p (lua_mod c p.maxconn + 1) p
