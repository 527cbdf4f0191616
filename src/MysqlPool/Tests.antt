-- ===== src/MysqlPool/Tests.antt =====
-- A pool of three connections.
use testcluster.Prelude.{
  ℕ, ◌+◌, ◌%◌, ◌≡◌, refl, true, Option, some, List, [], ◌∷◌, get_elem?, arith,
}
use testcluster.MysqlPool.{MysqlPool, start, start_loop}
use testcluster.MysqlPool.Turns.{IsStarted, turns, conns_take_turns}

abbrev connections : ℕ → List (Option ℕ)
connections maxconn = some 21 ∷ some 22 ∷ some 23 ∷ []

abbrev three : MysqlPool
three = record { pool = 21 ∷ 22 ∷ 23 ∷ []; maxconn = 3; index = 1 }

started : start 3 connections ≡ some (three, true)
unfolding start start_loop
started = refl

conns_take_turns_example :
    (given : List (ℕ × ℕ)) × (q : MysqlPool) × (db : ℕ) × (turns 5 three ≡ some (given, q))
    × (get_elem? (connections 3) (4 % 3) ≡ some (some db))
    × (get_elem? given 4 ≡ some (db, 4 % 3 + 1))
conns_take_turns_example = conns_take_turns 3 connections three refl started 5 4 (omega arith)

three-IsStarted : IsStarted three
three-IsStarted = record {
  enough = omega arith;
  full = refl;
  low = omega arith;
  high = omega arith;
}
