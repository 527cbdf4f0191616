-- ===== src/MysqlPool/Turns.antt =====
-- Who gets which connection (lua/lpersistence/mysqlpool.lua).
use testcluster.Prelude.{
  ℕ, zero, suc, ◌+◌, ◌-◌, ◌%◌, ◌<◌, ◌≤◌, ◌≡◌, refl, sym, ap, ap₂, ◌∙◌, true, false, Bool-cases,
  Option, none, some, List, [], ◌∷◌, ◌++◌, length, length-append, append-nil, map, ltb, ltb→lt,
  le_of_ltb, get_elem?, if◌then◌else◌, inl, inr, arith,
}
use testcluster.Prelude.Int.{ℤ, pos, negsuc}
use native.Mathlib.Nat.{add-mod_left, mod-eq_of_lt}
use testcluster.Pack.Decode.{◌>>=◌}
use testcluster.MysqlPool.{
  MysqlPool, start_loop, start, lua_mod, channel_or_zero, next_index, return_conn, conn_at, is_zero,
  getconn,
}

-- All connections are there, and the next one is one of them.
pub record IsStarted (p : MysqlPool) : Type 0 where
  pub enough : 2 ≤ p.maxconn
  pub full : length p.pool ≡ p.maxconn
  pub low : 1 ≤ p.index
  pub high : p.index ≤ p.maxconn

there : (xs : List ℕ) (i : ℕ) → i < length xs → (x : ℕ) × (get_elem? xs i ≡ some x)
there [] i lt = absurd (let no : i < 0 = lt in omega arith)
there (x ∷ xs) zero lt = (x, refl)
there (x ∷ xs) (suc i) lt = there xs i (omega arith)

conn_at_found :
    (p after : MysqlPool) (i : ℕ)
    → IsStarted p
    → 1 ≤ i
    → i ≤ p.maxconn
    → (db : ℕ) × (get_elem? p.pool (i - 1) ≡ some db) × (conn_at p i after ≡ some (db, i, after))
unfolding conn_at
conn_at_found p after i s least most =
    let full = s.full in
    let (db, found) = there p.pool (i - 1) (omega arith) in
    (db, found, ap (λ r. return_conn r i after) found)

-- getconn without a channel, n times: the connections that are given, with their indices.
unfoldable pub turns : ℕ → MysqlPool → Option (List (ℕ × ℕ) × MysqlPool)
turns zero p = some ([], p)
turns (suc n) p = do
  (db, now_index, after) ← getconn p none
  (given, last) ← turns n after
  some ((db, now_index) ∷ given, last)

stepped-IsStarted : (p : MysqlPool) → IsStarted p → IsStarted (record p { index = next_index p })
unfolding next_index
stepped-IsStarted p s = record {
  enough = s.enough;
  full = s.full;
  low = (let l = s.low in ground arith);
  high = (let e = s.enough in let h = s.high in ground arith);
}

-- The turn after the next, from the next index on.
turned :
    (m i j : ℕ)
    → 1 ≤ i
    → i ≤ m
    → ((if ltb m (i + 1) then 1 else i + 1) - 1 + j) % m ≡ (i - 1 + suc j) % m
turned m i j low high = elim (Bool-cases (ltb m (i + 1))) [
  | inl end ↦
      let at_end : i ≡ m = (let l = ltb→lt m (i + 1) end in omega arith) in
      let split : i - 1 + suc j ≡ m + j = omega arith in
      let start : 1 - 1 + j ≡ j = omega arith in
      rw (end, split) (ap (λ k. k % m) start ∙ sym (add-mod_left m j))
  | inr more ↦ rw (more) (ap (λ k. k % m) (omega arith))
]

-- The j-th of the given is the connection at `i`, from 0 on.
abbrev pub GivenAt : List ℕ → List (ℕ × ℕ) → ℕ → ℕ → Type 0
GivenAt pool given j i =
    (db : ℕ) × (get_elem? pool i ≡ some db) × (get_elem? given j ≡ some (db, i + 1))

-- The turns behind the first.
turn_at :
    (p : MysqlPool) (db : ℕ)
    → IsStarted p
    → get_elem? p.pool (p.index - 1) ≡ some db
    → (given : List (ℕ × ℕ)) (n : ℕ)
    → ((j : ℕ) → j < n → GivenAt p.pool given j ((next_index p - 1 + j) % p.maxconn))
    → (j : ℕ) → j < suc n
    → GivenAt p.pool ((db, p.index) ∷ given) j ((p.index - 1 + j) % p.maxconn)
unfolding next_index
turn_at p db s found given n each zero lt =
    let low = s.low in
    let high = s.high in
    let first : (p.index - 1 + 0) % p.maxconn ≡ p.index - 1 =
      mod-eq_of_lt (omega arith) ∙ omega arith in
    rw (first) (db, found, ap (λ i. some (db, i)) (omega arith))
turn_at p db s found given n each (suc j) lt =
    rw (← turned p.maxconn p.index j s.low s.high) (each j (omega arith))

turns_all :
    (n : ℕ) (p : MysqlPool)
    → IsStarted p
    → (given : List (ℕ × ℕ)) × (q : MysqlPool) × (turns n p ≡ some (given, q))
      × ((j : ℕ) → j < n → GivenAt p.pool given j ((p.index - 1 + j) % p.maxconn))
unfolding turns next_index getconn channel_or_zero is_zero
turns_all zero p s = ([], p, refl, λ j lt. absurd (omega arith))
turns_all (suc n) p s =
    let after : MysqlPool = record p { index = next_index p } in
    let (given, q, e, each) = turns_all n after (stepped-IsStarted p s) in
    let (db, found, got) = conn_at_found p after p.index s s.low s.high in
    (
      (db, p.index) ∷ given,
      q,
      rw (got, turns) (rw (e, turns) refl),
      turn_at p db s found given n each,
    )

-- The connections of a pool as mysql.connect gives them.
abbrev conns_of : List ℕ → List (Option ℕ)
conns_of pool = map (λ db. some db) pool

conns_of-append :
    (pool : List ℕ) (db : ℕ) (connections : List (Option ℕ))
    → conns_of (pool ++ db ∷ []) ++ connections ≡ conns_of pool ++ some db ∷ connections
conns_of-append [] db connections = refl
conns_of-append (x ∷ pool) db connections =
    ap (λ r. some x ∷ r) (conns_of-append pool db connections)

conns_of_at :
    (pool : List ℕ) (i db : ℕ)
    → get_elem? pool i ≡ some db
    → get_elem? (conns_of pool) i ≡ some (some db)
conns_of_at [] i db e = cc (e)
conns_of_at (x ∷ pool) zero db e = ap (λ o. some o) e
conns_of_at (x ∷ pool) (suc i) db e = conns_of_at pool i db e

start_loop_full :
    (connections : List (Option ℕ)) (p q : MysqlPool)
    → start_loop p connections ≡ (q, true)
    → (length q.pool ≡ length p.pool + length connections)
      × (conns_of q.pool ≡ conns_of p.pool ++ connections)
      × (q.maxconn ≡ p.maxconn)
      × (q.index ≡ p.index)
unfolding start_loop
start_loop_full [] p q e =
    let same = ap (λ r. r.0) (sym e) in
    (
      ap (λ r. length (r.pool)) same ∙ omega arith,
      ap (λ r. conns_of (r.pool)) same ∙ sym (append-nil (conns_of p.pool)),
      ap (λ r. r.maxconn) same,
      ap (λ r. r.index) same,
    )
start_loop_full (none ∷ connections) p q e = let fails = ap (λ r. r.1) e in cc (fails)
start_loop_full (some db ∷ connections) p q e =
    let (size, all, most, first) =
      start_loop_full connections (record p { pool = p.pool ++ db ∷ [] }) q e in
    let longer = length-append p.pool (db ∷ []) in
    (omega arith, all ∙ conns_of-append p.pool db connections, most, first)

start-IsStarted :
    (maxconn : ℕ) (connect : ℕ → List (Option ℕ)) (p : MysqlPool)
    → length (connect maxconn) ≡ maxconn
    → start maxconn connect ≡ some (p, true)
    → IsStarted p × (conns_of p.pool ≡ connect maxconn) × (p.maxconn ≡ maxconn) × (p.index ≡ 1)
unfolding start
start-IsStarted maxconn connect p rounds e = elim (Bool-cases (ltb maxconn 2)) [
  | inl few ↦ let fails : none ≡ some (p, true) = rw (few, start) at e in cc (fails)
  | inr enough ↦
      let empty : MysqlPool = record { pool = []; maxconn = maxconn; index = 1 } in
      let started : some (start_loop empty (connect maxconn)) ≡ some (p, true) =
        rw (enough, start) at e in
      let looped : start_loop empty (connect maxconn) ≡ (p, true) = cc (started) in
      let (size, all, most, first) = start_loop_full (connect maxconn) empty p looped in
      let least = le_of_ltb maxconn 2 enough in
      (
        record { enough = omega arith; full = omega arith; low = omega arith; high = omega arith },
        all,
        most,
        first,
      )
]

-- A pool that CMD.start has filled, over connections of which mysql.connect gives as many as are asked for (at least 2): any
-- number of calls of getconn without a channel succeed, and the j-th of them, from 0 on, gives the connection that
-- mysql.connect gave in the round j modulo the number of connections, with that number plus 1, so that the connections take
-- turns.
pub conns_take_turns :
    (maxconn : ℕ) (connect : ℕ → List (Option ℕ)) (p : MysqlPool)
    → length (connect maxconn) ≡ maxconn
    → start maxconn connect ≡ some (p, true)
    → (n j : ℕ) → j < n
    → (given : List (ℕ × ℕ)) × (q : MysqlPool) × (db : ℕ) × (turns n p ≡ some (given, q))
      × (get_elem? (connect maxconn) (j % maxconn) ≡ some (some db))
      × (get_elem? given j ≡ some (db, j % maxconn + 1))
conns_take_turns maxconn connect p rounds e n j lt =
    let (s, all, most, first) = start-IsStarted maxconn connect p rounds e in
    let (given, q, runs, each) = turns_all n p s in
    let (db, found, got) = each j lt in
    let turn : (p.index - 1 + j) % p.maxconn ≡ j % maxconn =
      ap₂ (λ k m. k % m) (let from_one = first in omega arith) most in
    (
      given,
      q,
      db,
      runs,
      rw (← turn, ← all) (conns_of_at p.pool ((p.index - 1 + j) % p.maxconn) db found),
      rw (← turn) got,
    )

channel_in_range : (c : ℤ) (m : ℕ) → 1 ≤ m → lua_mod c m + 1 ≤ m
unfolding lua_mod
channel_in_range (pos n) m least = omega arith
channel_in_range (negsuc n) m least = omega arith

-- A channel that is not 0, negative or not, has one connection, which is there, and leaves the turns as they are.
pub channel_has_conn :
    (p : MysqlPool) (c : ℤ)
    → IsStarted p
    → is_zero c ≡ false
    → (db : ℕ) × (get_elem? p.pool (lua_mod c p.maxconn) ≡ some db)
      × (getconn p (some c) ≡ some (db, lua_mod c p.maxconn + 1, p))
unfolding getconn channel_or_zero
channel_has_conn p c s real =
    let enough = s.enough in
    let (db, found, e) =
      conn_at_found p p (lua_mod c p.maxconn + 1) s (omega arith)
        (channel_in_range c p.maxconn (omega arith)) in
    let at_index : lua_mod c p.maxconn + 1 - 1 ≡ lua_mod c p.maxconn = omega arith in
    (db, rw at_index at found, rw (real) e)
