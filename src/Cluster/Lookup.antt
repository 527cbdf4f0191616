-- ===== src/Cluster/Lookup.antt =====
-- register_name_mt of lua/BeeCluster/bee_clusteragent.lua: the coroutines that look up one name, while the agent asks clusterd
-- for it, and while the table of names is replaced by a new one.
pub mod Answered
pub mod Renewed
mod Tests
use testcluster.Prelude.{ℕ, ◌+◌, ◌≡◌, Option, none, some, List, [], ◌∷◌, ◌++◌, ◌==◌, if◌then◌else◌}

-- A coroutine, by number, and the table (`self`) in which it looks.
pub record Lookup : Type 0 where
  pub co : ℕ
  pub self : ℕ

-- The lookup that asks clusterd, and waitco.
pub record Query : Type 0 where
  pub asker : Lookup
  pub waitco : List Lookup

-- register_name is the table with the number `register_name`; `tables` has the entry of the name in each, older ones included.
-- `woken` are the coroutines for which skynet.wakeup was called and that have not run; `found` is what lookups returned.
pub record Agent : Type 0 where
  pub register_name : ℕ
  pub tables : ℕ → Option ℕ
  pub inquery_name : Option Query
  pub woken : List Lookup
  pub found : List (ℕ × Option ℕ)

abbrev pub no_lookups : Agent
no_lookups = record {
  register_name = 0;
  tables = λ self. none;
  inquery_name = none;
  woken = [];
  found = [];
}

abbrev pub return : Agent → ℕ → Option ℕ → Agent
return s co addr = record s { found = s.found ++ (co, addr) ∷ [] }

-- __index: the lookup waits for the query, or makes one.
unfoldable pub wait_or_ask : Agent → Lookup → Option Query → Agent
wait_or_ask s lookup none = record s {
  inquery_name = some (record { asker = lookup; waitco = [] });
}
wait_or_ask s lookup (some q) = record s {
  inquery_name = some (record q { waitco = q.waitco ++ lookup ∷ [] });
}

-- register_name[name], where the table has the entry or not.
unfoldable pub index : Agent → ℕ → Option ℕ → Agent
unfolding wait_or_ask
index s co (some addr) = return s co (some addr)
index s co none = wait_or_ask s (record { co = co; self = s.register_name }) s.inquery_name

unfoldable pub look_up : Agent → ℕ → Agent
unfolding index
look_up s co = index s co (s.tables s.register_name)

-- self[name] = addr, if there is one.
unfoldable pub set_entry : (ℕ → Option ℕ) → ℕ → Option ℕ → ℕ → Option ℕ
set_entry tables self none = tables
set_entry tables self (some addr) = λ table. if self == table then some addr else tables table

-- clusterd answers.
unfoldable pub answered : Agent → Query → Option ℕ → Agent
unfolding set_entry
answered s q addr =
    return
      (record s {
        tables = set_entry s.tables q.asker.self addr;
        inquery_name = none;
        woken = s.woken ++ q.waitco;
      })
      q.asker.co addr

-- rawget(self, name)
unfoldable pub resume : Agent → List Lookup → Lookup → Agent
resume s left lookup = return (record s { woken = left }) lookup.co (s.tables lookup.self)

-- "namechange": a table that has not been used.
unfoldable pub name_change : Agent → Agent
name_change s = record s { register_name = s.register_name + 1 }

-- What happens next, with the coroutine that starts a lookup, if it is that. Coroutines that are woken run in any order.
pub data Step (s : Agent) : List ℕ → Agent → Type 0 where
  look : (co : ℕ) → Step s (co ∷ []) (look_up s co)
  change : Step s [] (name_change s)
  answer : (q : Query) (addr : Option ℕ) → s.inquery_name ≡ some q → Step s [] (answered s q addr)
  resumes :
      (before after : List Lookup) (lookup : Lookup)
      → s.woken ≡ before ++ lookup ∷ after
      → Step s [] (resume s (before ++ after) lookup)

pub data Reach (s : Agent) : List ℕ → Agent → Type 0 where
  here : Reach s [] s
  next : {cos more : List ℕ} {t u : Agent} → Reach s cos t → Step t more u → Reach s (cos ++ more) u
