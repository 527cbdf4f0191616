-- ===== src/Cluster/Lookup/Answered.antt =====
-- Each lookup of a name returns once (lua/BeeCluster/bee_clusteragent.lua).
use testcluster.Prelude.{
  ℕ, ◌+◌, ◌≡◌, refl, ◌∙◌, ap, Option, none, some, List, [], ◌∷◌, ◌++◌, ◌==◌, if◌then◌else◌, arith,
}
use testcluster.Cluster.Lookup.{
  Lookup, Query, Agent, no_lookups, wait_or_ask, index, look_up, answered, resume, name_change,
  Step, look, change, answer, resumes, Reach, here, next,
}

-- How often a coroutine is in a list, among lookups, in a query and among results.
unfoldable pub is_co : ℕ → ℕ → ℕ
is_co co c = if co == c then 1 else 0

unfoldable pub count : ℕ → List ℕ → ℕ
unfolding is_co
count co [] = 0
count co (c ∷ cos) = is_co co c + count co cos

unfoldable pub count_lookups : ℕ → List Lookup → ℕ
unfolding is_co
count_lookups co [] = 0
count_lookups co (l ∷ lookups) = is_co co l.co + count_lookups co lookups

unfoldable pub count_found : ℕ → List (ℕ × Option ℕ) → ℕ
unfolding is_co
count_found co [] = 0
count_found co ((c, addr) ∷ found) = is_co co c + count_found co found

unfoldable pub count_query : ℕ → Option Query → ℕ
unfolding is_co count_lookups
count_query co none = 0
count_query co (some q) = is_co co q.asker.co + count_lookups co q.waitco

-- The lookups that have returned, and those that will.
unfoldable pub count_all : ℕ → Agent → ℕ
unfolding count_found count_lookups count_query
count_all co s = count_found co s.found + count_lookups co s.woken + count_query co s.inquery_name

count-append : (co : ℕ) (cos more : List ℕ) → count co (cos ++ more) ≡ count co cos + count co more
unfolding count
count-append co [] more = omega arith
count-append co (c ∷ cos) more = let rest = count-append co cos more in omega arith

count_lookups-append :
    (co : ℕ) (lookups more : List Lookup)
    → count_lookups co (lookups ++ more) ≡ count_lookups co lookups + count_lookups co more
unfolding count_lookups
count_lookups-append co [] more = omega arith
count_lookups-append co (l ∷ lookups) more =
    let rest = count_lookups-append co lookups more in omega arith

count_found-append :
    (co : ℕ) (found : List (ℕ × Option ℕ)) (c : ℕ) (addr : Option ℕ)
    → count_found co (found ++ (c, addr) ∷ []) ≡ count_found co found + is_co co c
unfolding count_found
count_found-append co [] c addr = omega arith
count_found-append co ((c', addr') ∷ found) c addr =
    let rest = count_found-append co found c addr in omega arith

wait_or_ask_counts :
    (co : ℕ) (s : Agent) (lookup : Lookup) (q : Option Query)
    → s.inquery_name ≡ q
    → count_all co (wait_or_ask s lookup q) ≡ count_all co s + is_co co lookup.co
unfolding count_all wait_or_ask count_query count_lookups
wait_or_ask_counts co s lookup none e = rw (e) (omega arith)
wait_or_ask_counts co s lookup (some q) e =
    let waits = count_lookups-append co q.waitco (lookup ∷ []) in
    let query : count_query co s.inquery_name ≡ is_co co q.asker.co + count_lookups co q.waitco =
      ap (λ r. count_query co r) e in
    omega arith

index_counts :
    (co : ℕ) (s : Agent) (c : ℕ) (entry : Option ℕ)
    → count_all co (index s c entry) ≡ count_all co s + is_co co c
unfolding count_all index
index_counts co s c none =
    wait_or_ask_counts co s (record { co = c; self = s.register_name }) s.inquery_name refl
index_counts co s c (some addr) =
    let found = count_found-append co s.found c (some addr) in omega arith

answered_counts :
    (co : ℕ) (s : Agent) (q : Query) (addr : Option ℕ)
    → s.inquery_name ≡ some q
    → count_all co (answered s q addr) ≡ count_all co s
unfolding count_all answered count_query
answered_counts co s q addr e =
    let found = count_found-append co s.found q.asker.co addr in
    let woken = count_lookups-append co s.woken q.waitco in
    let query : count_query co s.inquery_name ≡ is_co co q.asker.co + count_lookups co q.waitco =
      ap (λ r. count_query co r) e in
    omega arith

resume_counts :
    (co : ℕ) (s : Agent) (before after : List Lookup) (lookup : Lookup)
    → s.woken ≡ before ++ lookup ∷ after
    → count_all co (resume s (before ++ after) lookup) ≡ count_all co s
unfolding count_all resume count_lookups
resume_counts co s before after lookup e =
    let found = count_found-append co s.found lookup.co (s.tables lookup.self) in
    let left = count_lookups-append co before after in
    let all = ap (λ w. count_lookups co w) e ∙ count_lookups-append co before (lookup ∷ after) in
    omega arith

Step_counts :
    {s t : Agent} {more : List ℕ} (co : ℕ)
    → Step s more t
    → count_all co t ≡ count_all co s + count co more
unfolding look_up name_change count count_all
Step_counts {s} co (look c) =
    let counted = index_counts co s c (s.tables s.register_name) in omega arith
Step_counts {s} co change = omega arith
Step_counts {s} co (answer q addr e) = let counted = answered_counts co s q addr e in omega arith
Step_counts {s} co (resumes before after lookup e) =
    let counted = resume_counts co s before after lookup e in omega arith

-- In whatever order lookups start, the table is replaced, clusterd answers and woken coroutines run: as often as a coroutine
-- has started a lookup, it has returned from one, has been woken, or is waiting for the one query or asks it, so that no
-- lookup is lost and none returns twice.
pub lookups_return_once :
    {s : Agent} {cos : List ℕ}
    → Reach no_lookups cos s
    → (co : ℕ)
    → count_found co s.found + count_lookups co s.woken + count_query co s.inquery_name
      ≡ count co cos
unfolding count_all count count_found count_lookups count_query
lookups_return_once here co = refl
lookups_return_once (next {cos} {more} r step) co =
    let before = lookups_return_once r co in
    let counted = Step_counts co step in let split = count-append co cos more in omega arith
