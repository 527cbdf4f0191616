-- ===== src/Memcache/Tests.antt =====
-- Two objects are pushed; one is taken at each end.
use testcluster.Prelude.{ℕ, ◌≡◌, refl, none, some, List, [], ◌∷◌, length, true, false}
use testcluster.Memcache.{
  Op, popping, popping_back, pushing, got, did, ctor, init, size, run_all, run, pop, pop_entry,
  pop_back, pop_back_entry, push_back, set_at,
}
use testcluster.Memcache.Deque.{ActsAll, queue_is_list}

abbrev ops : List (Op ℕ)
ops =
    popping
    ∷ pushing (some 5)
    ∷ pushing (some 6)
    ∷ pushing none
    ∷ popping_back
    ∷ popping
    ∷ popping
    ∷ []

taken :
    (run_all ctor ops).1
    ≡ got none ∷ did true ∷ did true ∷ did false ∷ got (some 6) ∷ got (some 5) ∷ got none ∷ []
unfolding run_all run ctor pop pop_entry pop_back pop_back_entry push_back set_at
taken = refl

queue_is_list_example :
    (xs : List ℕ) × ActsAll ops (3 ∷ []) ((run_all (init (3 ∷ [])) ops).1) xs
    × (size ((run_all (init (3 ∷ [])) ops).0) ≡ length xs)
queue_is_list_example = queue_is_list (3 ∷ []) ops
