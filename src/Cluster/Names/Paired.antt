-- ===== src/Cluster/Names/Paired.antt =====
-- Names and addresses stay paired (lua/BeeCluster/bee_clusterd.lua).
use testcluster.Prelude.{
  ℕ, List, ◌↔◌, Option-cases, ◌≡◌, Bool, false, none, some, [], ◌∷◌, ==_refl, inl, inr, arith,
}
use testcluster.Pack.Order.{Bytes}
use testcluster.Service.Table.{same_name_refl, same_name-eq}
use testcluster.Cluster.Names.{
  Names, no_names, set_name, set_addr, register, unregister, queryname, drop_old_name, add_name,
}

-- A name has the address that has the name.
pub record IsPaired (names : Names) : Type 0 where
  pub there :
      (name : Bytes) (addr : ℕ) → names.by_name name ≡ some addr → names.by_addr addr ≡ some name
  pub back :
      (name : Bytes) (addr : ℕ) → names.by_addr addr ≡ some name → names.by_name name ≡ some addr

no_names-IsPaired : IsPaired no_names
no_names-IsPaired = record { there = λ name addr e. cc (e); back = λ name addr e. cc (e) }

-- The commands of the node.
pub data Command : Type 0 where
  registers : Bytes → ℕ → Command
  unregisters : Bytes → Command

-- A command that fails changes nothing.
unfoldable pub run : Names → Command → Names × Bool
unfolding register unregister
run names (registers name addr) = elim (register names name addr) [
  | none ↦ (names, false)
  | some changed ↦ changed
]
run names (unregisters name) = unregister names name

-- With the address `a` of `name` taken away, the rest is paired, and neither is there.
unpaired :
    (names : Names) (name : Bytes) (a : ℕ)
    → IsPaired names
    → names.by_name name ≡ some a
    → IsPaired (record {
      by_name = set_name names.by_name name none;
      by_addr = set_addr names.by_addr a none;
    })
unpaired names name a p e = record {
  there = λ n x g. ground (arith, p.there n x, p.there name a e, same_name_refl name);
  back = λ n x g.
      ground (arith, p.back n x, p.there name a e, p.there n x, same_name-eq name n, ==_refl a);
}

-- A name that is free gets an address that is free.
paired :
    (names : Names) (name : Bytes) (a : ℕ)
    → IsPaired names
    → names.by_name name ≡ none
    → names.by_addr a ≡ none
    → IsPaired (record {
      by_name = set_name names.by_name name (some a);
      by_addr = set_addr names.by_addr a (some name);
    })
paired names name a p e f = record {
  there = λ n x g. ground (arith, p.there n x, same_name-eq name n, same_name_refl name, ==_refl a);
  back = λ n x g. ground (arith, p.back n x, same_name-eq name n, same_name_refl name, ==_refl a);
}

-- An address that changes its name.
renamed :
    (names : Names) (name old : Bytes) (a : ℕ)
    → IsPaired names
    → names.by_name name ≡ none
    → names.by_addr a ≡ some old
    → IsPaired (record {
      by_name = set_name (set_name names.by_name old none) name (some a);
      by_addr = set_addr names.by_addr a (some name);
    })
renamed names name old a p e f =
    let less : Names = record {
      by_name = set_name names.by_name old none;
      by_addr = set_addr names.by_addr a none;
    } in
    let q : IsPaired less = unpaired names old a p (p.back old a f) in
    let r = paired less name a q (ground (arith, e)) (ground (arith, ==_refl a)) in
    record {
      there = λ n x g. ground (arith, r.there n x g);
      back = λ n x g. r.back n x (ground (arith, g));
    }

run-IsPaired : (names : Names) (c : Command) → IsPaired names → IsPaired ((run names c).0)
unfolding run drop_old_name add_name
run-IsPaired names (registers name addr) p = elim (Option-cases (names.by_name name)) [
  | inr (taken, t) ↦ rw (t, run) p
  | inl free ↦ elim (Option-cases (names.by_addr addr)) [
    | inl new ↦ rw (free, run) (rw (new, run) (paired names name addr p free new))
    | inr (old, known) ↦ rw (free, run) (rw (known, run) (renamed names name old addr p free known))
  ]
]
run-IsPaired names (unregisters name) p = elim (Option-cases (names.by_name name)) [
  | inr (taken, t) ↦ rw (t, unregister) (unpaired names name taken p t)
  | inl free ↦ rw (free, unregister) p
]

unfoldable pub run_all : Names → List Command → Names
run_all names [] = names
run_all names (c ∷ commands) = run_all ((run names c).0) commands

run_all-IsPaired :
    (commands : List Command) (names : Names) → IsPaired names → IsPaired (run_all names commands)
unfolding run_all
run_all-IsPaired [] names p = p
run_all-IsPaired (c ∷ commands) names p =
    run_all-IsPaired commands ((run names c).0) (run-IsPaired names c p)

-- Whatever names are registered and unregistered on a node that starts with none: a name has an address exactly if the address
-- has that name, so that no two names have the same address.
pub names_stay_paired :
    (commands : List Command) (name : Bytes) (addr : ℕ)
    → (queryname (run_all no_names commands) name ≡ some addr)
      ↔ ((run_all no_names commands).by_addr addr ≡ some name)
unfolding queryname
names_stay_paired commands name addr =
    let p = run_all-IsPaired commands no_names no_names-IsPaired in
    (p.there name addr, p.back name addr)
