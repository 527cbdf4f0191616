-- ===== src/Service/Table.antt =====
-- std::map as the code uses it (find, operator[] with an assignment, erase): an association list whose keys are
-- compared by `same`.
use testcluster.Prelude.{
  ◌≡◌, refl, Bool, true, false, Option, none, some, List, [], ◌∷◌, inl, inr, Bool-cases,
  if◌then◌else◌, ◌==◌, ==_refl, ◌&&◌, arith,
}
use testcluster.Pack.Order.{Bytes}

module _ {ℓ κ} {K : Type ℓ} {V : Type κ} (same : K → K → Bool) where
  unfoldable pub find : K → List (K × V) → Option V
  find key [] = none
  find key ((k, v) ∷ rest) = let found = find key rest in if same key k then some v else found

  unfoldable pub erase : K → List (K × V) → List (K × V)
  erase key [] = []
  erase key ((k, v) ∷ rest) =
      let others = erase key rest in if same key k then others else ((k, v) ∷ others)

  -- m[key] = value
  unfoldable pub assign : K → V → List (K × V) → List (K × V)
  unfolding erase
  assign key value table = (key, value) ∷ erase key table

  pub find-erase : (key : K) (table : List (K × V)) → find key (erase key table) ≡ none
  unfolding find erase
  find-erase key [] = refl
  find-erase key ((k, v) ∷ rest) = elim (Bool-cases (same key k)) [
    | inl e ↦ rw (e) (find-erase key rest)
    | inr e ↦ rw (e, e) (find-erase key rest)
  ]

  pub find-assign :
      (key : K) (value : V) (table : List (K × V))
      → same key key ≡ true
      → find key (assign key value table) ≡ some value
  unfolding find assign
  find-assign key value table e = rw (e)

-- Equality of type names.
unfoldable pub same_name : Bytes → Bytes → Bool
same_name [] [] = true
same_name (a ∷ xs) (b ∷ ys) = let rest = same_name xs ys in a == b && rest
same_name _ _ = false

pub same_name-eq : (xs ys : Bytes) → same_name xs ys ≡ true → xs ≡ ys
unfolding same_name
same_name-eq [] [] e = refl
same_name-eq [] (b ∷ ys) e = cc (e)
same_name-eq (a ∷ xs) [] e = cc (e)
same_name-eq (a ∷ xs) (b ∷ ys) e = ground (arith, same_name-eq xs ys)

pub same_name_refl : (name : Bytes) → same_name name name ≡ true
unfolding same_name
same_name_refl [] = refl
same_name_refl (a ∷ rest) = rw (==_refl a, same_name_refl rest)
