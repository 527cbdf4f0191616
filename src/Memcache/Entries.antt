-- ===== src/Memcache/Entries.antt =====
-- Entries of a list by index, and a list from behind, for lua/common/memcache.lua.
use testcluster.Prelude.{
  ℕ, zero, suc, ◌+◌, ◌≡◌, refl, none, some, List, [], ◌∷◌, ◌++◌, length, get_elem?, ◌==◌, ==_of_ne,
  if◌then◌else◌, arith,
}

suc_same : (m n : ℕ) → (suc m == suc n) ≡ (m == n)
suc_same m n = ground arith

pub shifted : (a b n i : ℕ) → a ≡ b + n → (a == b + i) ≡ (n == i)
shifted a b n i e = ground arith

module _ {ℓ} {A : Type ℓ} where
  pub get_elem?-past : (xs : List A) → get_elem? xs (length xs) ≡ none
  get_elem?-past [] = refl
  get_elem?-past (x ∷ xs) = get_elem?-past xs

  pub get_elem?-last :
      (xs : List A) (x : A) (i : ℕ)
      → get_elem? (xs ++ x ∷ []) i ≡ (if length xs == i then some x else get_elem? xs i)
  get_elem?-last [] x zero = refl
  get_elem?-last [] x (suc i) = rw (==_of_ne 0 (suc i) (λ e. omega arith)) refl
  get_elem?-last (y ∷ xs) x zero = rw (==_of_ne (suc (length xs)) 0 (λ e. omega arith)) refl
  get_elem?-last (y ∷ xs) x (suc i) = rw (suc_same (length xs) i) (get_elem?-last xs x i)

  -- A list from behind.
  pub data Back : List A → Type ℓ where
    empty : Back []
    last : (xs : List A) (x : A) → Back (xs ++ x ∷ [])

  back_cons : (x : A) (xs : List A) → Back xs → Back (x ∷ xs)
  back_cons x [] empty = last [] x
  back_cons x _ (last ys y) = last (x ∷ ys) y

  pub back : (xs : List A) → Back xs
  back [] = empty
  back (x ∷ xs) = back_cons x xs (back xs)
