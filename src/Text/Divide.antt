-- ===== src/Text/Divide.antt =====
-- divide_string of cpp/common/common.h.
use testcluster.Prelude.{
  ℕ, ◌≡◌, ◌≢◌, ◌⊎◌, inl, inr, refl, ap, [], ◌∷◌, ◌++◌, ◌==◌, Bool-cases, if◌then◌else◌, Option,
  none, some, arith,
}
use testcluster.Pack.Order.{Bytes}

-- std::string::find, with what is before and behind the place; none for npos.
unfoldable pub find_gap : Bytes → ℕ → Option (Bytes × Bytes)
find_gap [] gap = none
find_gap (c ∷ rest) gap =
    let found = find_gap rest gap in
    if c == gap
    then some ([], rest)
    else elim found [ none ↦ none | some (fir, sec) ↦ some (c ∷ fir, sec) ]

unfoldable pub divide_string : Bytes → ℕ → Bytes × Bytes
unfolding find_gap
divide_string source gap = elim (find_gap source gap) [ none ↦ (source, []) | some parts ↦ parts ]

-- A string without the byte.
abbrev pub Lacks : ℕ → Bytes → Type 0
Lacks gap [] = Unit
Lacks gap (c ∷ rest) = (c ≢ gap) × Lacks gap rest

-- A string that starts with one that lacks the byte, and then has it, is divided there.
pub find_gap-at :
    (fir sec : Bytes) (gap : ℕ) → Lacks gap fir → find_gap (fir ++ gap ∷ sec) gap ≡ some (fir, sec)
unfolding find_gap
find_gap-at [] sec gap h = ground arith
find_gap-at (c ∷ fir) sec gap h = ground (arith, find_gap-at fir sec gap (h.1))

pub find_gap-none : (source : Bytes) (gap : ℕ) → Lacks gap source → find_gap source gap ≡ none
unfolding find_gap
find_gap-none [] gap h = refl
find_gap-none (c ∷ rest) gap h = ground (arith, find_gap-none rest gap (h.1))

-- Every string is of one of the two forms.
abbrev pub Divided : Bytes → ℕ → Type 0
Divided source gap =
    Lacks gap source ⊎ ((fir : Bytes) × (sec : Bytes) × Lacks gap fir × (source ≡ fir ++ gap ∷ sec))

Divided-step : (c : ℕ) (rest : Bytes) (gap : ℕ) → Divided rest gap → Divided (c ∷ rest) gap
Divided-step c rest gap d = elim (Bool-cases (c == gap)) [
  | inl e ↦ inr ([], rest, tt, (let same : c ≡ gap = ground arith in ap (λ g. g ∷ rest) same))
  | inr e ↦
      let other : c ≢ gap = ground arith in
      elim d [
        | inl lacks ↦ inl (other, lacks)
        | inr (fir, sec, lacks, is) ↦ inr (c ∷ fir, sec, (other, lacks), ap (λ r. c ∷ r) is)
      ]
]

pub divided : (source : Bytes) (gap : ℕ) → Divided source gap
divided [] gap = inl tt
divided (c ∷ rest) gap = Divided-step c rest gap (divided rest gap)

-- A string that has the byte is divided at the first one, which is left out; one that lacks it is the first part.
pub divide_string_parts :
    (source : Bytes) (gap : ℕ)
    → (Lacks gap source × (divide_string source gap ≡ (source, [])))
      ⊎ ((fir : Bytes) × (sec : Bytes) × Lacks gap fir
          × (source ≡ fir ++ gap ∷ sec)
          × (divide_string source gap ≡ (fir, sec)))
unfolding divide_string
divide_string_parts source gap = elim (divided source gap) [
  | inl lacks ↦ inl (lacks, rw (find_gap-none source gap lacks, divide_string))
  | inr (fir, sec, lacks, is) ↦
      inr (fir, sec, lacks, is, rw (is, find_gap-at fir sec gap lacks, divide_string))
]
