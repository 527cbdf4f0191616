-- ===== src/Text/Parm/Bounds.antt =====
-- Which texts TextParm::deserilize (cpp/common/Pack.cpp) reads without writing behind its buffers.
use testcluster.Prelude.{
  ℕ, zero, suc, ◌-◌, ◌<◌, ◌≤◌, ◌≡◌, ◌≢◌, ◌⊎◌, inl, inr, ◌∙◌, refl, ap, true, Bool-cases, none, some,
  [], ◌∷◌, ◌++◌, length, length-append, take-append_length, drop, ltb, ltb_of_le, ◌==◌, ==_of_ne,
  arith,
}
use testcluster.Pack.Order.{Bytes}
use testcluster.Pack.Decode.{Access}
use testcluster.Text.Divide.{Lacks, divided}
use testcluster.Text.Sorted.{Entries, put, IsSorted, put-IsSorted}
use testcluster.Text.Parm.{
  TextParm, c_string, fill, read_pair, read_entry, read_entries, deserilize, buffer_size,
}
use testcluster.Text.Parm.Trip.{Starts, copy_front, strlen_all, fill-word}

-- A result with what is left of the text shorter than a bound.
abbrev Leaves : ℕ → Access (Bytes × Bytes) → Type 0
Leaves bound a = (word : Bytes) × (left : Bytes) × (a ≡ some (word, left)) × (length left ≤ bound)

fill_fits :
    (room stop : ℕ) (text : Bytes)
    → length text < room
    → Leaves (length text - 1) (fill room stop text)
unfolding fill
fill_fits zero stop text fits = absurd (omega arith)
fill_fits (suc room) stop [] fits = ([], [], refl, omega arith)
fill_fits (suc room) stop (c ∷ rest) fits = elim (Bool-cases (c == stop)) [
  | inl e ↦ ([], rest, rw (e), omega arith)
  | inr e ↦
      let (word, left, more, short) = fill_fits room stop rest (omega arith) in
      (c ∷ word, left, rw (e, more), omega arith)
]

-- A text that has no room for its end mark.
fill_overflows :
    (room stop : ℕ) (text : Bytes)
    → length text ≡ room
    → Lacks stop text
    → fill room stop text ≡ none
unfolding fill
fill_overflows zero stop text full lacks = refl
fill_overflows (suc room) stop [] full lacks = absurd (omega arith)
fill_overflows (suc room) stop (c ∷ rest) full lacks =
    rw (==_of_ne c stop (lacks.0), fill_overflows room stop rest (omega arith) (lacks.1))

-- A round that gives sorted entries, and less text.
abbrev Goes : ℕ → Access (Bytes × Entries) → Type 0
Goes bound a =
    (left : Bytes) × (more : Entries) × (a ≡ some (left, more))
    × (length left ≤ bound)
    × IsSorted more

-- A pair whose key was read.
read_value :
    (text key behind : Bytes) (entries : Entries)
    → fill buffer_size b'=' text ≡ some (key, behind)
    → length behind < buffer_size
    → IsSorted entries
    → Goes (length behind) (read_pair text entries)
unfolding read_pair
read_value text key behind entries e fits sorted =
    let (value, left, v, short) = fill_fits buffer_size 32 behind fits in
    (
      left,
      put (c_string key) (c_string value) entries,
      rw (e, v),
      omega arith,
      put-IsSorted (c_string key) (c_string value) entries sorted,
    )

read_entry-Goes :
    (c : ℕ) (rest : Bytes) (entries : Entries)
    → suc (length rest) < buffer_size
    → IsSorted entries
    → Goes (length rest) (read_entry c rest entries)
unfolding read_entry
read_entry-Goes c rest entries fits sorted = elim (Bool-cases (c == 32)) [
  | inl e ↦ (rest, entries, rw (e), omega arith, sorted)
  | inr e ↦
      let (key, behind, k, short) = fill_fits buffer_size b'=' (c ∷ rest) fits in
      let (left, more, pair, less, order) =
        read_value (c ∷ rest) key behind entries k (omega arith) sorted in
      (left, more, rw (e) pair, omega arith, order)
]

-- The loop gives sorted entries.
abbrev Sorts : Access Entries → Type 0
Sorts a = (es : Entries) × (a ≡ some es) × IsSorted es

read_entries-Sorts :
    (fuel : ℕ) (text : Bytes) (entries : Entries)
    → length text ≤ fuel
    → length text < buffer_size
    → IsSorted entries
    → Sorts (read_entries fuel text entries)
unfolding read_entries
read_entries-Sorts zero [] entries enough fits sorted = (entries, refl, sorted)
read_entries-Sorts (suc fuel) [] entries enough fits sorted = (entries, refl, sorted)
read_entries-Sorts zero (c ∷ rest) entries enough fits sorted = absurd (omega arith)
read_entries-Sorts (suc fuel) (c ∷ rest) entries enough fits sorted =
    let (left, more, e, less, order) = read_entry-Goes c rest entries fits sorted in
    let (es, r, done) = read_entries-Sorts fuel left more (omega arith) (omega arith) order in
    (es, rw (e) r, done)

-- A text that fills the buffer with a key that has no end.
abbrev pub IsOverlong : Bytes → Type 0
IsOverlong text = (length text ≡ buffer_size) × Lacks b'=' text × Starts text

overlong_none :
    (fuel : ℕ) (c : ℕ) (rest : Bytes) (entries : Entries)
    → IsOverlong (c ∷ rest)
    → read_entries (suc fuel) (c ∷ rest) entries ≡ none
unfolding read_entries read_entry read_pair
overlong_none fuel c rest entries (full, lacks, starts) =
    rw (==_of_ne c 32 starts, fill_overflows buffer_size b'=' (c ∷ rest) full lacks)

-- A key that ends leaves room for its value.
keyed-Sorts :
    (fuel c : ℕ) (rest fir sec : Bytes)
    → c ≢ 32
    → suc (length rest) ≤ buffer_size
    → length rest ≤ fuel
    → Lacks b'=' fir
    → c ∷ rest ≡ fir ++ b'=' ∷ sec
    → Sorts (read_entries (suc fuel) (c ∷ rest) [])
unfolding read_entries read_entry
keyed-Sorts fuel c rest fir sec other fits enough lacks is =
    let size = ap length is ∙ length-append fir (b'=' ∷ sec) in
    let read : fill buffer_size b'=' (c ∷ rest) ≡ some (fir, sec) =
      ap (λ t. fill buffer_size b'=' t) is
      ∙ fill-word buffer_size b'=' fir sec lacks (omega arith) in
    let (left, more, pair, less, order) = read_value (c ∷ rest) fir sec [] read (omega arith) tt in
    let (es, r, done) = read_entries-Sorts fuel left more (omega arith) (omega arith) order in
    (es, rw (==_of_ne c 32 other, pair) r, done)

space-Sorts :
    (c : ℕ) (rest : Bytes)
    → (c == 32) ≡ true
    → suc (length rest) ≤ buffer_size
    → Sorts (read_entries (suc (length rest)) (c ∷ rest) [])
unfolding read_entries read_entry
space-Sorts c rest e fits =
    rw (e) (read_entries-Sorts (length rest) rest [] (omega arith) (omega arith) tt)

-- A text with a '=' does not lack it.
not_keyed : (text fir sec : Bytes) → text ≡ fir ++ b'=' ∷ sec → Lacks b'=' text → ⊥
unfolding drop
not_keyed [] [] sec is lacks = ground arith
not_keyed [] (d ∷ fir) sec is lacks = ground arith
not_keyed (c ∷ text) [] sec is lacks = ground arith
not_keyed (c ∷ text) (d ∷ fir) sec is lacks =
    not_keyed text fir sec (ap (λ l. drop 1 l) is) (lacks.1)

-- The two ways of the loop.
read_entries_cases :
    (text : Bytes)
    → length text ≤ buffer_size
    → (IsOverlong text × (read_entries (length text) text [] ≡ none))
      ⊎ ((IsOverlong text → ⊥) × Sorts (read_entries (length text) text []))
read_entries_cases [] fits =
    inr ((λ o. absurd (omega arith)), read_entries-Sorts 0 [] [] (omega arith) (omega arith) tt)
read_entries_cases (c ∷ rest) fits = elim (Bool-cases (c == 32)) [
  | inl e ↦ inr ((λ o. ground arith), space-Sorts c rest e fits)
  | inr e ↦
      let other : c ≢ 32 = ground arith in
      elim (divided (c ∷ rest) b'=') [
        | inl lacks ↦ elim (Bool-cases (ltb (length rest) 9999)) [
          | inl small ↦ inr (
            (λ o. ground arith),
            read_entries-Sorts (suc (length rest)) (c ∷ rest) [] (omega arith) (ground arith) tt,
          )
          | inr full ↦
              let over : IsOverlong (c ∷ rest) = (ground arith, lacks, other) in
              inl (over, overlong_none (length rest) c rest [] over)
        ]
        | inr (fir, sec, lacks, is) ↦ inr (
          (λ o. not_keyed (c ∷ rest) fir sec is (o.1)),
          keyed-Sorts (length rest) c rest fir sec other fits (omega arith) lacks is,
        )
      ]
]

-- A C string of at most 10000 bytes makes deserilize write behind its buffers exactly if it has that length, no '=' and
-- no space in front; any other is read, to entries sorted by key, with the text noted.
pub deserilize_cases :
    (p : TextParm) (text rest : Bytes)
    → Lacks 0 text
    → length text ≤ buffer_size
    → (IsOverlong text × (deserilize p (text ++ 0 ∷ rest) (length text) ≡ none))
      ⊎ ((IsOverlong text → ⊥)
          × ((q : TextParm) × (deserilize p (text ++ 0 ∷ rest) (length text) ≡ some q)
              × IsSorted q.entries
              × (q.stream ≡ text)))
unfolding deserilize
deserilize_cases p text rest whole fits =
    rw (ltb_of_le buffer_size (length text) fits, copy_front text (0 ∷ rest))
      (elim (read_entries_cases text fits) [
        | inl (over, e) ↦ inl (over, rw (e))
        | inr (not_over, (es, e, sorted)) ↦ inr (
          not_over,
          (
            record { entries = es; stream = text },
            rw (
              e,
              strlen_all text rest whole,
              take-append_length (length text) text (0 ∷ rest) refl,
            ),
            sorted,
            refl,
          ),
        )
      ])
