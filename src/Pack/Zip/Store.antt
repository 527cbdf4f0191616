-- ===== src/Pack/Zip/Store.antt =====
-- A zlib that stores, which keeps the promises of Deflate: it shows that they can be kept, and runs in the tests.
use testcluster.Prelude.{
  ℕ, zero, suc, ◌<◌, ◌≤◌, ◌≡◌, ◌∙◌, refl, ap, sym, Bool, true, false, ◌&&◌, Option, some, [], ◌∷◌,
  ◌++◌, append-nil, length, length-take, take, drop, drop_all, ltb, ltb→lt, lt→ltb, arith,
}
use testcluster.Pack.Order.{Bytes}
use testcluster.Pack.Zip.{
  Zlib, ZResult, z_ok, z_stream_end, z_stream_error, is_stream_error, is_stream_end,
}
use testcluster.Pack.Zip.Deflate.{Promises}

-- A stream that ends has given all of it and has room left.
abbrev store_ends : ℕ → Bytes → Bool → Bool
store_ends room out finish = finish && ltb (length out) room

abbrev store_code : Bool → ZResult
store_code true = z_stream_end
store_code false = z_ok

-- A stream is what was stored, and whether it has ended. One that has ended refuses input, and calls without Z_FINISH.
abbrev store_deflate : Bytes × Bool → Bytes → ℕ → Bool → ZResult × (Bytes × Bool) × ℕ × Bytes
store_deflate (s, false) input room finish = (
  store_code (store_ends room (take room input) finish),
  (s ++ take room input, store_ends room (take room input) finish),
  length (take room input),
  take room input,
)
store_deflate (s, true) [] room true = (z_stream_end, (s, true), 0, [])
store_deflate (s, true) input room finish = (z_stream_error, (s, true), 0, [])

abbrev pub store : Zlib
store = record { Stream = Bytes × Bool; deflate_init = some ([], false); deflate = store_deflate }

-- What a stream may be called with.
data StoreTakes : Bytes × Bool → Bytes → Bool → Type 0 where
  still : {s input : Bytes} {finish : Bool} → StoreTakes (s, false) input finish
  ended : {s : Bytes} → StoreTakes (s, true) [] true

abbrev pub same_bytes : Bytes → Option Bytes
same_bytes text = some text

abbrev pub same_size : ℕ → ℕ
same_size n = n

take-length-take : (n : ℕ) (xs : Bytes) → take (length (take n xs)) xs ≡ take n xs
unfolding take
take-length-take zero xs = refl
take-length-take (suc n) [] = refl
take-length-take (suc n) (x ∷ xs) = ap (λ r. x ∷ r) (take-length-take n xs)

length-take_le : (n : ℕ) (xs : Bytes) → length (take n xs) ≤ n
length-take_le n xs = rw (length-take n xs) (omega arith)

take_short : (n : ℕ) (xs : Bytes) → length (take n xs) < n → length xs ≤ length (take n xs)
take_short n xs h = let size = length-take n xs in omega arith

code_no_error : (e : Bool) → is_stream_error (store_code e) ≡ false
unfolding is_stream_error
code_no_error true = refl
code_no_error false = refl

code_ends : (e : Bool) → is_stream_end (store_code e) ≡ e
unfolding is_stream_end
code_ends true = refl
code_ends false = refl

ends_with_room : (room : ℕ) (out : Bytes) → length out < room → store_ends room out true ≡ true
ends_with_room room out h = lt→ltb (length out) room h

-- Behind Z_NO_FLUSH nothing has ended; behind Z_FINISH nothing is left, or nothing has ended.
takes_rest :
    (e : Bool) (room : ℕ) (s input : Bytes)
    → ltb (length (take room input)) room ≡ e
    → StoreTakes (s, e) (drop (length (take room input)) input) true
takes_rest false room s input h = still
takes_rest true room s input h =
    let all = take_short room input (ltb→lt _ _ h) in
    rw (drop_all (length (take room input)) input all) ended

takes_more_eq :
    (s : Bytes × Bool) (input : Bytes) (room : ℕ) (more : Bytes) (finish : Bool)
    → StoreTakes s input false
    → StoreTakes ((store_deflate s input room false).1) more finish
takes_more_eq (s, false) input room more finish still = still
takes_more_eq (s, true) input room more finish t = elim t [ ]

takes_rest_eq :
    (s : Bytes × Bool) (input : Bytes) (room : ℕ)
    → StoreTakes s input true
    → StoreTakes
        ((store_deflate s input room true).1)
        (drop ((store_deflate s input room true).2) input)
        true
unfolding drop
takes_rest_eq (s, false) input room still = takes_rest _ room (s ++ take room input) input refl
takes_rest_eq (s, true) [] room ended = ended
takes_rest_eq (s, true) (x ∷ input) room t = elim t [ ]

takes_eq :
    (s : Bytes × Bool) (input : Bytes) (room : ℕ) (finish : Bool)
    → StoreTakes s input finish
    → ((store_deflate s input room finish).1).0
      ≡ s.0 ++ take ((store_deflate s input room finish).2) input
unfolding take
takes_eq (s, false) input room finish still = ap (λ t. s ++ t) (sym (take-length-take room input))
takes_eq (s, true) [] room true ended = sym (append-nil s)
takes_eq (s, true) [] room false t = elim t [ ]
takes_eq (s, true) (x ∷ input) room finish t = elim t [ ]

gives_eq :
    (s : Bytes × Bool) (input : Bytes) (room : ℕ) (finish : Bool)
    → StoreTakes s input finish
    → ((store_deflate s input room finish).1).0 ≡ s.0 ++ (store_deflate s input room finish).3
gives_eq (s, false) input room finish still = refl
gives_eq (s, true) [] room true ended = sym (append-nil s)
gives_eq (s, true) [] room false t = elim t [ ]
gives_eq (s, true) (x ∷ input) room finish t = elim t [ ]

within_le :
    (s : Bytes × Bool) (input : Bytes) (room : ℕ) (finish : Bool)
    → StoreTakes s input finish
    → length ((store_deflate s input room finish).3) ≤ room
within_le (s, false) input room finish still = length-take_le room input
within_le (s, true) [] room true ended = omega arith
within_le (s, true) [] room false t = elim t [ ]
within_le (s, true) (x ∷ input) room finish t = elim t [ ]

no_error_eq :
    (s : Bytes × Bool) (input : Bytes) (room : ℕ) (finish : Bool)
    → StoreTakes s input finish
    → is_stream_error ((store_deflate s input room finish).0) ≡ false
unfolding is_stream_error
no_error_eq (s, false) input room finish still = code_no_error _
no_error_eq (s, true) [] room true ended = refl
no_error_eq (s, true) [] room false t = elim t [ ]
no_error_eq (s, true) (x ∷ input) room finish t = elim t [ ]

all_taken_le :
    (s : Bytes × Bool) (input : Bytes) (room : ℕ) (finish : Bool)
    → StoreTakes s input finish
    → length ((store_deflate s input room finish).3) < room
    → length input ≤ (store_deflate s input room finish).2
all_taken_le (s, false) input room finish still h = take_short room input h
all_taken_le (s, true) [] room true ended h = omega arith
all_taken_le (s, true) [] room false t h = elim t [ ]
all_taken_le (s, true) (x ∷ input) room finish t h = elim t [ ]

ends_eq :
    (s : Bytes × Bool) (input : Bytes) (room : ℕ)
    → StoreTakes s input true
    → length ((store_deflate s input room true).3) < room
    → is_stream_end ((store_deflate s input room true).0) ≡ true
unfolding is_stream_end
ends_eq (s, false) input room still h = code_ends _ ∙ ends_with_room room (take room input) h
ends_eq (s, true) [] room ended h = refl
ends_eq (s, true) (x ∷ input) room t h = elim t [ ]

pub store-Promises : Promises store same_bytes same_size
store-Promises = record {
  Takes = StoreTakes;
  fed = λ (s, e). s;
  made = λ (s, e). s;
  start = ([], false);
  started = refl;
  takes_start = λ input finish. still;
  takes_more = takes_more_eq;
  takes_rest = takes_rest_eq;
  fed_start = refl;
  made_start = refl;
  takes = takes_eq;
  gives = gives_eq;
  within = within_le;
  no_error = no_error_eq;
  all_taken = all_taken_le;
  ends = ends_eq;
  inflates = λ s input room t e. refl;
  bounded = λ s input finish t. omega arith;
  monotone = λ m n h. h;
}
