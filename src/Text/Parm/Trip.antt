-- ===== src/Text/Parm/Trip.antt =====
-- What TextParm::serilize (cpp/common/Pack.cpp) prints, deserilize reads back.
use testcluster.Prelude.{
  ℕ, zero, suc, ◌+◌, ◌<◌, ◌≤◌, ◌≡◌, ◌≢◌, refl, ap, sym, some, [], ◌∷◌, ◌++◌, length, length-append,
  take-append_length, ltb_of_le, ==_of_ne, leb_of_le, arith,
}
use testcluster.Pack.Order.{Bytes}
use testcluster.Pack.Decode.{copy, strlen}
use testcluster.Text.Divide.{Lacks}
use testcluster.Text.Sorted.{Entries, put, less_asym, Behind, IsSorted}
use testcluster.Text.Parm.{
  TextParm, c_string, fill, read_pair, read_entry, read_entries, deserilize, print_entries,
  serilize, buffer_size,
}

pub fill-word :
    (room stop : ℕ) (word rest : Bytes)
    → Lacks stop word
    → length word < room
    → fill room stop (word ++ stop ∷ rest) ≡ some (word, rest)
unfolding fill
fill-word zero stop word rest lacks fits = absurd (omega arith)
fill-word (suc room) stop [] rest lacks fits = ground arith
fill-word (suc room) stop (c ∷ word) rest lacks fits =
    ground (arith, fill-word room stop word rest (lacks.1))

pub c_string_all : (word : Bytes) → Lacks 0 word → c_string word ≡ word
unfolding c_string
c_string_all [] lacks = refl
c_string_all (c ∷ word) lacks = ground (arith, c_string_all word (lacks.1))

pub strlen_all : (word rest : Bytes) → Lacks 0 word → strlen (word ++ 0 ∷ rest) ≡ some (length word)
unfolding strlen
strlen_all [] rest lacks = refl
strlen_all (c ∷ word) rest lacks = ground (arith, strlen_all word rest (lacks.1))

-- A text that does not start with a space.
abbrev pub Starts : Bytes → Type 0
Starts [] = Unit
Starts (c ∷ rest) = c ≢ 32

-- An entry that the format can hold: no end mark, no '=' in the key and no space in front of it, no space in the value.
pub record IsClean (key value : Bytes) : Type 0 where
  pub key_text : Lacks 0 key
  pub key_lacks : Lacks b'=' key
  pub key_starts : Starts key
  pub value_text : Lacks 0 value
  pub value_lacks : Lacks 32 value

abbrev pub AllClean : Entries → Type 0
AllClean [] = Unit
AllClean ((key, value) ∷ rest) = IsClean key value × AllClean rest

abbrev printed : Bytes → Bytes → Bytes → Bytes
printed key value rest = key ++ b'=' ∷ (value ++ 32 ∷ rest)

-- The round without the test for a space.
read_round :
    (key value rest : Bytes) (entries : Entries)
    → IsClean key value
    → length key < buffer_size
    → length value < buffer_size
    → read_pair (printed key value rest) entries ≡ some (rest, put key value entries)
unfolding read_pair
read_round key value rest entries clean fits room = rw (
  fill-word buffer_size b'=' key (value ++ 32 ∷ rest) clean.key_lacks fits,
  fill-word buffer_size 32 value rest clean.value_lacks room,
  c_string_all key clean.key_text,
  c_string_all value clean.value_text,
)

read_entries_step :
    (fuel : ℕ) (key value rest : Bytes) (entries : Entries)
    → IsClean key value
    → length key < buffer_size
    → length value < buffer_size
    → read_entries (suc fuel) (printed key value rest) entries
      ≡ read_entries fuel rest (put key value entries)
unfolding read_entries read_entry
read_entries_step fuel [] value rest entries clean fits room =
    rw (read_round [] value rest entries clean fits room)
read_entries_step fuel (c ∷ key) value rest entries clean fits room =
    rw (==_of_ne c 32 clean.key_starts, read_round (c ∷ key) value rest entries clean fits room)

-- All keys of `front` are before those of `back`.
abbrev Before : Entries → Entries → Type 0
Before [] back = Unit
Before ((key, value) ∷ front) back = Behind key back × Before front back

put_last :
    (front : Entries) (key value : Bytes) (rest : Entries)
    → Before front ((key, value) ∷ rest)
    → put key value front ≡ front ++ (key, value) ∷ []
unfolding put
put_last [] key value rest b = refl
put_last ((k, v) ∷ front) key value rest b =
    ground (arith, less_asym k key, put_last front key value rest (b.1))

Before-next :
    (front : Entries) (key value : Bytes) (rest : Entries)
    → Before front ((key, value) ∷ rest)
    → Behind key rest
    → Before (front ++ (key, value) ∷ []) rest
Before-next [] key value rest b s = (s, tt)
Before-next ((k, v) ∷ front) key value rest b s =
    ((b.0).1, Before-next front key value rest (b.1) s)

length-printed :
    (key value rest : Bytes)
    → length (printed key value rest) ≡ 2 + length key + length value + length rest
length-printed key value rest =
    rw (length-append key (b'=' ∷ (value ++ 32 ∷ rest)), length-append value (32 ∷ rest))
      (omega arith)

append_nil : (front : Entries) → front ++ [] ≡ front
append_nil [] = refl
append_nil (x ∷ front) = ap (λ r. x ∷ r) (append_nil front)

append_last :
    (front : Entries) (e : Bytes × Bytes) (rest : Entries)
    → (front ++ e ∷ []) ++ rest ≡ front ++ e ∷ rest
append_last [] e rest = refl
append_last (x ∷ front) e rest = ap (λ r. x ∷ r) (append_last front e rest)

-- The loop puts what is printed behind the entries that it has.
read_printed :
    (fuel : ℕ) (front es : Entries)
    → AllClean es
    → IsSorted es
    → Before front es
    → length (print_entries es) ≤ buffer_size
    → length es ≤ fuel
    → read_entries fuel (print_entries es) front ≡ some (front ++ es)
unfolding read_entries print_entries
read_printed fuel front [] clean sorted before small enough =
    ap (λ r. some r) (sym (append_nil front))
read_printed zero front ((key, value) ∷ es) clean sorted before small enough = absurd (omega arith)
read_printed (suc fuel) front ((key, value) ∷ es) clean sorted before small enough =
    let size = length-printed key value (print_entries es) in
    rw
      (
        read_entries_step fuel key value (print_entries es) front (clean.0) (omega arith)
            (omega arith),
        put_last front key value es before,
        read_printed fuel (front ++ (key, value) ∷ []) es (clean.1) (sorted.1)
            (Before-next front key value es before (sorted.0)) (omega arith) (omega arith),
      )
      (ap (λ r. some r) (append_last front (key, value) es))

Lacks-append : (stop : ℕ) (xs ys : Bytes) → Lacks stop xs → Lacks stop ys → Lacks stop (xs ++ ys)
Lacks-append stop [] ys hx hy = hy
Lacks-append stop (c ∷ xs) ys hx hy = (hx.0, Lacks-append stop xs ys (hx.1) hy)

pub print_entries-Lacks : (es : Entries) → AllClean es → Lacks 0 (print_entries es)
unfolding print_entries
print_entries-Lacks [] clean = tt
print_entries-Lacks ((key, value) ∷ es) clean =
    let entry = clean.0 in
    Lacks-append 0 key (b'=' ∷ (value ++ 32 ∷ print_entries es)) entry.key_text (
      omega arith,
      Lacks-append 0 value (32 ∷ print_entries es) entry.value_text
          (omega arith, print_entries-Lacks es (clean.1)),
    )

length_entries : (es : Entries) → length es ≤ length (print_entries es)
unfolding print_entries
length_entries [] = omega arith
length_entries ((key, value) ∷ es) =
    let size = length-printed key value (print_entries es) in
    let more = length_entries es in omega arith

Before-nothing : (es : Entries) → Before [] es
Before-nothing es = tt

pub copy_front : (xs ys : Bytes) → copy (length xs) (xs ++ ys) ≡ some xs
unfolding copy
copy_front xs ys = rw (
  length-append xs ys,
  leb_of_le (length xs) (length xs + length ys) (omega arith),
  take-append_length (length xs) xs ys refl,
)

-- Parameters that are printed by serilize, in at most 10000 bytes, are read back by deserilize from the C string that
-- serilize returns, into any object; the keys are sorted, as those of a std::map are, and hold no '=' and no space in front,
-- the values no space, both no end mark.
pub deserilize-serilize :
    (p q : TextParm)
    → IsSorted p.entries
    → AllClean p.entries
    → length (print_entries p.entries) ≤ buffer_size
    → deserilize q ((serilize p).0) (length (print_entries p.entries)) ≡ some ((serilize p).1)
unfolding deserilize serilize
deserilize-serilize p q sorted clean small =
    let text = print_entries p.entries in
    let enough = length_entries p.entries in
    rw (
      ltb_of_le buffer_size (length text) small,
      copy_front text (0 ∷ []),
      read_printed (length text) [] p.entries clean sorted (Before-nothing p.entries) small enough,
      strlen_all text [] (print_entries-Lacks p.entries clean),
      take-append_length (length text) text (0 ∷ []) refl,
    )
