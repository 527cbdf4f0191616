-- ===== src/Text/Parm.antt =====
-- TextParm of cpp/common/Pack.h and Pack.cpp: parameters as text, "key=value key=value ".
pub mod Trip
pub mod Bounds
pub mod Numbers
use testcluster.Prelude.{
  ℕ, zero, suc, ◌+◌, ◌%◌, ◌^◌, Bool, true, false, Option, none, some, List, [], ◌∷◌, ◌++◌, length,
  take, ltb, ◌==◌, if◌then◌else◌,
}
use testcluster.Pack.Order.{Bytes}
use testcluster.Pack.Decode.{Access, ◌>>=◌, copy, strlen}
use testcluster.Text.Number.{print_u32, print_i32, atoi, atoll, strtoul}
use testcluster.Text.Sorted.{Entries, put, get_entry, erase_entry}

-- m_data, by key, and m_stream.
pub record TextParm : Type 0 where
  pub entries : Entries
  pub stream : Bytes

abbrev pub new_text_parm : TextParm
new_text_parm = record { entries = []; stream = [] }

-- The size of `key` and `value`, which is also the largest length that is accepted.
abbrev pub buffer_size : ℕ
buffer_size = 10000

-- The bytes before the end mark: what a std::string takes of a char array.
unfoldable pub c_string : Bytes → Bytes
c_string [] = []
c_string (c ∷ rest) = let more = c_string rest in if c == 0 then [] else (c ∷ more)

-- An inner loop: the text up to `stop` is copied to a buffer with `room` bytes left, and an end mark is put behind. What
-- was copied, and what is behind the stop; none is a write behind the buffer.
unfoldable pub fill : ℕ → ℕ → Bytes → Access (Bytes × Bytes)
fill zero stop text = none
fill (suc room) stop [] = some ([], [])
fill (suc room) stop (c ∷ rest) =
    let more = fill room stop rest in
    if c == stop then some ([], rest) else (do (word, left) ← more; some (c ∷ word, left))

-- A key up to '=' and a value up to a space.
unfoldable pub read_pair : Bytes → Entries → Access (Bytes × Entries)
unfolding fill
read_pair text entries = do
  (key, behind) ← fill buffer_size b'=' text
  (value, left) ← fill buffer_size 32 behind
  some (left, put (c_string key) (c_string value) entries)

-- One round of the loop, on the text left: a space is skipped, or an entry is read.
unfoldable pub read_entry : ℕ → Bytes → Entries → Access (Bytes × Entries)
unfolding read_pair
read_entry c rest entries = if c == 32 then some (rest, entries) else read_pair (c ∷ rest) entries

-- The loop; the fuel is the length of the text.
unfoldable pub read_entries : ℕ → Bytes → Entries → Access Entries
read_entries fuel [] entries = some entries
read_entries zero (c ∷ rest) entries = none
read_entries (suc fuel) (c ∷ rest) entries = do
  (left, more) ← read_entry c rest entries
  read_entries fuel left more

unfoldable pub deserilize : TextParm → Bytes → ℕ → Access TextParm
unfolding strlen
deserilize p memory len = if ltb buffer_size len then some p else do
  text ← copy len memory
  entries ← read_entries (length text) text []
  n ← strlen memory
  some (record { entries = entries; stream = take n memory })

-- TextParm::TextParm(const char*), of a pointer that is not NULL.
unfoldable pub text_parm : Bytes → Access TextParm
text_parm memory = do n ← strlen memory; deserilize new_text_parm memory n

unfoldable pub print_entries : Entries → Bytes
print_entries [] = []
print_entries ((key, value) ∷ rest) = key ++ b'=' ∷ (value ++ 32 ∷ print_entries rest)

-- The memory of the C string that is returned, and the object.
unfoldable pub serilize : TextParm → Bytes × TextParm
unfolding print_entries
serilize p = let text = print_entries p.entries in (text ++ 0 ∷ [], record p { stream = text })

unfoldable pub serilize_size : TextParm → ℕ
serilize_size p = length p.stream

unfoldable pub erase : TextParm → Bytes → TextParm
erase p key = record p { entries = erase_entry key p.entries }

unfoldable pub insert : TextParm → Bytes → Bytes → TextParm
insert p key value = record p { entries = put key value p.entries }

-- The size of the array that insert_int and insert_uint print to.
abbrev pub number_size : ℕ
number_size = 10

-- sprintf to it: the text and its end mark, or a write behind the array.
unfoldable pub print_to : Bytes → Access Bytes
print_to text = if ltb (length text) number_size then some text else none

unfoldable pub insert_int : TextParm → Bytes → ℕ → Access TextParm
unfolding insert print_to print_i32
insert_int p key value = do v ← print_to (print_i32 value); some (insert p key v)

unfoldable pub insert_uint : TextParm → Bytes → ℕ → Access TextParm
unfolding insert print_to print_u32
insert_uint p key value = do v ← print_to (print_u32 value); some (insert p key v)

-- A missing key is an empty string.
unfoldable pub get_string : TextParm → Bytes → Bytes
get_string p key = elim (get_entry key p.entries) [ none ↦ [] | some value ↦ value ]

-- What a reader of get(key) sees.
unfoldable pub get : TextParm → Bytes → Bytes
unfolding get_string c_string
get p key = c_string (get_string p key)

unfoldable pub get_int : TextParm → Bytes → ℕ
unfolding get
get_int p key = atoi (get p key)

unfoldable pub get_int64 : TextParm → Bytes → ℕ
unfolding get
get_int64 p key = atoll (get p key)

unfoldable pub get_uint : TextParm → Bytes → ℕ
unfolding get
get_uint p key = strtoul (get p key) % 2 ^ 32

unfoldable pub has : TextParm → Bytes → Bool
has p key = elim (get_entry key p.entries) [ none ↦ false | some value ↦ true ]
