-- ===== src/Cluster/Lua.antt =====
-- What the C functions of cpp/beecluster/lua-beecluster.c see of Lua and of the memory: the
-- arguments on the stack, results, errors, and the blocks of skynet_malloc and skynet_free.
use testcluster.Prelude.{
  ℕ, zero, suc, ◌+◌, ◌≡◌, Bool, Option, none, some, List, get_elem?, length, leb, ◌==◌,
  if◌then◌else◌,
}
use testcluster.Prelude.Int.{ℤ, pos}
use testcluster.Cluster.Wire.{Bytes, temp_length, fill_header}

-- A float is kept by its bit pattern; `table` is a fresh array of strings; `other` is any further
-- type. A pointer is a number, and NULL is 0.
pub data Value : Type 0 where
  nil : Value
  boolean : Bool → Value
  light_userdata : ℕ → Value
  integer : ℤ → Value
  float : ℕ → Value
  string : Bytes → Value
  table : List Bytes → Value
  other : ℕ → Value

-- The conversions of the Lua C API: lua_tointegerx and lua_tolstring.
pub record LuaApi : Type 0 where
  pub to_integer : Value → Option ℤ
  pub to_lstring : Value → Option Bytes
  pub to_integer_integer : (z : ℤ) → to_integer (integer z) ≡ some z
  pub to_lstring_string : (s : Bytes) → to_lstring (string s) ≡ some s
  pub to_lstring_nil : to_lstring nil ≡ none

pub data Error : Type 0 where
  bad_argument : ℕ → Error
  invalid_request_message : Error
  invalid_request_session : ℤ → Error
  name_not_a_string : Error
  name_too_long : Bytes → Error
  trace_tag_too_long : ℕ → Error
  invalid_message_size : ℤ → Error
  multi_request_must_be_13 : ℤ → Error
  invalid_multi_part : Error
  empty_package : Error
  invalid_package_type : ℕ → Error
  need_lightuserdata : Error

-- `raised` is a Lua error (luaL_error). `fault` is a crash or undefined behaviour: a failed
-- assertion, an access outside a buffer, a second free.
pub data Outcome {ℓ} (A : Type ℓ) : Type ℓ where
  ok : A → Outcome A
  raised : Error → Outcome A
  fault : Outcome A

-- The blocks that are allocated, by address. The allocator answers `next`, an address that was
-- never given out.
pub record Heap : Type 0 where
  pub block : ℕ → Option Bytes
  pub next : ℕ

abbrev pub M {ℓ} : Type ℓ → Type ℓ
M A = Heap → Outcome A × Heap

abbrev pub pure {ℓ} : {A : Type ℓ} → A → M A
pure a h = (ok a, h)

abbrev pub raise {ℓ} : {A : Type ℓ} → Error → M A
raise e h = (raised e, h)

abbrev pub crash {ℓ} : {A : Type ℓ} → M A
crash h = (fault, h)

abbrev pub continue {ℓ κ} :
    {A : Type ℓ} {B : Type κ} → Outcome A × Heap → (A → M B) → Outcome B × Heap
continue (ok a, h) f = f a h
continue (raised e, h) f = (raised e, h)
continue (fault, h) f = (fault, h)

infixl 5 ◌>>=◌ ◌>>◌
abbrev pub ◌>>=◌ {ℓ κ} : {A : Type ℓ} {B : Type κ} → M A → (A → M B) → M B
◌>>=◌ m f h = continue (m h) f

abbrev pub ◌>>◌ {ℓ} : {B : Type ℓ} → M (Unit {0}) → M B → M B
m >> k = m >>= λ _. k

-- The argument at a 1-based stack index; what is missing reads as nil.
abbrev pub arg : List Value → ℕ → Value
arg args zero = nil
arg args (suc i) = elim (get_elem? args i) [ none ↦ nil | some v ↦ v ]

-- lua_touserdata: NULL if the value is no userdata.
unfoldable pub to_userdata : Value → ℕ
to_userdata (light_userdata p) = p
to_userdata _ = 0

-- luaL_checkinteger, and lua_tointeger, which answers 0 where the value has no integer.
unfoldable pub check_integer : LuaApi → List Value → ℕ → M ℤ
check_integer lua args i = elim (lua.to_integer (arg args i)) [
  | none ↦ raise (bad_argument i)
  | some z ↦ pure z
]

unfoldable pub to_integer_or_zero : LuaApi → Value → ℤ
to_integer_or_zero lua v = elim (lua.to_integer v) [ none ↦ pos 0 | some z ↦ z ]

-- luaL_checklstring.
unfoldable pub check_lstring : LuaApi → List Value → ℕ → M Bytes
check_lstring lua args i = elim (lua.to_lstring (arg args i)) [
  | none ↦ raise (bad_argument i)
  | some s ↦ pure s
]

-- The header, or the crash of its assertion.
unfoldable pub header : ℕ → M Bytes
header sz = elim (fill_header sz) [ none ↦ crash | some b ↦ pure b ]

-- lua_pushlstring of what was written to a `uint8_t buf[TEMP_LENGTH]`; a longer packet has been
-- written outside the array.
unfoldable pub push_buf : Bytes → M Bytes
push_buf packet = if leb (length packet) temp_length then pure packet else crash

-- An update of the blocks at one address.
abbrev pub update : (ℕ → Option Bytes) → ℕ → Option Bytes → ℕ → Option Bytes
update f p b q = if p == q then b else f q

-- skynet_free.
unfoldable pub skynet_free : ℕ → M (Unit {0})
skynet_free p h = elim (h.block p) [
  | none ↦ (fault, h)
  | some b ↦ (ok tt, record h { block = update h.block p none })
]

-- skynet_malloc of a block that is filled with `content` by memcpy.
unfoldable pub new_block : Bytes → M ℕ
new_block content h =
    (ok h.next, record { block = update h.block h.next (some content); next = h.next + 1 })

-- An argument that is an integer or a string is taken as it is.
module _ (lua : LuaApi) (args : List Value) (i : ℕ) (h : Heap) where
  pub check_integer_eq : (z : ℤ) → arg args i ≡ integer z → check_integer lua args i h ≡ (ok z, h)
  unfolding check_integer
  check_integer_eq z e = rw (e, check_integer) (rw (lua.to_integer_integer z, check_integer))

  pub check_lstring_eq :
      (s : Bytes) → arg args i ≡ string s → check_lstring lua args i h ≡ (ok s, h)
  unfolding check_lstring
  check_lstring_eq s e = rw (e, check_lstring) (rw (lua.to_lstring_string s, check_lstring))

pub to_integer_or_zero_integer : (lua : LuaApi) (z : ℤ) → to_integer_or_zero lua (integer z) ≡ z
unfolding to_integer_or_zero
to_integer_or_zero_integer lua z = rw (lua.to_integer_integer z, to_integer_or_zero)
