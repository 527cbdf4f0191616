-- ===== src/Cluster/Unpack/Safety.antt =====
-- The unpacking functions on any bytes: they never read outside the packet.
use testcluster.Prelude.{
  ℕ, ◌+◌, ◌^◌, ◌≤◌, ◌<◌, ◌≡◌, ◌≢◌, refl, Bool, true, false, some, List, [], ◌∷◌, length,
  length-drop, drop, ltb, ◌==◌, if◌then◌else◌, arith, Bool-cases, le_of_ltb, inl, inr,
}
use testcluster.Cluster.Wire.{Bytes, unpack_uint32}
use testcluster.Prelude.Int.{pos, small_int}
use testcluster.Cluster.Memory.{read_block_whole}
use testcluster.Cluster.Lua.{
  Value, string, light_userdata, LuaApi, Error, ok, fault, Heap, M, raise, check_integer_eq,
}
use testcluster.Cluster.Unpack.{
  word, lunpackrequest, lunpackrequest_string, unpack_request, unpack_by_type, unpackreq_number,
  unpackmreq_number, unpackmreq_part, unpacktrace, unpackreq_string, unpackmreq_string, word_at,
  return_buffer, name_size,
}

-- The action returns or raises: it is no crash.
abbrev pub IsSafe {ℓ} : {A : Type ℓ} → M A → Type ℓ
IsSafe m = (h : Heap) → (m h).0 ≢ fault

word_of_four : (buf : Bytes) → 4 ≤ length buf → (w : ℕ) × (unpack_uint32 buf ≡ some w)
unfolding unpack_uint32
word_of_four [] le = absurd (omega arith)
word_of_four (a ∷ []) le = absurd (omega arith)
word_of_four (a ∷ b ∷ []) le = absurd (omega arith)
word_of_four (a ∷ b ∷ c ∷ []) le = absurd (omega arith)
word_of_four (a ∷ b ∷ c ∷ d ∷ rest) le = (_, refl)

-- A word that lies in the packet is read.
pub word_at_inside :
    (buf : Bytes) (i : ℕ)
    → i + 4 ≤ length buf
    → (w : ℕ) × ((h : Heap) → word_at buf i h ≡ (ok w, h))
unfolding word_at
word_at_inside buf i le =
    let (w, e) = word_of_four (drop i buf) (omega (arith, length-drop i buf)) in
    (w, λ h. rw (e, word_at))

unpackreq_number-IsSafe : (buf : Bytes) → IsSafe (unpackreq_number buf)
unfolding unpackreq_number return_buffer
unpackreq_number-IsSafe buf h = elim (Bool-cases (ltb (length buf) 9)) [
  | inl small ↦ rw small (λ e. cc)
  | inr enough ↦
      let size = le_of_ltb (length buf) 9 enough in
      let (a, ea) = word_at_inside buf 1 (omega arith) in
      let (s, es) = word_at_inside buf 5 (omega arith) in
      rw enough (rw (ea h) (rw (es h) (λ e. cc)))
]

unpackmreq_number-IsSafe : (buf : Bytes) (is_push : Bool) → IsSafe (unpackmreq_number buf is_push)
unfolding unpackmreq_number
unpackmreq_number-IsSafe buf is_push h = elim (Bool-cases (length buf == 13)) [
  | inr other ↦ rw other (λ e. cc)
  | inl exact ↦
      let size : length buf ≡ 13 = ground arith in
      let (a, ea) = word_at_inside buf 1 (omega arith) in
      let (s, es) = word_at_inside buf 5 (omega arith) in
      let (n, en) = word_at_inside buf 9 (omega arith) in
      rw exact (rw (ea h) (rw (es h) (rw (en h) (λ e. cc))))
]

unpackmreq_part-IsSafe : (first : ℕ) (buf : Bytes) → IsSafe (unpackmreq_part first buf)
unfolding unpackmreq_part return_buffer
unpackmreq_part-IsSafe first buf h = elim (Bool-cases (ltb (length buf) 5)) [
  | inl small ↦ rw small (λ e. cc)
  | inr enough ↦
      let size = le_of_ltb (length buf) 5 enough in
      let (s, es) = word_at_inside buf 1 (omega arith) in rw enough (rw (es h) (λ e. cc))
]

unpackreq_string-IsSafe : (buf : Bytes) → IsSafe (unpackreq_string buf)
unfolding unpackreq_string return_buffer
unpackreq_string-IsSafe buf h = elim (Bool-cases (ltb (length buf) 2)) [
  | inl small ↦ rw small (λ e. cc)
  | inr some_name ↦ rw some_name (elim (Bool-cases (ltb (length buf) (name_size buf + 6))) [
    | inl small ↦ rw small (λ e. cc)
    | inr enough ↦
        let size = le_of_ltb (length buf) (name_size buf + 6) enough in
        let (s, es) = word_at_inside buf (name_size buf + 2) (omega arith) in
        rw enough (rw (es h) (λ e. cc))
  ])
]

unpackmreq_string-IsSafe : (buf : Bytes) (is_push : Bool) → IsSafe (unpackmreq_string buf is_push)
unfolding unpackmreq_string
unpackmreq_string-IsSafe buf is_push h = elim (Bool-cases (ltb (length buf) 2)) [
  | inl small ↦ rw small (λ e. cc)
  | inr some_name ↦ rw some_name (elim (Bool-cases (ltb (length buf) (name_size buf + 10))) [
    | inl small ↦ rw small (λ e. cc)
    | inr enough ↦
        let size = le_of_ltb (length buf) (name_size buf + 10) enough in
        let (s, es) = word_at_inside buf (name_size buf + 2) (omega arith) in
        let (n, en) = word_at_inside buf (name_size buf + 6) (omega arith) in
        rw enough (rw (es h) (rw (en h) (λ e. cc)))
  ])
]

if-IsSafe : {A : Type 0} (b : Bool) (m k : M A) → IsSafe m → IsSafe k → IsSafe (if b then m else k)
if-IsSafe true m k sm sk = sm
if-IsSafe false m k sm sk = sk

raise-IsSafe : {A : Type 0} (e : Error) → IsSafe (raise {A = A} e)
raise-IsSafe e h same = cc

unpacktrace-IsSafe : (buf : Bytes) → IsSafe (unpacktrace buf)
unfolding unpacktrace
unpacktrace-IsSafe buf h same = cc

ruleset safe_rules = (
  if-IsSafe, raise-IsSafe, unpackreq_number-IsSafe, unpackmreq_number-IsSafe,
  unpackmreq_part-IsSafe, unpacktrace-IsSafe, unpackreq_string-IsSafe, unpackmreq_string-IsSafe,
)

unpack_by_type-IsSafe : (first : ℕ) (buf : Bytes) → IsSafe (unpack_by_type first buf)
unfolding unpack_by_type
unpack_by_type-IsSafe first buf = search safe_rules depth 12

unpack_request-IsSafe : (buf : Bytes) → IsSafe (unpack_request buf)
unfolding unpack_request
unpack_request-IsSafe [] h = λ e. cc
unpack_request-IsSafe (first ∷ rest) h = unpack_by_type-IsSafe first (first ∷ rest) h

-- lunpackrequest of any string of fewer than 2^31 bytes, well formed or not, returns or raises: no branch reads outside the
-- packet.
pub lunpackrequest-IsSafe :
    (lua : LuaApi) (text : Bytes)
    → length text < 2 ^ 31
    → IsSafe (lunpackrequest lua (string text ∷ []))
lunpackrequest-IsSafe lua text lt h =
    rw (lunpackrequest_string lua text h lt) (unpack_request-IsSafe text h)

-- A pointer to a block and the block's size are unpacked as the string of its bytes is.
pub lunpackrequest_pointer :
    (lua : LuaApi) (p : ℕ) (text : Bytes) (h : Heap)
    → h.block p ≡ some text
    → length text < 2 ^ 31
    → lunpackrequest lua (light_userdata p ∷ word (length text) ∷ []) h
      ≡ lunpackrequest lua (string text ∷ []) h
unfolding lunpackrequest
lunpackrequest_pointer lua p text h e lt =
    let args : List Value = light_userdata p ∷ word (length text) ∷ [] in
    rw (lunpackrequest_string lua text h lt) (
      rw (check_integer_eq lua args 2 h (pos (length text)) refl)
        (rw (small_int (length text) lt) (rw (read_block_whole p text h e))))
