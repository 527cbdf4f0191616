-- ===== src/Cluster/Response/Trip.antt =====
-- A response, from the call of lpackresponse to what the requesting node reads and joins.
use testcluster.Prelude.{
  ℕ, zero, suc, ◌%◌, ◌^◌, ◌≤◌, ◌<◌, ◌≡◌, refl, ap, Bool, true, some, List, [], ◌∷◌, length, take,
  drop, ltb, if◌then◌else◌, arith,
}
use testcluster.Prelude.Int.{pos, to_u64}
use testcluster.Cluster.Wire.{Bytes, multi_part}
use testcluster.Cluster.Lua.{
  Value, boolean, light_userdata, string, LuaApi, ok, Heap, M, ◌>>=◌, pure, arg, check_integer_eq,
}
use testcluster.Cluster.Memory.{read_block}
use testcluster.Cluster.Unpack.{word}
use testcluster.Cluster.Request.{part_count}
use testcluster.Cluster.Request.Parts.{chunks}
use testcluster.Cluster.Assemble.Calls.{strings}
use testcluster.Cluster.Response.{lunpackresponse, message_size, read_message, response_parts}
use testcluster.Cluster.Response.Packets.{response_frames, unpack_part}

-- The message of a call, as its last arguments give it: a string, or a pointer and a size.
pub data Message (h : Heap) (content : Bytes) : List Value → Type 0 where
  text : Message h content (string content ∷ [])
  pointer :
      (p : ℕ)
      → h.block p ≡ some content
      → length content < 2 ^ 64
      → Message h content (light_userdata p ∷ word (length content) ∷ [])

abbrev pub response_args : ℕ → Bool → List Value → List Value
response_args session is_ok rest = word session ∷ boolean is_ok ∷ rest

module _ (lua : LuaApi) (session : ℕ) (is_ok : Bool) {h : Heap} {content : Bytes} where
  pub size_known :
      {rest : List Value}
      → Message h content rest
      → message_size lua
          (response_args session is_ok rest)
          (arg (response_args session is_ok rest) 3)
          h
        ≡ (ok (length content), h)
  unfolding message_size to_u64
  size_known text = refl
  size_known (pointer p e lt) =
      let args : List Value =
        response_args session is_ok (light_userdata p ∷ word (length content) ∷ []) in
      let same : length content % 2 ^ 64 ≡ length content = omega arith in
      rw (check_integer_eq lua args 4 h (pos (length content)) refl) (rw same)

  pub read_known :
      {rest : List Value} (n : ℕ)
      → Message h content rest
      → n ≤ length content
      → read_message (arg (response_args session is_ok rest) 3) n h ≡ (ok (take n content), h)
  unfolding read_message read_block
  read_known n text le = refl
  read_known n (pointer p e lt) le = ground arith

-- unpackresponse on each packet of a list.
unfoldable pub unpack_all : LuaApi → List Bytes → M (List (List Value))
unpack_all lua [] = pure []
unpack_all lua (packet ∷ packets) = lunpackresponse lua (string (drop 2 packet) ∷ []) >>= λ vs.
    unpack_all lua packets >>= λ rest. pure (vs ∷ rest)

-- The values of the parts: the padding flag is missing from the last.
unfoldable pub part_values : ℕ → ℕ → Bytes → List (List Value)
part_values zero session content = []
part_values (suc n) session content =
    (word session
      ∷ boolean true
      ∷ string (take multi_part content)
      ∷ (if ltb multi_part (length content) then boolean true ∷ [] else []))
    ∷ part_values n session (drop multi_part content)

-- The data of the packets, which the socket channel gathers for cluster.concat.
unfoldable pub gathered_data : List (List Value) → List Value
gathered_data [] = []
gathered_data (vs ∷ rest) = arg vs 3 ∷ gathered_data rest

pub data_of_parts :
    (n session : ℕ) (content : Bytes)
    → gathered_data (part_values n session content) ≡ strings (chunks n content)
unfolding gathered_data part_values chunks
data_of_parts zero session content = refl
data_of_parts (suc n) session content =
    ap (λ r. string (take multi_part content) ∷ r)
      (data_of_parts n session (drop multi_part content))

pub unpack_parts :
    (lua : LuaApi) (n session : ℕ) (content : Bytes) (h : Heap)
    → session < 2 ^ 32
    → unpack_all lua (response_frames n session content) h ≡ (ok (part_values n session content), h)
unfolding unpack_all response_frames part_values
unpack_parts lua zero session content h lt = refl
unpack_parts lua (suc n) session content h lt =
    rw (unpack_part lua session lt h (ltb multi_part (length content)) (take multi_part content))
      (rw (unpack_parts lua n session (drop multi_part content) h lt))

-- The length of an `int` count of parts for a message that fits its 32-bit size.
pub parts_fit : (sz : ℕ) → sz < 2 ^ 32 → response_parts sz ≡ part_count sz
unfolding response_parts part_count
parts_fit sz lt = ground arith
