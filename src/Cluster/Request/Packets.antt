-- ===== src/Cluster/Request/Packets.antt =====
-- The packets that packrequest writes, in the layout of the comment above packreq_number in
-- cpp/beecluster/lua-beecluster.c, and that the code writes them.
use testcluster.Prelude.{
  ℕ, ◌+◌, ◌/◌, ◌%◌, ◌≤◌, ◌<◌, ◌≡◌, refl, Bool, some, [], ◌∷◌, ◌++◌, length, length-append, drop,
  if◌then◌else◌, arith, lt→ltb, ltb_of_le,
}
use testcluster.Prelude.Int.{to_u32}
use testcluster.Cluster.Wire.{Bytes, multi_part, temp_length, fill_uint32, fill_header, header_size}
use testcluster.Cluster.Lua.{Value, LuaApi, ok, Heap, header, push_buf, to_integer_or_zero}
use testcluster.Cluster.Memory.{read_block_whole}
use testcluster.Cluster.Request.{packreq_number, packreq_string, part_count}

-- The first WORD is the size of what follows, big-endian.
unfoldable pub framed : Bytes → Bytes
framed body = (length body / 256) ∷ (length body % 256) ∷ body

-- BYTE 0, DWORD addr, DWORD session, the message.
unfoldable pub number_body : ℕ → ℕ → Bytes → Bytes
unfolding fill_uint32
number_body addr session content = 0 ∷ (fill_uint32 addr ++ (fill_uint32 session ++ content))

-- BYTE 0x80, BYTE namelen, the name, DWORD session, the message.
unfoldable pub string_body : Bytes → ℕ → Bytes → Bytes
unfolding fill_uint32
string_body name session content = 0x80 ∷ length name ∷ (name ++ (fill_uint32 session ++ content))

-- BYTE 1 or 0x41, DWORD addr, DWORD session, DWORD size.
unfoldable pub multi_number_body : Bool → ℕ → ℕ → ℕ → Bytes
unfolding fill_uint32
multi_number_body is_push addr session sz =
    (if is_push then 0x41 else 1) ∷ (fill_uint32 addr ++ (fill_uint32 session ++ fill_uint32 sz))

-- BYTE 0x81 or 0xc1, BYTE namelen, the name, DWORD session, DWORD size.
unfoldable pub multi_string_body : Bool → Bytes → ℕ → ℕ → Bytes
unfolding fill_uint32
multi_string_body is_push name session sz =
    (if is_push then 0xc1 else 0x81)
    ∷ length name
    ∷ (name ++ (fill_uint32 session ++ fill_uint32 sz))

-- BYTE 2, or 3 for the last part, DWORD session, the part.
unfoldable pub part_body : Bool → ℕ → Bytes → Bytes
unfolding fill_uint32
part_body more session content = (if more then 2 else 3) ∷ (fill_uint32 session ++ content)

-- The header of a frame tells the size of its body.
pub header_size-framed : (body : Bytes) → header_size (framed body) ≡ some (length body)
unfolding header_size framed
header_size-framed body = ground arith

pub drop-framed : (body : Bytes) → drop 2 (framed body) ≡ body
unfolding drop framed
drop-framed body = refl

pub length-framed : (body : Bytes) → length (framed body) ≡ length body + 2
unfolding framed
length-framed body = omega arith

pub header_eq :
    (sz : ℕ) (h : Heap) → sz < 0x10000 → header sz h ≡ (ok ((sz / 256) ∷ (sz % 256) ∷ []), h)
unfolding header fill_header
header_eq sz h lt = ground arith

pub push_buf_eq :
    (packet : Bytes) (h : Heap) → length packet ≤ temp_length → push_buf packet h ≡ (ok packet, h)
unfolding push_buf
push_buf_eq packet h le = ground arith

-- A header and a body of its size make a frame, which fits into the buffer.
pub push_framed :
    (sz : ℕ) (body : Bytes) (h : Heap)
    → length body ≡ sz
    → sz + 2 ≤ temp_length
    → push_buf ((sz / 256) ∷ (sz % 256) ∷ body) h ≡ (ok (framed body), h)
unfolding framed
push_framed sz body h e le =
    rw (← e) (push_buf_eq ((length body / 256) ∷ (length body % 256) ∷ body) h (omega arith))

-- The byte `namelen` holds the length of a name of at most 255 bytes.
name_byte : (name : Bytes) → length name ≤ 255 → length name % 256 ≡ length name
name_byte name le = omega arith

module _ (lua : LuaApi) (value : Value) (session msg : ℕ) (is_push : Bool) (h : Heap) where
  abbrev address : ℕ
  address = to_u32 (to_integer_or_zero lua value)

  abbrev sent_session : ℕ
  sent_session = if is_push then 0 else session

  pub packreq_number_single :
      (content : Bytes)
      → h.block msg ≡ some content
      → length content < multi_part
      → packreq_number lua value session msg (length content) is_push h
        ≡ (ok (framed (number_body address sent_session content), 0), h)
  unfolding packreq_number number_body
  packreq_number_single content e lt =
      let body : Bytes = number_body address sent_session content in
      rw (lt→ltb _ _ lt) (
        rw (header_eq (length content + 9) h (omega arith)) (
          rw (read_block_whole msg content h e)
            (rw (push_framed (length content + 9) body h (omega arith) (omega arith)))))

  pub packreq_number_multi :
      (sz : ℕ)
      → multi_part ≤ sz
      → packreq_number lua value session msg sz is_push h
        ≡ (ok (framed (multi_number_body is_push address session sz), part_count sz), h)
  unfolding packreq_number multi_number_body
  packreq_number_multi sz le =
      let body : Bytes = multi_number_body is_push address session sz in
      rw (ltb_of_le _ _ le)
        (rw (header_eq 13 h (omega arith)) (rw (push_framed 13 body h (omega arith) (omega arith))))

  pub packreq_string_single :
      (name content : Bytes)
      → lua.to_lstring value ≡ some name
      → 1 ≤ length name
      → length name ≤ 255
      → h.block msg ≡ some content
      → length content < multi_part
      → packreq_string lua value session msg (length content) is_push h
        ≡ (ok (framed (string_body name sent_session content), 0), h)
  unfolding packreq_string string_body
  packreq_string_single name content n lo hi e lt =
      let body : Bytes = string_body name sent_session content in
      rw (n, packreq_string)
        (rw (ltb_of_le (length name) 1 lo, ltb_of_le 255 (length name) hi, lt→ltb _ _ lt)
          (rw (header_eq (length content + 6 + length name) h (omega arith)) (
            rw (read_block_whole msg content h e) (
              rw (name_byte name hi) (
                rw (
                  push_framed (length content + 6 + length name) body h
                    (omega (arith, length-append name _)) (omega arith)))))))

  pub packreq_string_multi :
      (name : Bytes) (sz : ℕ)
      → lua.to_lstring value ≡ some name
      → 1 ≤ length name
      → length name ≤ 255
      → multi_part ≤ sz
      → packreq_string lua value session msg sz is_push h
        ≡ (ok (framed (multi_string_body is_push name session sz), part_count sz), h)
  unfolding packreq_string multi_string_body
  packreq_string_multi name sz n lo hi le =
      let body : Bytes = multi_string_body is_push name session sz in
      rw (n, packreq_string)
        (rw (ltb_of_le (length name) 1 lo, ltb_of_le 255 (length name) hi, ltb_of_le _ _ le)
          (rw (header_eq (10 + length name) h (omega arith)) (
            rw (name_byte name hi) (
              rw (
                push_framed (10 + length name) body h (omega (arith, length-append name _))
                  (omega arith))))))
