-- ===== src/Cluster/Request/Parts.antt =====
-- The parts of a long message: what packreq_multi writes, and that they join to the message.
use testcluster.Prelude.{
  ℕ, zero, suc, ◌+◌, ◌-◌, ◌*◌, ◌≤◌, ◌≡◌, refl, ◌∙◌, List, [], ◌∷◌, ◌++◌, length, length-take,
  length-drop, take, drop, take_all, drop_all, take-append-drop, ltb, if◌then◌else◌, some, arith,
  Bool-cases, le_of_ltb, inl, inr, sym,
}
use testcluster.Cluster.Wire.{Bytes, multi_part}
use testcluster.Cluster.Lua.{ok, Heap}
use testcluster.Cluster.Memory.{read_block_whole}
use testcluster.Cluster.Request.{packreq_multi, packreq_multi_loop, multi_packet, part_count}
use testcluster.Cluster.Request.Packets.{framed, part_body, header_eq, push_framed}

-- The first `n` parts of a message, each of MULTI_PART bytes but the last.
unfoldable pub chunks : ℕ → Bytes → List Bytes
chunks zero content = []
chunks (suc n) content = take multi_part content ∷ chunks n (drop multi_part content)

unfoldable pub part_frames : ℕ → ℕ → Bytes → List Bytes
part_frames zero session content = []
part_frames (suc n) session content =
    framed (part_body (ltb multi_part (length content)) session (take multi_part content))
    ∷ part_frames n session (drop multi_part content)

unfoldable pub join : List Bytes → Bytes
join [] = []
join (part ∷ parts) = part ++ join parts

-- The size of a part, and what it leaves, are the cut at MULTI_PART.
pub take_part :
    (content : Bytes)
    → take (if ltb multi_part (length content) then multi_part else length content) content
      ≡ take multi_part content
take_part content = elim (Bool-cases (ltb multi_part (length content))) [
  | inl more ↦ rw more
  | inr last ↦ rw last (
      take_all (length content) content (omega arith)
      ∙ sym (take_all multi_part content (le_of_ltb _ _ last)))
]

pub drop_part :
    (content : Bytes)
    → drop (if ltb multi_part (length content) then multi_part else length content) content
      ≡ drop multi_part content
drop_part content = elim (Bool-cases (ltb multi_part (length content))) [
  | inl more ↦ rw more
  | inr last ↦ rw last (
      drop_all (length content) content (omega arith)
      ∙ sym (drop_all multi_part content (le_of_ltb _ _ last)))
]

pub rest_size :
    (content : Bytes)
    → length content - (if ltb multi_part (length content) then multi_part else length content)
      ≡ length (drop multi_part content)
rest_size content = rw (length-drop multi_part content) (ground arith)

pub part_size :
    (content : Bytes)
    → (if ltb multi_part (length content) then multi_part else length content)
      ≡ length (take multi_part content)
part_size content = rw (length-take multi_part content) (ground arith)

pub length-take-le : (content : Bytes) → length (take multi_part content) ≤ multi_part
length-take-le content = omega (arith, length-take multi_part content)

multi_packet_eq :
    (session : ℕ) (content : Bytes) (h : Heap)
    → multi_packet session (length content) content h ≡ (
      ok (framed (part_body (ltb multi_part (length content)) session (take multi_part content))),
      h,
    )
unfolding multi_packet part_body
multi_packet_eq session content h =
    let part : Bytes = take multi_part content in
    let body : Bytes = part_body (ltb multi_part (length content)) session part in
    rw (take_part content, part_size content)
      (rw (header_eq (length part + 5) h (omega (arith, length-take-le content))) (
        rw (
          push_framed (length part + 5) body h (omega arith)
            (omega (arith, length-take-le content)))))

pub packreq_multi_loop_eq :
    (n session : ℕ) (content : Bytes) (h : Heap)
    → packreq_multi_loop n session (length content) content h
      ≡ (ok (part_frames n session content), h)
unfolding packreq_multi_loop part_frames
packreq_multi_loop_eq zero session content h = refl
packreq_multi_loop_eq (suc n) session content h = rw (multi_packet_eq session content h) (
    rw (rest_size content, drop_part content)
      (rw (packreq_multi_loop_eq n session (drop multi_part content) h)))

pub packreq_multi_eq :
    (session msg : ℕ) (content : Bytes) (h : Heap)
    → h.block msg ≡ some content
    → packreq_multi session msg (length content) h
      ≡ (ok (part_frames (part_count (length content)) session content), h)
unfolding packreq_multi
packreq_multi_eq session msg content h e =
    rw (read_block_whole msg content h e)
      (packreq_multi_loop_eq (part_count (length content)) session content h)

-- Enough parts join to the message.
pub join-chunks :
    (n : ℕ) (content : Bytes) → length content ≤ n * multi_part → join (chunks n content) ≡ content
unfolding join chunks
join-chunks zero [] le = refl
join-chunks zero (x ∷ content) le = absurd (omega arith)
join-chunks (suc n) content le =
    rw (join-chunks n (drop multi_part content) (omega (arith, length-drop multi_part content)))
      (take-append-drop multi_part content)

-- The number of parts that the code computes is enough.
pub part_count_enough : (sz : ℕ) → sz ≤ part_count sz * multi_part
unfolding part_count
part_count_enough sz = omega arith
