-- ===== src/Cluster/Assemble/Exact.antt =====
-- lconcat on any array of a size and strings.
use testcluster.Prelude.{
  ℕ, ◌+◌, ◌^◌, ◌≤◌, ◌<◌, ◌≡◌, ◌∙◌, some, none, List, [], ◌∷◌, ◌++◌, inl, inr, length, length-append,
  ltb, leb, ◌==◌, if◌then◌else◌, arith, Bool-cases, le_of_ltb,
}
use mathlib.Core.List.{append_assoc, append-nil}
use native.Mathlib.Nat.{zero-add}
use testcluster.Prelude.Int.{pos, small_int}
use testcluster.Cluster.Wire.{Bytes}
use testcluster.Cluster.Lua.{light_userdata, LuaApi, ok, Heap, to_integer_or_zero_integer}
use testcluster.Cluster.Unpack.{word}
use testcluster.Cluster.Unpack.Bodies.{with_block}
use testcluster.Cluster.Request.Parts.{join}
use testcluster.Cluster.Assemble.{lconcat, concat_loop, finish_concat}
use testcluster.Cluster.Assemble.Calls.{strings}

concat_loop_exact :
    (parts : List Bytes) (sz : ℕ) (out : Bytes)
    → length out ≤ sz
    → concat_loop (strings parts) sz out
      ≡ (if leb (length out + length (join parts)) sz then some (out ++ join parts) else none)
unfolding concat_loop join
concat_loop_exact [] sz out le = rw append-nil (ground arith)
concat_loop_exact (part ∷ parts) sz out le = elim (Bool-cases (ltb sz (length part + length out))) [
  | inl full ↦ rw full (ground (arith, length-append part (join parts)))
  | inr fits ↦
      let room = le_of_ltb sz (length part + length out) fits in
      let ih = concat_loop_exact parts sz (out ++ part) (omega (arith, length-append out part)) in
      let same : length (out ++ part) + length (join parts)
          ≡ length out + length (part ++ join parts) =
        omega (arith, length-append out part, length-append part (join parts)) in
      rw fits (ih ∙ rw (append_assoc out part (join parts)) (rw same))
]

finish_exact :
    (sz : ℕ) (out : Bytes) (h : Heap)
    → finish_concat sz (if leb (length out) sz then some out else none) h ≡ (
        if length out == sz
        then (ok (light_userdata h.next ∷ word sz ∷ []), with_block h out)
        else (ok [], record h { next = h.next + 1 }))
unfolding finish_concat
finish_exact sz out h = ground arith

-- lconcat of a size below 2^31 and strings: if the total length of the strings is the size, a new
-- block holds the strings joined; if it is less or more, nothing is returned, and the buffer that
-- was allocated is freed.
pub lconcat_exact :
    (lua : LuaApi) (sz : ℕ) (parts : List Bytes) (h : Heap)
    → sz < 2 ^ 31
    → lconcat lua (some (word sz ∷ strings parts)) h ≡ (
        if length (join parts) == sz
        then (ok (light_userdata h.next ∷ word sz ∷ []), with_block h (join parts))
        else (ok [], record h { next = h.next + 1 }))
unfolding lconcat
lconcat_exact lua sz parts h lt = rw (to_integer_or_zero_integer lua (pos sz)) (
    rw (small_int sz lt) (
      rw (concat_loop_exact parts sz [] (omega arith))
        (rw zero-add (finish_exact sz (join parts) h))))
