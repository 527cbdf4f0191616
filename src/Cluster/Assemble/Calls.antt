-- ===== src/Cluster/Assemble/Calls.antt =====
-- lappend and lconcat on what a receiver hands them.
use testcluster.Prelude.{
  ℕ, ◌+◌, ◌^◌, ◌≤◌, ◌<◌, ◌≡◌, ◌≢◌, refl, ap, some, List, [], ◌∷◌, ◌++◌, length, length-append,
  arith, ltb_of_le, ==_of_ne, ==_refl,
}
use mathlib.Core.Path.{subst}
use mathlib.Core.List.{append_assoc, append-nil}
use testcluster.Prelude.Int.{small_int, pos}
use testcluster.Cluster.Wire.{Bytes}
use testcluster.Cluster.Lua.{
  Value, nil, light_userdata, string, LuaApi, ok, Heap, check_integer_eq,
  to_integer_or_zero_integer,
}
use testcluster.Cluster.Memory.{read_block_whole}
use testcluster.Cluster.Unpack.{word}
use testcluster.Cluster.Unpack.Bodies.{with_block}
use testcluster.Cluster.Request.Whole.{freed, skynet_free_eq}
use testcluster.Cluster.Request.Parts.{join}
use testcluster.Cluster.Assemble.{lappend, lconcat, concat_loop}

-- A buffer is copied behind the array, and its block is freed.
pub lappend_buffer :
    (lua : LuaApi) (t : List Value) (first : Value) (p : ℕ) (content : Bytes) (h : Heap)
    → p ≢ 0
    → h.block p ≡ some content
    → length content < 2 ^ 31
    → lappend lua (some t) (first ∷ light_userdata p ∷ word (length content) ∷ []) h
      ≡ (ok (t ++ string content ∷ []), freed h p)
unfolding lappend
lappend_buffer lua t first p content h ne e lt =
    let args : List Value = first ∷ light_userdata p ∷ word (length content) ∷ [] in
    rw (==_of_ne p 0 ne) (
      rw (check_integer_eq lua args 3 h (pos (length content)) refl) (
        rw (small_int (length content) lt)
          (rw (read_block_whole p content h e) (rw (skynet_free_eq h p content e)))))

-- A nil buffer stores the size of the message to come.
pub lappend_size :
    (lua : LuaApi) (first : Value) (size : ℕ) (h : Heap)
    → lappend lua (some []) (first ∷ nil ∷ word size ∷ []) h ≡ (ok (word size ∷ []), h)
unfolding lappend
lappend_size lua first size h = refl

abbrev pub strings : List Bytes → List Value
strings [] = []
strings (part ∷ parts) = string part ∷ strings parts

pub strings-append :
    (parts more : List Bytes) → strings (parts ++ more) ≡ strings parts ++ strings more
strings-append [] more = refl
strings-append (part ∷ parts) more = ap (λ r. string part ∷ r) (strings-append parts more)

concat_loop_eq :
    (parts : List Bytes) (sz : ℕ) (out : Bytes)
    → length out + length (join parts) ≤ sz
    → concat_loop (strings parts) sz out ≡ some (out ++ join parts)
unfolding concat_loop join
concat_loop_eq [] sz out le = rw append-nil
concat_loop_eq (part ∷ parts) sz out le =
    let fits : length out + length part + length (join parts) ≤ sz =
      omega (arith, length-append part (join parts)) in
    rw (ltb_of_le sz (length part + length out) (omega arith)) (
      rw (concat_loop_eq parts sz (out ++ part) (omega (arith, length-append out part)))
        (ap some (append_assoc out part (join parts))))

lconcat-join :
    (lua : LuaApi) (parts : List Bytes) (h : Heap)
    → length (join parts) < 2 ^ 31
    → lconcat lua (some (word (length (join parts)) ∷ strings parts)) h
      ≡ (ok (light_userdata h.next ∷ word (length (join parts)) ∷ []), with_block h (join parts))
unfolding lconcat
lconcat-join lua parts h lt =
    let size = length (join parts) in
    rw (to_integer_or_zero_integer lua (pos size))
      (rw (small_int size lt) (rw (concat_loop_eq parts size [] (omega arith)) (rw (==_refl size))))

-- Strings whose total length is the size at the front are joined in a new block.
pub lconcat_whole :
    (lua : LuaApi) (parts : List Bytes) (content : Bytes) (h : Heap)
    → join parts ≡ content
    → length content < 2 ^ 31
    → lconcat lua (some (word (length content) ∷ strings parts)) h
      ≡ (ok (light_userdata h.next ∷ word (length content) ∷ []), with_block h content)
lconcat_whole lua parts content h joins lt =
    subst
      (λ (c : Bytes).
        length c < 2 ^ 31
        → lconcat lua (some (word (length c) ∷ strings parts)) h
          ≡ (ok (light_userdata h.next ∷ word (length c) ∷ []), with_block h c))
      joins (lconcat-join lua parts h) lt
