-- ===== src/Cluster/Request/Trace.antt =====
-- lpacktrace, and what lunpackrequest makes of its packet.
use testcluster.Prelude.{◌+◌, ◌≤◌, ◌<◌, ◌≡◌, refl, [], ◌∷◌, length, drop, arith, lt→ltb, ltb_of_le}
use testcluster.Cluster.Wire.{Bytes}
use testcluster.Cluster.Lua.{string, LuaApi, trace_tag_too_long, ok, raised, Heap, check_lstring_eq}
use testcluster.Cluster.Unpack.{lunpackrequest, unpack_request, unpacktrace}
use testcluster.Cluster.Unpack.Bodies.{lunpackrequest-framed}
use testcluster.Cluster.Request.{lpacktrace}
use testcluster.Cluster.Request.Packets.{framed, header_eq, push_framed}

-- A tag of at most 0x8000 bytes is packed and unpacked to itself.
pub record Traced (lua : LuaApi) (tag : Bytes) (h there : Heap) : Type 0 where
  pub packet : Bytes
  pub packed : lpacktrace lua (string tag ∷ []) h ≡ (ok (string packet ∷ []), h)
  pub unpacked :
      lunpackrequest lua (string (drop 2 packet) ∷ []) there ≡ (ok (string tag ∷ []), there)

-- A trace tag of at most 0x8000 bytes makes a packet that unpacks to the tag alone.
pub trace_trip :
    (lua : LuaApi) (tag : Bytes) (h there : Heap) → length tag ≤ 0x8000 → Traced lua tag h there
unfolding lpacktrace unpack_request unpacktrace drop
trace_trip lua tag h there le = record {
  packet = framed (4 ∷ tag);
  packed = rw (check_lstring_eq lua (string tag ∷ []) 1 h tag refl) (
      rw (ltb_of_le 0x8000 (length tag) le) (
        rw (header_eq (length tag + 1) h (omega arith))
          (rw (push_framed (length tag + 1) (4 ∷ tag) h (omega arith) (omega arith)))));
  unpacked = rw (lunpackrequest-framed lua (4 ∷ tag) there (omega arith));
}

-- A longer tag is refused.
pub trace_too_long :
    (lua : LuaApi) (tag : Bytes) (h : Heap)
    → 0x8000 < length tag
    → lpacktrace lua (string tag ∷ []) h ≡ (raised (trace_tag_too_long (length tag)), h)
unfolding lpacktrace
trace_too_long lua tag h lt =
    rw (check_lstring_eq lua (string tag ∷ []) 1 h tag refl) (rw (lt→ltb 0x8000 (length tag) lt))
