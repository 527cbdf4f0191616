-- ===== src/Cluster/Memory.antt =====
-- Reads of a message behind a pointer.
use testcluster.Prelude.{ℕ, ◌≡◌, none, some, leb, if◌then◌else◌, take, take_all, length, arith}
use testcluster.Cluster.Wire.{Bytes}
use testcluster.Cluster.Lua.{Heap, M, ok, fault}

-- The `sz` bytes at a pointer to the start of a block; a read outside the block is a fault.
unfoldable pub read_block : ℕ → ℕ → M Bytes
read_block p sz h = elim (h.block p) [
  | none ↦ (fault, h)
  | some b ↦ if leb sz (length b) then (ok (take sz b), h) else (fault, h)
]

pub read_block_whole :
    (p : ℕ) (b : Bytes) (h : Heap) → h.block p ≡ some b → read_block p (length b) h ≡ (ok b, h)
unfolding read_block
read_block_whole p b h e = ground (arith, take_all (length b) b (omega arith))
