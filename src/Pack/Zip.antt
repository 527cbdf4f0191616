-- ===== src/Pack/Zip.antt =====
-- Compression of packets (cpp/common/Pack.cpp): zlib_compress, the two OutPack::zip_reset, serialize_msg_with_compress
-- and compress_row_msg. zlib is a parameter.
pub mod Deflate
pub mod Delivery
pub mod Store
mod Tests
use testcluster.Prelude.{
  ℕ, zero, suc, ◌+◌, ◌-◌, ◌/◌, ◌%◌, ◌^◌, Bool, true, false, Option, none, some, List, [], ◌∷◌, ◌++◌,
  length, take, drop, ltb, ◌==◌, if◌then◌else◌,
}
use testcluster.Pack.Order.{Bytes, read16, read32}
use testcluster.Pack.Decode.{Access, ◌>>=◌, Protobuf, copy}
use testcluster.Pack.Encode.{OutPack, new_outpack, empty}

-- The codes of deflate; z_buf_error tells that no progress was possible.
pub data ZResult : Type 0 where
  z_ok : ZResult
  z_stream_end : ZResult
  z_buf_error : ZResult
  z_stream_error : ZResult

-- deflateInit, if it returns Z_OK. deflate, with the input, the room for output and whether the flush is Z_FINISH: the
-- code, the stream, how many bytes of input it took, and the output.
pub record Zlib : Type 1 where
  pub Stream : Type 0
  pub deflate_init : Option Stream
  pub deflate : Stream → Bytes → ℕ → Bool → ZResult × Stream × ℕ × Bytes

-- A run that ends, with false or with what it makes, or needs more rounds.
pub data Run (A : Type 0) : Type 0 where
  more_rounds : Run A
  failed : Run A
  done : A → Run A

abbrev pub chunk : ℕ
chunk = 16384

unfoldable pub is_nil : Bytes → Bool
is_nil [] = true
is_nil (c ∷ rest) = false

unfoldable pub is_stream_error : ZResult → Bool
is_stream_error z_stream_error = true
is_stream_error _ = false

unfoldable pub is_stream_end : ZResult → Bool
is_stream_end z_stream_end = true
is_stream_end _ = false

-- OutPack::zip_reset of a message: the result, and the pack, or nothing if zlib_compress needs more rounds.
unfoldable pub zip_output : OutPack → Bytes → Bytes → Run Bytes → Option (Bool × OutPack)
zip_output o text name more_rounds = none
zip_output o text name failed = some (false, record o { pb_data = text })
zip_output o text name (done output) = some (true, record { pb_data = output; type_name = name })

-- zip_reset of a packet for a client, whose data is compressed: the pack, and the room. An int that is negative
-- makes no string, and a failure leaves the data of the pack as it was.
unfoldable pub zip_row : OutPack → Bytes → ℕ → Run Bytes → Access (OutPack × ℕ)
zip_row o name room more_rounds = none
zip_row o name room failed = some (record o { type_name = name }, room)
zip_row o name room (done output) = some (record { pb_data = output; type_name = name }, room)

-- (1<<31) | roomid
unfoldable pub compress_roomid : ℕ → ℕ
compress_roomid room = if ltb room (2 ^ 31) then room + 2 ^ 31 else room

module _ (z : Zlib) where
  -- What the inner loop ends with: the last code, the stream, the input left, and the output so far.
  abbrev pub Deflated : Type 0
  Deflated = ZResult × z.Stream × Bytes × Bytes

  -- The inner loop: as long as deflate fills the output buffer, it is called again.
  unfoldable pub deflate_loop : ℕ → z.Stream → Bytes → Bool → Bytes → Run Deflated
  unfolding is_stream_error
  deflate_loop zero s input finish out = more_rounds
  deflate_loop (suc rounds) s input finish out =
      let (ret, next, taken, made) = z.deflate s input chunk finish in
      let again = deflate_loop rounds next (drop taken input) finish (out ++ made) in
      if is_stream_error ret
      then failed
      else if length made == chunk
      then again
      else done (ret, next, drop taken input, out ++ made)

  -- What follows the inner loop, in which the input must have been used; behind the last chunk the stream must have ended.
  unfoldable pub end_chunk : (z.Stream → Bytes → Run Bytes) → Bool → Run Deflated → Run Bytes
  unfolding is_nil is_stream_end
  end_chunk next finish more_rounds = more_rounds
  end_chunk next finish failed = failed
  end_chunk next finish (done (ret, s, left, out)) =
      if is_nil left
      then (if finish then (if is_stream_end ret then done out else failed) else next s out)
      else failed

  -- The outer loop, over the chunks left of the data.
  unfoldable pub compress_loop : ℕ → ℕ → z.Stream → Bytes → Bytes → Run Bytes
  unfolding end_chunk is_nil
  compress_loop zero rounds s rest out = more_rounds
  compress_loop (suc chunks) rounds s rest out =
      let behind = drop chunk rest in
      let finish = is_nil behind in
      end_chunk (λ next made. compress_loop chunks rounds next behind made) finish
        (deflate_loop rounds s (take chunk rest) finish out)

  -- `rounds` bounds the inner loop; the outer one has a round for each chunk.
  unfoldable pub zlib_compress : ℕ → Bytes → Run Bytes
  unfolding compress_loop
  zlib_compress rounds pb_data = elim z.deflate_init [
    | none ↦ failed
    | some s ↦ compress_loop (length pb_data / chunk + 1) rounds s pb_data []
  ]

  unfoldable pub zip_reset : ℕ → (pb : Protobuf) → OutPack → pb.Message → Option (Bool × OutPack)
  unfolding zip_output
  zip_reset rounds pb o msg =
      let (ok, text) = pb.serialize msg in
      if ok
      then zip_output o text (pb.get_type_name msg) (zlib_compress rounds text)
      else some (false, record o { pb_data = text })

  unfoldable pub zip_reset_row : ℕ → OutPack → Bytes → Access (OutPack × ℕ)
  unfolding zip_row
  zip_reset_row rounds o msg = do
    msglen ← read32 msg
    namelen ← read16 (drop 4 msg)
    name ← copy namelen (drop 6 msg)
    room ← read32 (drop (6 + namelen) msg)
    let row_msg_len = (msglen + 2 ^ 32 - (2 + namelen + 4)) % 2 ^ 32
    input ← if ltb row_msg_len (2 ^ 31) then copy row_msg_len (drop (6 + namelen + 4) msg) else none
    zip_row o name room (zlib_compress rounds input)

  unfoldable pub serialize_msg_with_compress : ℕ → (pb : Protobuf) → pb.Message → ℕ → Option Bytes
  unfolding zip_reset compress_roomid new_outpack
  serialize_msg_with_compress rounds pb msg roomid = do
    (ok, o) ← zip_reset rounds pb empty msg
    new_outpack o 0 (compress_roomid roomid)

  unfoldable pub compress_row_msg : ℕ → Bytes → Access Bytes
  unfolding zip_reset_row compress_roomid new_outpack
  compress_row_msg rounds msg = do
    (o, room) ← zip_reset_row rounds empty msg
    new_outpack o 0 (compress_roomid room)
