-- ===== src/Pack/Zip/Tests.antt =====
-- Compression (cpp/common/Pack.cpp) with a zlib that stores, and the theorems with it.
use testcluster.Prelude.{◌≤◌, ◌≡◌, refl, true, some, [], ◌∷◌, length, take, drop, arith}
use testcluster.Pack.Order.{Bytes}
use testcluster.Pack.Decode.{InPack, new_in_pack, out_reset}
use testcluster.Pack.Encode.{OutPack}
use testcluster.Pack.Delivery.{client_packet}
use testcluster.Pack.Zip.{
  is_stream_error, is_stream_end, done, zlib_compress, compress_loop, deflate_loop, end_chunk,
  is_nil, compress_roomid, compress_row_msg,
}
use testcluster.Pack.Zip.Deflate.{zlib_compress-inflates}
use testcluster.Pack.Zip.Delivery.{compress_row_msg-out_reset}
use testcluster.Pack.Zip.Store.{store, same_bytes, same_size, store-Promises}

abbrev text : Bytes
text = 8 ∷ 1 ∷ 8 ∷ 1 ∷ []

store_run : zlib_compress store 1 text ≡ done text
unfolding zlib_compress compress_loop deflate_loop end_chunk is_nil is_stream_error is_stream_end
    take drop
store_run = refl

zlib_compress-inflates_example :
    (output : Bytes) × (zlib_compress store 2 text ≡ done output)
    × (same_bytes output ≡ some text)
    × (length output ≤ length text)
zlib_compress-inflates_example =
    zlib_compress-inflates store same_bytes same_size store-Promises 2 text (omega arith)

abbrev pack : OutPack
pack = record { pb_data = text; type_name = b'p' ∷ b'i' ∷ [] }

compress_row_msg-out_reset_example :
    (packet : Bytes) × (r : InPack) × (compress_row_msg store 2 (client_packet pack 5)
      ≡ some packet)
    × (out_reset new_in_pack packet (length packet) ≡ some (true, r))
    × (r.type_name ≡ pack.type_name)
    × (r.roomid ≡ compress_roomid 5)
    × (r.pb_data_len ≡ length r.pb_data)
    × (same_bytes r.pb_data ≡ some pack.pb_data)
compress_row_msg-out_reset_example =
    compress_row_msg-out_reset store same_bytes same_size store-Promises 2 new_in_pack pack 5
      (omega arith) (omega arith) (omega arith) (omega arith) (omega arith)
