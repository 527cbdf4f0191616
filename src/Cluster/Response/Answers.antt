-- ===== src/Cluster/Response/Answers.antt =====
-- What lpackresponse sends for an answer or an error, short or long, and what its reader gets.
use testcluster.Prelude.{
  ℕ, ◌*◌, ◌^◌, ◌≤◌, ◌<◌, ◌≡◌, refl, ◌∙◌, ap, min, Bool, true, false, some, List, [], ◌∷◌, length,
  length-take, take, drop, take_all, ltb, if◌then◌else◌, arith, lt→ltb, ltb_of_le,
}
use testcluster.Prelude.Int.{pos, to_u32}
use testcluster.Cluster.Wire.{Bytes, multi_part, fill_uint32}
use testcluster.Cluster.Lua.{
  Value, boolean, light_userdata, string, table, LuaApi, ok, Heap, check_integer_eq, arg,
}
use testcluster.Cluster.Unpack.{word}
use testcluster.Cluster.Unpack.Bodies.{with_block}
use testcluster.Cluster.Request.{part_count}
use testcluster.Cluster.Request.Packets.{framed}
use testcluster.Cluster.Request.Parts.{take_part, chunks, join-chunks, part_count_enough}
use testcluster.Cluster.Assemble.{lconcat}
use testcluster.Cluster.Assemble.Calls.{lconcat_whole}
use testcluster.Cluster.Response.{
  lpackresponse, lunpackresponse, single_response, multi_response, read_message,
}
use testcluster.Cluster.Response.Packets.{
  response_body, response_frames, response_packet_eq, begin_packet_eq, response_loop_eq,
  unpack_error, unpack_ok, unpack_begin,
}
use testcluster.Cluster.Response.Trip.{
  Message, response_args, size_known, read_known, unpack_all, part_values, gathered_data,
  data_of_parts, unpack_parts, parts_fit,
}

-- One packet is sent, and its reader gets the session, the flag and `content`.
pub record Answered (lua : LuaApi) (args : List Value) (h : Heap) (session : ℕ) (is_ok : Bool)
    (content : Bytes) (there : Heap) : Type 0 where
  pub packet : Bytes
  pub packed : lpackresponse lua args h ≡ (ok (string packet ∷ []), h)
  pub unpacked :
      lunpackresponse lua (string (drop 2 packet) ∷ []) there
      ≡ (ok (word session ∷ boolean is_ok ∷ string content ∷ []), there)

-- The packets of a long answer are sent in a table. Each is unpacked, all but the last with the
-- padding flag, and cluster.concat of the data gives a new block that holds the answer.
pub record AnsweredInParts (lua : LuaApi) (args : List Value) (h : Heap) (session : ℕ)
    (content : Bytes) (there : Heap) : Type 0 where
  pub packets : List Bytes
  pub values : List (List Value)
  pub packed : lpackresponse lua args h ≡ (ok (table packets ∷ []), h)
  pub unpacked : unpack_all lua packets there ≡ (ok values, there)
  pub padded :
      values
      ≡ (word session ∷ boolean true ∷ word (length content) ∷ boolean true ∷ [])
        ∷ part_values (part_count (length content)) session content
  pub joined :
      lconcat lua (some (gathered_data values)) there
      ≡ (ok (light_userdata there.next ∷ word (length content) ∷ []), with_block there content)

module _ (lua : LuaApi) (session : ℕ) (session_lt : session < 2 ^ 32) {h : Heap} {content : Bytes}
    {rest : List Value} (message : Message h content rest) (there : Heap) where
  session_known : to_u32 (pos session) ≡ session
  unfolding to_u32
  session_known = omega arith

  single_eq :
      (is_ok : Bool) (kind n : ℕ)
      → n ≤ length content
      → n ≤ multi_part
      → single_response session kind (arg (response_args session is_ok rest) 3) n h
        ≡ (ok (string (framed (response_body session kind (take n content))) ∷ []), h)
  unfolding single_response
  single_eq is_ok kind n le short = rw (read_known lua session is_ok n message le) (
      rw
        (response_packet_eq session kind (take n content) h (omega (arith, length-take n content))))

  whole_read :
      (n : ℕ)
      → length content ≤ n * multi_part
      → read_message
          (arg (response_args session true rest) 3)
          (min (length content) (n * multi_part))
          h
        ≡ (ok content, h)
  whole_read n enough =
      let all : min (length content) (n * multi_part) ≡ length content = omega arith in
      rw all (
        read_known lua session true (length content) message (omega arith)
        ∙ ap (λ (c : Bytes). (ok c, h)) (take_all (length content) content (omega arith)))

  -- An answer of at most MULTI_PART bytes is sent in one packet and read as it was given.
  pub short_answer :
      length content ≤ multi_part
      → Answered lua (response_args session true rest) h session true content there
  unfolding lpackresponse
  short_answer short =
      let args : List Value = response_args session true rest in
      record {
        packet = framed (response_body session 1 content);
        packed =
            rw (check_integer_eq lua args 1 h (pos session) refl, session_known)
              (rw (size_known lua session true message) (
                rw (ltb_of_le multi_part (length content) short) (
                  rw (single_eq true 1 (length content) (omega arith) short)
                    (rw (take_all (length content) content (omega arith))))));
        unpacked = unpack_ok lua session session_lt there content;
      }

  -- An error message is sent in one packet, cut to its first MULTI_PART bytes.
  pub error_answer :
      Answered lua
        (response_args session false rest)
        h
        session
        false
        (take multi_part content)
        there
  unfolding lpackresponse
  error_answer =
      let args : List Value = response_args session false rest in
      record {
        packet = framed (response_body session 0 (take multi_part content));
        packed =
            rw (check_integer_eq lua args 1 h (pos session) refl, session_known)
              (rw (size_known lua session false message) (
                rw
                  (single_eq false 0
                    (if ltb multi_part (length content) then multi_part else length content)
                    (ground arith) (ground arith))
                  (rw (take_part content))));
        unpacked = unpack_error lua session session_lt there (take multi_part content);
      }

  -- An answer of more than MULTI_PART and fewer than 2^31 bytes is sent in parts that join to it.
  pub long_answer :
      multi_part < length content
      → length content < 2 ^ 31
      → AnsweredInParts lua (response_args session true rest) h session content there
  unfolding lpackresponse multi_response unpack_all gathered_data
  long_answer long content_lt =
      let args : List Value = response_args session true rest in
      let n = part_count (length content) in
      let begin : Bytes = framed (response_body session 2 (fill_uint32 (length content))) in
      record {
        packets = begin ∷ response_frames n session content;
        values =
            (word session ∷ boolean true ∷ word (length content) ∷ boolean true ∷ [])
            ∷ part_values n session content;
        packed =
            rw (check_integer_eq lua args 1 h (pos session) refl, session_known)
              (rw (size_known lua session true message) (
                rw (lt→ltb multi_part (length content) long) (
                  rw (parts_fit (length content) (omega arith)) (
                    rw (begin_packet_eq session (length content) h (omega arith)) (
                      rw (whole_read n (part_count_enough (length content)))
                        (rw (response_loop_eq n session content h)))))));
        unpacked =
            rw (unpack_begin lua session session_lt there (length content) (omega arith))
              (rw (unpack_parts lua n session content there session_lt));
        padded = refl;
        joined = rw (data_of_parts n session content) (
            lconcat_whole lua (chunks n content) content there
              (join-chunks n content (part_count_enough (length content))) content_lt);
      }
