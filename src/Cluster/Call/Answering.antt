-- ===== src/Cluster/Call/Answering.antt =====
-- What a call comes to, from the agent that has called the service (bee_clusteragent.lua) to the caller of the sender
-- (bee_clustersender.lua).
use testcluster.Prelude.{
  ℕ, zero, suc, ◌-◌, ◌/◌, drop, length-drop, lt→ltb, ltb_of_le, ◌^◌, ◌<◌, ◌≤◌, ◌≡◌, refl, ◌∙◌, ap,
  true, false, some, List, [], ◌∷◌, map, length, take, arith, ==_refl,
}
use native.Mathlib.Decide.{dec_lt}
use testcluster.Cluster.Wire.{Bytes, multi_part}
use testcluster.Cluster.Lua.{
  Value, boolean, light_userdata, string, LuaApi, ok, Heap, new_block, arg,
}
use testcluster.Cluster.Unpack.{word}
use testcluster.Cluster.Unpack.Bodies.{with_block}
use testcluster.Cluster.Request.{part_count}
use testcluster.Cluster.Response.Trip.{
  Message, text, pointer, unpack_all, gathered_data, part_values,
}
use testcluster.Cluster.Response.Answers.{short_answer, error_answer, long_answer}
use testcluster.Cluster.Agent.LongRequest.{last_count, more_count}
use testcluster.Cluster.Agent.Respond.{
  Called, returned, failed, write, writes, respond, respond_called,
}
use testcluster.Cluster.Sender.{
  Received, single, many, raised_by, Channel, Gathers, IsPadded, Returned, ret, ret_failed,
  finish_req,
}

-- What the caller gets: the bytes that the service answered, as a string or in a block, or a failure.
abbrev pub Yields : Called → Returned → Heap → Type 0
Yields (returned reply) (ret vs) h = Message h reply vs
Yields (failed message) ret_failed h = Unit
Yields _ _ h = ⊥

-- The answer fits the 31 bits of its size.
abbrev pub Fits : Called → Type 0
Fits (returned reply) = length reply < 2 ^ 31
Fits (failed message) = Unit

-- The agent writes packets, which the sender reads, whose channel answers with what finish_req returns.
pub record Answers (lua : LuaApi) (channel : Channel) (session : ℕ) (called : Called)
    (there here : Heap) : Type 0 where
  pub packets : List Bytes
  pub after : Heap
  pub responded :
      respond_called lua session called there ≡ (ok (map (λ packet. write packet) packets), after)
  pub values : List (List Value)
  pub read : unpack_all lua packets here ≡ (ok values, here)
  pub received : Received
  pub waited : channel.answer values ≡ some received
  pub result : Returned
  pub back : Heap
  pub finished : finish_req lua received here ≡ (ok result, back)
  pub yields : Yields called result back

parts-IsPadded :
    (n session : ℕ) (content : Bytes)
    → part_count (length content) ≡ suc n
    → IsPadded session (part_values (suc n) session content)
unfolding part_values
parts-IsPadded zero session content count =
    rw (ltb_of_le multi_part (length content) (last_count (length content) count)) refl
parts-IsPadded (suc n) session content count =
    let (long, count', some_left) = more_count (length content) n count in
    let cut : length (drop multi_part content) ≡ length content - multi_part =
      length-drop multi_part content in
    rw (lt→ltb multi_part (length content) long)
      (refl, parts-IsPadded n session (drop multi_part content) (ap part_count cut ∙ count'))

part_count-pos : (sz : ℕ) → 1 ≤ sz → part_count sz ≡ suc ((sz - 1) / multi_part)
unfolding part_count
part_count-pos sz h = omega arith

-- The answers to a long reply end the wait of its session.
answer_parts :
    (channel : Channel) (gathers : Gathers channel) (session : ℕ) (content : Bytes)
    (begin : List Value)
    → 1 ≤ length content
    → begin ≡ word session ∷ boolean true ∷ arg begin 3 ∷ boolean true ∷ []
    → channel.answer (begin ∷ part_values (part_count (length content)) session content)
      ≡ some
          (many (gathered_data (begin ∷ part_values (part_count (length content)) session content)))
unfolding part_values
answer_parts channel gathers session content begin h e =
    let n = (length content - 1) / multi_part in
    let count = part_count-pos (length content) h in
    rw (count) (gathers.padded session begin _ _ (e, parts-IsPadded n session content count))

module _ (lua : LuaApi) (channel : Channel) (gathers : Gathers channel) (session : ℕ)
    (session_lt : session < 2 ^ 32) (there here : Heap) where
  new_message :
      (reply : Bytes)
      → length reply < 2 ^ 31
      → Message
          (with_block there reply)
          reply
          (light_userdata there.next ∷ word (length reply) ∷ [])
  new_message reply small = pointer there.next (rw (==_refl there.next)) (omega arith)

  short-Answers :
      (reply : Bytes)
      → length reply ≤ multi_part
      → Answers lua channel session (returned reply) there here
  unfolding respond_called respond writes new_block finish_req unpack_all
  short-Answers reply short =
      let a = short_answer lua session session_lt (new_message reply (omega arith)) here short in
      record {
        packets = a.packet ∷ [];
        after = with_block there reply;
        responded = rw (a.packed);
        values = (word session ∷ boolean true ∷ string reply ∷ []) ∷ [];
        read = rw (a.unpacked);
        received = single (string reply);
        waited = gathers.one session (string reply);
        result = ret (string reply ∷ []);
        back = here;
        finished = refl;
        yields = text;
      }

  error-Answers : (message : Bytes) → Answers lua channel session (failed message) there here
  unfolding respond_called respond writes finish_req unpack_all
  error-Answers message =
      let a = error_answer lua session session_lt {h = there} {content = message} text here in
      record {
        packets = a.packet ∷ [];
        after = there;
        responded = rw (a.packed);
        values = (word session ∷ boolean false ∷ string (take multi_part message) ∷ []) ∷ [];
        read = rw (a.unpacked);
        received = raised_by (string (take multi_part message));
        waited = gathers.error session (string (take multi_part message));
        result = ret_failed;
        back = here;
        finished = refl;
        yields = tt;
      }

  long-Answers :
      (reply : Bytes)
      → multi_part < length reply
      → length reply < 2 ^ 31
      → Answers lua channel session (returned reply) there here
  unfolding respond_called respond writes new_block finish_req
  long-Answers reply long small =
      let a = long_answer lua session session_lt (new_message reply small) here long small in
      record {
        packets = a.packets;
        after = with_block there reply;
        responded = rw (a.packed);
        values = a.values;
        read = a.unpacked;
        received = many (gathered_data a.values);
        waited = rw (a.padded) (
            answer_parts channel gathers session reply
              (word session ∷ boolean true ∷ word (length reply) ∷ boolean true ∷ []) (omega arith)
              refl);
        result = ret (light_userdata here.next ∷ word (length reply) ∷ []);
        back = with_block here reply;
        finished = rw (a.joined);
        yields = pointer here.next (rw (==_refl here.next)) (omega arith);
      }

  pub called-Answers :
      (called : Called) → Fits called → Answers lua channel session called there here
  called-Answers (failed message) fits = error-Answers message
  called-Answers (returned reply) fits = elim (dec_lt multi_part (length reply)) [
    | yes long ↦ long-Answers reply long fits
    | no short ↦ short-Answers reply (omega arith)
  ]
