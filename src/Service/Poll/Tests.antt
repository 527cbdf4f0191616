-- ===== src/Service/Poll/Tests.antt =====
-- service_poll (cpp/common/Service.cpp) on small packets, and its theorems at concrete inputs.
use testcluster.Prelude.{
  ℕ, ◌≡◌, refl, ap, sym, ◌∙◌, Bool, true, false, none, some, List, [], ◌∷◌, ◌==◌, length, drop,
  take, arith,
}
use testcluster.Pack.Order.{Bytes, read32}
use testcluster.Pack.Decode.{Protobuf, copy, less}
use testcluster.Service.Table.{find, assign, same_name}
use testcluster.Service.Send.{ptype_text, ptype_response}
use testcluster.Service.Rpc.{func}
use testcluster.Service.Rpc.Trip.{Sendable, Parses}
use testcluster.Service.Rpc.Exchange.{sends}
use testcluster.Service.State.{Service, Program, new_service}
use testcluster.Service.Outgoing.{post, rpc_call_uid}
use testcluster.Service.Poll.{service_poll, poll_type, poll_text, poll_plain_text, text_uid}
use testcluster.Service.Poll.Messages.{handling, idle}
use testcluster.Service.Poll.Calls.{
  started, noting, forgetting, call_packet, answer_packet, call_answered,
}
use testcluster.Service.Poll.Idle.{IsIdle, service_poll-IsIdle}
use testcluster.Text.Number.{atoll}
use testcluster.Text.Divide.{divide_string}

abbrev ping : Bytes
ping = b'p' ∷ b'i' ∷ b'n' ∷ b'g' ∷ []

-- Messages that are their own bytes.
abbrev plain : Protobuf
plain = record {
  Message = Bytes;
  parse = λ name text. some text;
  serialize = λ message. (true, message);
  get_type_name = λ message. ping;
}

plain_parses : Parses plain
plain_parses m text e = ap (λ r. some (r.1)) (sym e)

abbrev call : Bytes
call = 1 ∷ 2 ∷ []

abbrev reply : Bytes
reply = 3 ∷ []

call-Sendable : Sendable plain call
call-Sendable = record { text = call; done = refl; short = omega arith; small = omega arith }

reply-Sendable : Sendable plain reply
reply-Sendable = record { text = reply; done = refl; short = omega arith; small = omega arith }

-- The world is a list of what was seen: the uid that was served, and a message.
abbrev Notes : Type 0
Notes = List (ℕ × Bytes)

abbrev note : Bytes → Service Bool Notes → Service Bool Notes
note seen s = record s { world = (s.process_uid, seen) ∷ s.world }

abbrev noting_program : Program plain Bool Notes
noting_program = record {
  on_timer = λ f s. note [] s;
  on_answer = λ f msg s. note msg s;
  on_request = λ g msg s. (some reply, note msg s);
  on_message = λ f msg source s. note msg s;
  on_init = λ f parm s. (true, note parm s);
  text_message = λ memory size source session s. some (note memory s);
  message = λ memory size source s. some (note memory s);
}

abbrev fresh : Service Bool Notes
fresh = new_service []

abbrev listening : Service Bool Notes
listening = record fresh { callbacks = (ping, true) ∷ []; server_callbacks = (ping, false) ∷ [] }

-- A service in the room 5 that handles a message of the uid 258.
abbrev sending : Service Bool Notes
sending = record fresh { process_uid = 258; service_roomid = 5 }

-- A caller that has seen another answer since.
abbrev later : Service Bool Notes
later = record fresh { rpc = (7, func true) ∷ []; world = (1, []) ∷ [] }

abbrev served : Service Bool Notes
served = note call (
    noting
      (handling (started listening) 9 7 ptype_text (call_packet plain call call-Sendable 258) 258) 9
      7 258)

call_answered_example :
    (rpc_call_uid plain (started fresh) 7 11 call (func true) 258 ≡ (
      7,
      post
          (record (started fresh) { rpc = assign ◌==◌ 7 (func true) fresh.rpc })
          (sends 11 ptype_text 7 (call_packet plain call call-Sendable 258)),
    ))
    × (service_poll noting_program
          (started listening)
          (call_packet plain call call-Sendable 258)
          (length (call_packet plain call call-Sendable 258))
          9
          7
          ptype_text
        ≡ some (
            idle (
              post served
                (sends 9 ptype_response 7 (answer_packet plain reply reply-Sendable 258)))))
    × (service_poll noting_program later
          (answer_packet plain reply reply-Sendable 258)
          (length (answer_packet plain reply reply-Sendable 258))
          11
          7
          ptype_response
        ≡ some (
            idle (
              forgetting
                (note reply (
                  handling later 11 7 ptype_response
                    (answer_packet plain reply reply-Sendable 258)
                    258))
                7)))
unfolding find same_name new_service
call_answered_example =
    call_answered plain_parses noting_program noting_program call reply call-Sendable reply-Sendable
      fresh later listening served true false 9 11 7 258 (ground arith) (ground arith) (omega arith)
      refl refl refl

-- A text message for the uid 42.
abbrev text : Bytes
text = 0 ∷ 0 ∷ 0 ∷ 19 ∷ b'p' ∷ b'h' ∷ b'p' ∷ 32 ∷ b'4' ∷ b'2' ∷ 32 ∷ b'x' ∷ []

abbrev after_text : Service Bool Notes
after_text = record fresh {
  msg_data = text;
  world = (42, b'p' ∷ b'h' ∷ b'p' ∷ 32 ∷ b'4' ∷ b'2' ∷ 32 ∷ b'x' ∷ []) ∷ [];
}

text_run : service_poll noting_program fresh text 12 9 7 ptype_text ≡ some after_text
unfolding service_poll poll_type poll_text poll_plain_text text_uid copy read32 less drop
    new_service take divide_string same_name atoll
text_run = refl

message_keeps :
    (u : Service Bool Notes)
    → u.process_uid ≡ 0
    → (t : Service Bool Notes) → noting_program.message text 12 9 u ≡ some t
    → t.process_uid ≡ 0
message_keeps u clear t e = ap (λ o. elim o [ none ↦ 0 | some x ↦ x.process_uid ]) (sym e) ∙ clear

service_poll-IsIdle_example : IsIdle after_text
unfolding new_service
service_poll-IsIdle_example =
    service_poll-IsIdle noting_program fresh after_text text 12 9 7 ptype_text message_keeps
      (record { no_source = refl; no_session = refl; no_uid = refl }) text_run
