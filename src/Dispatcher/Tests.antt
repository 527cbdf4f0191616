-- ===== src/Dispatcher/Tests.antt =====
-- A dispatcher of two message types, and a packet of one.
use testcluster.Prelude.{ℕ, ◌≡◌, refl, true, Option, none, some, [], ◌∷◌, if◌then◌else◌, arith}
use testcluster.Pack.Order.{Bytes}
use testcluster.Pack.Decode.{Protobuf}
use testcluster.Pack.Encode.{serialize_imsg_type}
use testcluster.Protopack.{LuaProtobuf}
use testcluster.Protopack.Interop.{SameMessage}
use testcluster.Service.Table.{same_name}
use testcluster.Dispatcher.{
  is_letter, last_word, last_word_from, end_word, Dispatcher, new, regs, called, redirected, text,
}
use testcluster.Dispatcher.Words.{IsWord}
use testcluster.Dispatcher.Handling.{HaveWords, redirects, packet_handled}

abbrev ping : Bytes
ping = b'p' ∷ b'i' ∷ b'n' ∷ b'g' ∷ []

abbrev pb_ping : Bytes
pb_ping = b'p' ∷ b'b' ∷ b'.' ∷ ping

abbrev pb_stop : Bytes
pb_stop = b'p' ∷ b'b' ∷ b'.' ∷ b's' ∷ b't' ∷ b'o' ∷ b'p' ∷ []

-- Messages that are their own bytes.
abbrev plain : Protobuf
plain = record {
  Message = Bytes;
  parse = λ name text. some text;
  serialize = λ message. (true, message);
  get_type_name = λ message. pb_ping;
}

abbrev plain_lua : LuaProtobuf
plain_lua = record {
  Message = Bytes;
  encode = λ name message. message;
  decode = λ name text. some text;
}

abbrev body : Bytes
body = 8 ∷ 1 ∷ []

abbrev body_same : SameMessage plain plain_lua body body
body_same = record {
  text = body;
  serialized = refl;
  encoded = refl;
  short = omega arith;
  small = omega arith;
}

-- The function 1 handles ping, and answers with a ping.
abbrev functions : Bytes → Option ℕ
functions name = if same_name name ping then some 1 else none

abbrev echo : ℕ → ℕ → Option Bytes → ℕ → ℕ → Option (Bytes × Bytes)
echo f uid msg session source = some (ping, body)

ping-IsWord : IsWord ping
unfolding is_letter
ping-IsWord = (refl, (refl, (refl, (refl, tt))))

types-HaveWords : HaveWords (pb_stop ∷ pb_ping ∷ [])
unfolding last_word last_word_from is_letter end_word
types-HaveWords = ((b's' ∷ b't' ∷ b'o' ∷ b'p' ∷ [], refl), ((ping, refl), tt))

-- A digit ends a word.
digit_in_name :
    last_word (b'p' ∷ b'b' ∷ b'.' ∷ b'G' ∷ b'e' ∷ b't' ∷ b'2' ∷ b'R' ∷ b'E' ∷ b'Q' ∷ [])
    ≡ some (b'R' ∷ b'E' ∷ b'Q' ∷ [])
unfolding last_word last_word_from is_letter end_word
digit_in_name = refl

packet_handled_example :
    (self : Dispatcher ℕ) × (next : Dispatcher ℕ) × (regs
        (new functions)
        (pb_stop ∷ pb_ping ∷ [])
        none
      ≡ some self)
    × (text plain_lua echo true self (serialize_imsg_type plain body 258 16 5) 4 9
        ≡ some (
          next,
          called 1 none 258 (some body) 4 9
              ∷ redirected 9 4 (serialize_imsg_type plain body 258 17 0)
              ∷ [],
        ))
unfolding same_name
packet_handled_example =
    packet_handled plain plain_lua body body body_same (b'p' ∷ b'b' ∷ []) (b'i' ∷ b'n' ∷ b'g' ∷ [])
      b'p' ping-IsWord refl echo true functions 1 refl (pb_stop ∷ []) [] types-HaveWords 258 5 16 4
      9 (omega arith) (omega arith) _
      (redirects ping body body body_same refl (λ e. omega arith) refl)
