-- ===== src/Service/Send.antt =====
-- skynet_send_noleak of cpp/common/skynet_wrapper.c, and the messages that services send.
use testcluster.Prelude.{ℕ, Bool, Option, none, some, List, [], ◌∷◌, ◌==◌, if◌then◌else◌}
use testcluster.Pack.Order.{Bytes}

-- A message handed to skynet_send; `session` is the bit pattern of an int, and a source of 0 stands for the sender.
pub record Envelope : Type 0 where
  pub source : ℕ
  pub dest : ℕ
  pub type : ℕ
  pub session : ℕ
  pub content : Bytes

abbrev pub ptype_text : ℕ
ptype_text = 0

abbrev pub ptype_response : ℕ
ptype_response = 1

abbrev pub ptype_client : ℕ
ptype_client = 3

-- What becomes of the message: freed with the result -1, left to the caller with the session as the result, or
-- given to skynet_send, whose result is passed on.
pub data SendResult : Type 0 where
  freed : SendResult
  not_sent : ℕ → SendResult
  sent : Envelope → SendResult

-- `dont_copy` is the bit PTYPE_TAG_DONTCOPY of the type, and `msg` is none for NULL.
unfoldable pub skynet_send_noleak : ℕ → ℕ → ℕ → Bool → ℕ → Option Bytes → SendResult
skynet_send_noleak source dest type dont_copy session none =
    if dest == 0
    then not_sent session
    else sent
        (record { source = source; dest = dest; type = type; session = session; content = [] })
skynet_send_noleak source dest type dont_copy session (some msg) =
    if dest == 0
    then (if dont_copy then freed else not_sent session)
    else sent
        (record { source = source; dest = dest; type = type; session = session; content = msg })

-- The messages that reach skynet.
unfoldable pub envelopes : SendResult → List Envelope
envelopes (sent envelope) = envelope ∷ []
envelopes _ = []
