-- ===== src/Service/Poll/Messages.antt =====
-- Messages from service to service: from service_send and service_system_send through service_poll (cpp/common/Service.cpp).
use testcluster.Prelude.{ℕ}
use testcluster.Pack.Order.{Bytes}
use testcluster.Pack.Decode.{Protobuf}
use testcluster.Service.Send.{Envelope, ptype_text}
use testcluster.Service.State.{Service}
use testcluster.Service.Poll.{subtype_protobuf, subtype_system}
use testcluster.Service.Outgoing.{
  service_send, service_send_uid, service_system_send, service_system_send_uid,
}

-- A service while it handles a packet, for a uid.
abbrev pub handling : {K W : Type 0} → Service K W → ℕ → ℕ → ℕ → Bytes → ℕ → Service K W
handling s source session type content uid = record s {
  source = source;
  session = session;
  msg_type = type;
  msg_data = content;
  process_uid = uid;
}

-- A service that has handled it.
abbrev pub idle : {K W : Type 0} → Service K W → Service K W
idle s = record s { source = 0; session = 0; process_uid = 0 }

-- The ways in which a service sends a message: with the uid of the message that it handles, or with another one.
pub data Sending : Type 0 where
  by_send : Sending
  by_send_uid : (uid : ℕ) → Sending
  by_system_send : Sending
  by_system_send_uid : (uid : ℕ) → Sending

abbrev pub uid_of : Sending → ℕ → ℕ
uid_of by_send process_uid = process_uid
uid_of (by_send_uid uid) process_uid = uid
uid_of by_system_send process_uid = process_uid
uid_of (by_system_send_uid uid) process_uid = uid

-- The service that has sent it to `handle`.
abbrev pub sent_by :
    (pb : Protobuf) {L V : Type 0} → Sending → Service L V → pb.Message → ℕ → Service L V
sent_by pb by_send from msg handle = service_send pb from msg handle
sent_by pb (by_send_uid uid) from msg handle = service_send_uid pb from msg handle uid
sent_by pb by_system_send from msg handle = service_system_send pb from msg handle
sent_by pb (by_system_send_uid uid) from msg handle = service_system_send_uid pb from msg handle uid

abbrev sub_type_of : Sending → ℕ
sub_type_of by_send = subtype_protobuf
sub_type_of (by_send_uid uid) = subtype_protobuf
sub_type_of by_system_send = subtype_system
sub_type_of (by_system_send_uid uid) = subtype_system

-- What skynet is given.
abbrev pub posted : ℕ → Bytes → Envelope
posted handle content = record {
  source = 0;
  dest = handle;
  type = ptype_text;
  session = 0;
  content = content;
}
