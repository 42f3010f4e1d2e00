-- ===== src/Room/Notices.antt =====
-- The events of `Room::onEvent` in src/room.cpp that leave the room as it is and tell the delegate:
-- data packets, the life of the connection, data channels and descriptions of the room. An enumeration
-- that is cast is its number. What lies at an address is a parameter.
use client_sdk_cpp.Prelude.{ℕ, List, [], ◌∷◌, Option, none, some, String, if◌then◌else◌, ◌==◌, ◌||◌}
use client_sdk_cpp.Prelude.Assoc.{string_eq, lookup}
use client_sdk_cpp.Room.Roster.{Roster, Participant}
use client_sdk_cpp.Conversions.{DataPacketKind, ProtoDataPacketKind, to_data_packet_kind}
use client_sdk_cpp.Conversions.Rooms.{RoomInfoData, room_info_from_proto}

-- The value of `proto::DataPacketReceived`.
pub data Packet : Type 0 where
  -- The address and the length of the data, and the topic.
  user : ℕ → ℕ → Option String → Packet
  sip_dtmf : ℕ → Option String → Packet
  value_not_set : Packet

pub data PlainEvent : Type 0 where
  -- The sender's identity, the kind and the value.
  data_packet_received : String → ℕ → Packet → PlainEvent
  connection_state_changed : ℕ → PlainEvent
  reconnecting reconnected chat_message message_not_set : PlainEvent
  token_refreshed : String → PlainEvent
  data_channel_low_threshold_changed : ProtoDataPacketKind → ℕ → PlainEvent
  byte_stream_opened text_stream_opened : String → PlainEvent
  room_updated moved : RoomInfoData → PlainEvent

pub record UserDataPacketEvent : Type 0 where
  pub bytes : List ℕ
  pub kind : ℕ
  -- `nullptr` if the room does not know the sender.
  pub participant : Option Participant
  pub topic : String

pub record SipDtmfReceivedEvent : Type 0 where
  pub code : ℕ
  pub digit : String
  pub participant : Option Participant

-- The calls of the delegate.
pub data Notice : Type 0 where
  on_user_packet_received : UserDataPacketEvent → Notice
  on_sip_dtmf_received : SipDtmfReceivedEvent → Notice
  on_connection_state_changed : ℕ → Notice
  on_reconnecting on_reconnected : Notice
  on_token_refreshed : String → Notice
  on_low_threshold_changed : DataPacketKind → ℕ → Notice
  on_byte_stream_opened on_text_stream_opened : String → Notice
  on_room_updated on_room_moved : RoomInfoData → Notice

abbrev pub text_or_empty : Option String → String
text_or_empty none = ""
text_or_empty (some text) = text

abbrev pub on_connection_state_changed_event : ℕ → List Notice
on_connection_state_changed_event state = on_connection_state_changed state ∷ []

-- The connection is taken up again, or its token is renewed.
abbrev pub on_renewal : PlainEvent → List Notice
on_renewal reconnecting = on_reconnecting ∷ []
on_renewal reconnected = on_reconnected ∷ []
on_renewal (token_refreshed token) = on_token_refreshed token ∷ []
on_renewal _ = []

module _ (bytes_at : ℕ → ℕ → List ℕ) where
  -- The bytes are copied; the handle of the native library's buffer is not dropped.
  unfoldable pub user_data_packet_from_proto :
      ℕ → ℕ → ℕ → Option String → Option Participant → UserDataPacketEvent
  user_data_packet_from_proto kind address size topic sender = record {
    bytes = if (address == 0) || (size == 0) then [] else bytes_at address size;
    kind = kind;
    participant = sender;
    topic = text_or_empty topic;
  }

  unfoldable pub sip_dtmf_from_proto : ℕ → Option String → Option Participant → SipDtmfReceivedEvent
  sip_dtmf_from_proto code digit sender = record {
    code = code;
    digit = text_or_empty digit;
    participant = sender;
  }

  abbrev pub on_packet : ℕ → Packet → Option Participant → List Notice
  on_packet kind (user address size topic) sender =
      on_user_packet_received (user_data_packet_from_proto kind address size topic sender) ∷ []
  on_packet kind (sip_dtmf code digit) sender =
      on_sip_dtmf_received (sip_dtmf_from_proto code digit sender) ∷ []
  on_packet kind value_not_set sender = []

  -- What the delegate is told, if there is one.
  unfoldable pub on_plain_event : PlainEvent → Roster → List Notice
  on_plain_event (data_packet_received identity kind packet) r =
      on_packet kind packet (lookup identity r.remote_participants)
  on_plain_event (connection_state_changed state) r = on_connection_state_changed_event state
  on_plain_event reconnecting r = on_renewal reconnecting
  on_plain_event reconnected r = on_renewal reconnected
  on_plain_event chat_message r = []
  on_plain_event message_not_set r = []
  on_plain_event (token_refreshed token) r = on_renewal (token_refreshed token)
  on_plain_event (data_channel_low_threshold_changed kind threshold) r =
      on_low_threshold_changed (to_data_packet_kind kind) threshold ∷ []
  on_plain_event (byte_stream_opened identity) r = on_byte_stream_opened identity ∷ []
  on_plain_event (text_stream_opened identity) r = on_text_stream_opened identity ∷ []
  on_plain_event (room_updated info) r = on_room_updated (room_info_from_proto info) ∷ []
  on_plain_event (moved info) r = on_room_moved (room_info_from_proto info) ∷ []
