-- ===== src/Conversions/Back.antt =====
-- What comes back from a message.
use client_sdk_cpp.Prelude.{ℕ, List, [], ◌∷◌, Option, none, some, ◌≡◌, refl, arith}
use client_sdk_cpp.VideoFrame.{VideoBufferType}
use client_sdk_cpp.Conversions.{DisconnectReason, to_disconnect_reason, disconnect_reason_to_proto}
use client_sdk_cpp.Conversions.Media.{
  buffer_type_to_proto, buffer_type_from_proto, VideoFrameMetadata, ProtoMetadata,
  metadata_to_proto, metadata_from_proto, data_to_send, unless_empty,
}

-- What the other side reads of a message that may be missing.
abbrev pub arrived : Option ProtoMetadata → Option VideoFrameMetadata
arrived none = none
arrived (some m) = metadata_from_proto m

reasons_back : (r : DisconnectReason) → to_disconnect_reason (disconnect_reason_to_proto r) ≡ r
reasons_back r = ground arith

types_back : (t : VideoBufferType) → buffer_type_from_proto (buffer_type_to_proto t) ≡ some t
types_back t = ground arith

abbrev pub as_sent : VideoFrameMetadata → VideoFrameMetadata
as_sent m = record m { user_data = data_to_send m.user_data }

-- The statement for these parts.
Trip : VideoFrameMetadata → Type 0
Trip m =
    let sent = metadata_to_proto (some m) in
    (arrived sent
      ≡ unless_empty m.user_timestamp_us m.frame_id (data_to_send m.user_data) (as_sent m))
    × (metadata_to_proto (arrived sent) ≡ sent)

trip :
    (t i : Option ℕ) (d : Option (List ℕ))
    → Trip (record { user_timestamp_us = t; frame_id = i; user_data = d })
unfolding Trip metadata_to_proto metadata_from_proto
trip none none none = (refl, refl)
trip none none (some []) = (refl, refl)
trip none none (some (b ∷ bytes)) = (refl, refl)
trip none (some n) none = (refl, refl)
trip none (some n) (some []) = (refl, refl)
trip none (some n) (some (b ∷ bytes)) = (refl, refl)
trip (some n) i none = (refl, refl)
trip (some n) i (some []) = (refl, refl)
trip (some n) i (some (b ∷ bytes)) = (refl, refl)

-- The metadata of a frame with no part, or with empty data as its only part, is lost on its way; other
-- metadata comes back as it was but for empty data, and is sent as the same message again.
pub metadata_round_trip :
    (m : VideoFrameMetadata)
    → let sent = metadata_to_proto (some m) in
      (arrived sent
        ≡ unless_empty m.user_timestamp_us m.frame_id (data_to_send m.user_data) (as_sent m))
      × (metadata_to_proto (arrived sent) ≡ sent)
unfolding Trip
metadata_round_trip m = trip m.user_timestamp_us m.frame_id m.user_data
