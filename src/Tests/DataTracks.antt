-- ===== src/Tests/DataTracks.antt =====
-- Examples for src/data_track_schema.cpp, src/local_data_track.cpp and the snapshot of src/room.cpp.
use client_sdk_cpp.Prelude.{true, false, [], ◌∷◌, none, some, ◌≡◌, ◌≢◌, ◌⊎◌, ◌↔◌, refl, arith}
use client_sdk_cpp.Dispatcher.{kind_video, kind_audio}
use client_sdk_cpp.DataTrack.Schema.{
  SchemaFormat, DataTrackSchemaId, same_schema_id, schema_id_to_proto, schema_id_from_proto,
}
use client_sdk_cpp.DataTrack.Schema.Identity.{schema_id_identity}
use client_sdk_cpp.DataTrack.Ends.{
  DataTrackFrame, ProtoFrame, from_owned_info, PushReply, PushResult, answers, try_push_request,
  try_push, ProtoTryPushErrorCode,
}
use client_sdk_cpp.DataTrack.Ends.Carried.{try_push_carries}
use client_sdk_cpp.Room.Roster.{Roster, Participant, Publication}
use client_sdk_cpp.Room.Snapshot.{remote_publications}

-- A custom encoding counts as equal whatever its well-known one is.
abbrev pose : DataTrackSchemaId
pose = record {
  name = "pose";
  encoding = record { well_known = SchemaFormat.other; custom = "cue" };
}

abbrev pose_again : DataTrackSchemaId
pose_again = record {
  name = "pose";
  encoding = record { well_known = SchemaFormat.protobuf; custom = "cue" };
}

schema_id_identity_example :
    ((same_schema_id pose pose_again ≡ true)
      ↔ (schema_id_to_proto pose ≡ schema_id_to_proto pose_again))
    × (same_schema_id (schema_id_from_proto (schema_id_to_proto pose)) pose ≡ true)
schema_id_identity_example = schema_id_identity pose pose_again

abbrev frame : DataTrackFrame
frame = record { payload = 1 ∷ 2 ∷ []; user_timestamp = some 7 }

abbrev queue_full : PushReply
queue_full = answers (some (ProtoTryPushErrorCode.queue_full, "full"))

try_push_carries_example :
    let (result, sent) = try_push 4 frame queue_full in
    ((frame.payload ≡ []) × (sent ≡ []) × (result ≡ PushResult.success))
    ⊎ ((m : ProtoFrame) × (frame.payload ≢ [])
        × (sent ≡ try_push_request 4 m ∷ [])
        × (from_owned_info m ≡ frame)
        × ((result ≡ PushResult.success) ↔ (queue_full ≡ answers none)))
try_push_carries_example = try_push_carries 4 frame queue_full (omega arith)

abbrev published : Publication
published = record {
  sid = "TR_1";
  name = "camera";
  kind = kind_video;
  has_source = true;
  muted = false;
  track = none;
  subscribed = false;
}

abbrev ann : Participant
ann = record {
  handle = 9;
  sid = "PA_1";
  name = "Ann";
  identity = "ann";
  metadata = "";
  attributes = [];
  kind = 0;
  reason = 0;
  publications =
      ("TR_1", published) ∷ ("TR_2", record published { sid = "TR_2"; kind = kind_audio }) ∷ [];
}

abbrev roster : Roster
roster = record {
  local_participant = none;
  remote_participants = ("ann", ann) ∷ [];
  room_metadata = "";
  room_sid = none;
}

snapshot_is_truncated : (remote_publications 1 roster).truncated ≡ true
unfolding remote_publications
snapshot_is_truncated = refl
