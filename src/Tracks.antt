-- ===== src/Tracks.antt =====
-- Tracks (src/track.cpp) and their making (src/local_audio_track.cpp, src/local_video_track.cpp,
-- src/remote_audio_track.cpp, src/remote_video_track.cpp). A handle 0 is not valid.
use client_sdk_cpp.Prelude.{
  ℕ, Bool, true, false, List, [], ◌∷◌, Option, none, some, String, if◌then◌else◌, ◌==◌,
}
use client_sdk_cpp.Conversions.{
  TrackKind, ProtoTrackKind, StreamState, ProtoStreamState, TrackSource, track_kind_from_proto,
  stream_state_from_proto,
}
use client_sdk_cpp.Native.{Reply, fails, lacks_part, answers, Done, returns, throws}

pub record Track : Type 0 where
  pub handle : ℕ
  pub sid : String
  pub name : String
  pub kind : TrackKind
  pub state : StreamState
  pub muted : Bool
  pub remote : Bool
  pub source : Option TrackSource
  pub simulcasted : Option Bool
  pub width : Option ℕ
  pub height : Option ℕ
  pub mime_type : Option String

-- `proto::OwnedTrack`
pub record OwnedTrack : Type 0 where
  pub handle : ℕ
  pub sid : String
  pub name : String
  pub kind : ProtoTrackKind
  pub stream_state : ProtoStreamState
  pub muted : Bool

-- What is read of a message that is missing.
abbrev pub default_track : OwnedTrack
default_track = record {
  handle = 0;
  sid = "";
  name = "";
  kind = ProtoTrackKind.unknown;
  stream_state = ProtoStreamState.unknown;
  muted = false;
}

pub data Request : Type 0 where
  -- The name and the source's handle.
  create_audio_track create_video_track : String → ℕ → Request
  local_track_mute : ℕ → Bool → Request

-- The constructors of all four classes.
unfoldable pub new_track : Bool → OwnedTrack → Track
new_track remote track = record {
  handle = track.handle;
  sid = track.sid;
  name = track.name;
  kind = track_kind_from_proto track.kind;
  state = stream_state_from_proto track.stream_state;
  muted = track.muted;
  remote = remote;
  source = none;
  simulcasted = none;
  width = none;
  height = none;
  mime_type = none;
}

abbrev pub created_audio : Reply OwnedTrack → Done Track
created_audio (fails e) = throws e
created_audio lacks_part = throws "create_audio_track response is missing track"
created_audio (answers track) = returns (new_track false track)

-- `createLocalAudioTrack`, from the handle of either kind of source; there may be none.
unfoldable pub create_local_audio_track :
    String → Option ℕ → Reply OwnedTrack → Done Track × List Request
create_local_audio_track name none r =
    (throws "LocalAudioTrack::createLocalAudioTrack: source is null", [])
create_local_audio_track name (some source) r =
    (created_audio r, create_audio_track name source ∷ [])

abbrev pub created_video : Reply OwnedTrack → Done Track
created_video (fails e) = throws e
created_video lacks_part = returns (new_track false default_track)
created_video (answers track) = returns (new_track false track)

-- `createLocalVideoTrack`, which asks neither for a source nor for the response's part.
unfoldable pub create_local_video_track : String → ℕ → Reply OwnedTrack → Done Track × List Request
create_local_video_track name source r = (created_video r, create_video_track name source ∷ [])

-- A request whose answer is not looked at either throws or does not.
abbrev pub muted_unless : Bool → Option String → Track → Done Track
muted_unless muted none t = returns (record t { muted = muted })
muted_unless muted (some e) t = throws e

abbrev pub set_mute : Bool → Option String → Track → Done Track × List Request
set_mute muted failure t =
    if t.handle == 0
    then (returns (record t { muted = muted }), [])
    else (muted_unless muted failure t, local_track_mute t.handle muted ∷ [])

unfoldable pub mute : Option String → Track → Done Track × List Request
mute = set_mute true

unfoldable pub unmute : Option String → Track → Done Track × List Request
unmute = set_mute false

unfoldable pub set_publication_fields :
    Option TrackSource → Option Bool → Option ℕ → Option ℕ → Option String → Track → Track
set_publication_fields source simulcasted width height mime_type t = record t {
  source = source;
  simulcasted = simulcasted;
  width = width;
  height = height;
  mime_type = mime_type;
}

-- The future of the statistics: one that is ready and empty, or the one of the request.
pub data StatsFuture : Type 0 where
  ready_empty : StatsFuture
  forwarded : ℕ → StatsFuture

unfoldable pub get_stats : Track → StatsFuture
get_stats t = if t.handle == 0 then ready_empty else forwarded t.handle
