-- ===== src/Tests/Participants.antt =====
-- Examples for src/local_participant.cpp, src/remote_track_publication.cpp,
-- src/fresh_audio_stream.cpp, src/audio_source.cpp and src/room_proto_converter.cpp.
use client_sdk_cpp.Prelude.{
  ◌-◌, ◌+◌, ◌≤◌, some, true, false, List, [], ◌∷◌, none, ◌≡◌, ◌⊎◌, refl, arith,
}
use client_sdk_cpp.Prelude.Assoc.{lookup, insert, erase, string_eq}
use client_sdk_cpp.Dispatcher.{kind_video}
use client_sdk_cpp.LocalParticipant.{
  returns, throws, Response, LocalParticipant, Step, arrives, handles, sends, leaves,
  begins_shutdown, ends_shutdown, run, step, arrive, handle_done, send, leave, shutdown_begin,
  shutdown_end,
}
use client_sdk_cpp.LocalParticipant.Answers.{caller_sees, expected, invocation_answered}
use client_sdk_cpp.LocalParticipant.Quiet.{no_response_after_shutdown}
use client_sdk_cpp.LocalParticipant.Publications.{
  LocalTrack, Publications, gives, publish_track, unpublish_track, find_track_publication,
}
use client_sdk_cpp.LocalParticipant.Publications.Lifecycle.{published_twice}
use client_sdk_cpp.RemotePublication.{RemoteTrackPublication, by_default, high}
use client_sdk_cpp.PublishOptions.{TrackPublishOptions}
use client_sdk_cpp.AudioSource.{AudioSource, Reply, queued_duration, reset_queue_tracking}
use client_sdk_cpp.AudioSource.Queue.{Capture, backlog, busy, queued_duration_tracks}
use client_sdk_cpp.AudioSource.Queue
use client_sdk_cpp.FreshAudioStream.{NativeFreshAudioInfo, Read, one_frame, new_stream, deliveries}
use client_sdk_cpp.FreshAudioStream.Fresh.{AllFresh, deliveries_fresh}

abbrev participant : LocalParticipant
participant = record {
  handle = 3;
  rpc_handlers = ("greet", 1) ∷ [];
  shutting_down = false;
  active_invocations = 0;
  invocations = [];
  sent = [];
  unregistered = [];
}

abbrev before : List Step
before =
    arrives 1 "greet"
    ∷ begins_shutdown
    ∷ handles 1 (returns none)
    ∷ sends 1
    ∷ leaves 1
    ∷ ends_shutdown
    ∷ []

abbrev after : List Step
after = arrives 2 "greet" ∷ handles 2 (throws "late") ∷ sends 2 ∷ []

no_response_after_shutdown_example :
    (run after (run before participant)).sent ≡ (run before participant).sent
unfolding step arrive handle_done send leave shutdown_begin shutdown_end lookup insert erase
no_response_after_shutdown_example =
    no_response_after_shutdown before after participant (omega arith) refl refl

invocation_answered_example :
    let p =
      run (arrives 1 "greet" ∷ handles 1 (throws "no") ∷ sends 1 ∷ leaves 1 ∷ []) participant in
    (response : Response) × (p.sent ≡ (1, response) ∷ [])
    × (caller_sees response ≡ expected (lookup "greet" participant.rpc_handlers) (throws "no"))
    × (p.active_invocations ≡ 0)
    × (p.invocations ≡ [])
unfolding lookup
invocation_answered_example = invocation_answered 1 "greet" (throws "no") participant refl refl

abbrev camera : RemoteTrackPublication
camera = record {
  handle = 5;
  kind = kind_video;
  simulcasted = true;
  has_track = true;
  subscribed = true;
  enabled = true;
  video_preference = by_default;
  video_quality = high;
  requested_width = 0;
  requested_height = 0;
}

abbrev info : NativeFreshAudioInfo
info = record {
  sequence = 4;
  age_us = 20;
  received = 4;
  dropped = 0;
  stale = 0;
  invalid = 0;
  queued = 0;
  discontinuity = 0;
}

abbrev reads : List Read
reads =
    (record {
      thread = 1;
      maximum_age_us = 60000;
      result = one_frame;
      info = info;
      started = 1000;
      finished = 5000;
    })
    ∷ []

deliveries_fresh_example : AllFresh 0 (deliveries reads (new_stream 1))
deliveries_fresh_example =
    deliveries_fresh reads (new_stream 1) ((omega arith, omega arith, omega arith), tt)

abbrev song : LocalTrack
song = record { handle = 9; alive = true; publishes = true; publication = none }

abbrev song_once : LocalTrack
song_once = record { handle = 9; alive = true; publishes = true; publication = some "TR_A" }

abbrev publisher : Publications
publisher = record { handle = 3; published_tracks_by_sid = []; tracks = (1, song) ∷ [] }

published_twice_example :
    let p1 = (publish_track (some (1, song)) (gives "TR_A") publisher).1 in
    let p2 = (publish_track (some (1, song_once)) (gives "TR_B") p1).1 in
    let p3 = (unpublish_track "TR_A" (gives "TR_A") p2).1 in
    (find_track_publication "TR_A" p1 ≡ (some "TR_A", p1))
    × (find_track_publication "TR_B" p2 ≡ (some "TR_B", p2))
    × ((find_track_publication "TR_A" p3).0 ≡ none)
    × ((find_track_publication "TR_B" p3).0 ≡ none)
    × (lookup "TR_B" p3.published_tracks_by_sid ≡ some 1)
published_twice_example =
    published_twice "TR_A" "TR_B" 1 song publisher refl refl refl refl refl refl

abbrev options : TrackPublishOptions
options = record {
  video_encoding = some (record { max_bitrate = 2000; max_framerate = 30 });
  audio_encoding = none;
  video_codec = some 1;
  dtx = none;
  red = none;
  simulcast = some true;
  source = some 1;
  stream = some "camera";
  preconnect_buffer = none;
  frame_metadata_features =
      some (record { user_timestamp = true; frame_id = false; user_data = false });
  packet_trailer_features = record { user_timestamp = false; frame_id = true; user_data = false };
  video_encoder = none;
  degradation_preference = none;
  stereo = none;
}

abbrev source : AudioSource
source = record {
  handle = some 5;
  queue_size_ms = 100;
  sample_time = 2;
  last_capture = 0;
  q_size = 0;
}

-- The third capture comes after the queue has run dry.
abbrev captures : List Capture
captures =
    record { pause = 0; samples = 10; timeout = 0; reply = Reply.complete }
    ∷ record { pause = 5; samples = 10; timeout = 20; reply = Reply.late }
    ∷ record { pause = 90; samples = 10; timeout = 0; reply = Reply.fails "closed" }
    ∷ []

queued_duration_tracks_example :
    let (s', now') = Queue.run captures 1000 (reset_queue_tracking source) in
    let left = backlog 2 captures 0 - 3 in
    (queued_duration s' (now' + 3) ≤ left)
    × ((busy 2 captures 0 ≡ false) ⊎ (queued_duration s' (now' + 3) ≡ left))
queued_duration_tracks_example = queued_duration_tracks 5 1000 3 captures source (omega arith) refl
