-- ===== src/Tests/Streams.antt =====
-- Examples for src/video_stream.cpp, src/audio_stream.cpp and src/data_track_stream.cpp.
use client_sdk_cpp.Prelude.{
  ℕ, true, false, List, [], ◌∷◌, none, some, ◌≡◌, refl, arith, if◌then◌else◌,
}
use client_sdk_cpp.MediaStream.{
  MediaStream, Call, event, reads, closes, stream_event, frame_received, run,
}
use client_sdk_cpp.MediaStream.Ring.{arrivals, run-arrivals, keep_last}
use client_sdk_cpp.MediaStream.Release.{drops, removals, run_releases_once}
use client_sdk_cpp.DataTrackStream.{
  DataTrackStream, Error, timeout, stream_event as track_event, frame_received as track_frame,
}
use client_sdk_cpp.DataTrackStream.Demand.{Session}

abbrev stream : MediaStream ℕ
stream = record {
  queue = 1 ∷ [];
  capacity = 2;
  eof = false;
  closed = false;
  stream_handle = 7;
  listener_id = 3;
}

abbrev calls : List (Call ℕ)
calls =
    event (stream_event 7 (frame_received 2))
    ∷ event (stream_event 7 (frame_received 4))
    ∷ reads
    ∷ closes
    ∷ closes
    ∷ []

run-arrivals_example : (run stream (arrivals 7 (2 ∷ 3 ∷ []))).1.queue ≡ keep_last 2 (1 ∷ 2 ∷ 3 ∷ [])
run-arrivals_example = run-arrivals (2 ∷ 3 ∷ []) stream (omega arith) (omega arith) refl refl

run_releases_once_example :
    let (out, s, fx) = run stream calls in
    let n : ℕ = if s.closed then 1 else 0 in (drops 7 fx ≡ n) × (removals 3 fx ≡ n)
run_releases_once_example = run_releases_once stream calls (omega arith) (omega arith) refl

abbrev shut : MediaStream ℕ
shut = record stream { closed = true }

abbrev finished : MediaStream ℕ
finished = record stream { eof = true }

abbrev track : DataTrackStream ℕ
track = record {
  frame = none;
  eof = false;
  closed = false;
  terminal_error = none;
  subscription_handle = 9;
  listener_id = some 4;
}

abbrev late : Error
late = record { code = timeout; message = "late" }

abbrev session : Session ℕ
session = record { stream = track; reading = false; demand = 0 }
