-- ===== src/Tests/Dispatchers.antt =====
-- Examples for src/subscription_thread_dispatcher.cpp.
use client_sdk_cpp.Prelude.{
  ℕ, true, false, List, [], ◌∷◌, none, some, ◌≡◌, ◌+◌, All, ltb, if◌then◌else◌, inr, refl, arith,
}
use client_sdk_cpp.Dispatcher.{
  Key, key_eq, audio, kind_audio, ActiveReader, Dispatcher, new_dispatcher, waits_for,
}
use client_sdk_cpp.Dispatcher.DataTracks.{
  Call, sets_audio, subscribes, adds_data, publishes, removes_data, run, stop_all, reader_values,
  returns, all_streams, data_streams,
}
use client_sdk_cpp.Dispatcher.Counts.{count}
use client_sdk_cpp.MediaStream.{stream_event, frame_received}
use client_sdk_cpp.Dispatcher.Loops.{
  Loop, Step, turns, arrives, returned, standard_exception, loop_steps,
}
use client_sdk_cpp.Dispatcher.Loops.Ending.{reader_returns}
use client_sdk_cpp.Dispatcher.Loops.Hearing.{reader_finishes}
use client_sdk_cpp.Dispatcher.Accounts.{threads_accounted, stop_all_joins}

abbrev mic : Key
mic = record { participant_identity = "alice"; track_name = "mic" }

abbrev screen : Key
screen = record { participant_identity = "alice"; track_name = "screen" }

abbrev calls : List Call
calls =
    sets_audio mic 1
    ∷ subscribes mic (some (kind_audio, some 5))
    ∷ adds_data screen 2
    ∷ publishes (some (record { publisher_identity = "alice"; name = "screen"; sid = "x" }))
    ∷ subscribes mic (some (kind_audio, some 6))
    ∷ returns 0
    ∷ removes_data 0
    ∷ []

stop_all_joins_example :
    let d = run new_dispatcher calls in
    let stopped = stop_all d in
    (stopped.active_readers ≡ [])
    × (stopped.active_data_readers ≡ [])
    × (stopped.audio_callbacks ≡ [])
    × (stopped.video_callbacks ≡ [])
    × (stopped.data_callbacks ≡ [])
    × (stopped.remote_data_tracks ≡ [])
    × (count 1 stopped.waits + count 1 stopped.joined ≡ (if ltb 1 d.next_thread then 1 else 0))
    × (count 6 stopped.closed
        ≡ count 6 (all_streams (reader_values d.active_readers))
          + (count 6 (data_streams (reader_values d.active_data_readers)) + count 6 d.closed))
    × All (λ (t', s'). waits_for s' stopped.closed ≡ true) d.reads
stop_all_joins_example =
    stop_all_joins calls 1 6
      ((threads_accounted calls 1).1 (tt, (tt, (tt, (tt, (tt, (tt, (tt, tt))))))))

abbrev old : ActiveReader
old = record { audio_stream = some 5; video_stream = none; callback = audio 1; thread = 0 }

abbrev running : Dispatcher
running = record new_dispatcher {
  audio_callbacks = (mic, audio 1) ∷ [];
  active_readers = (mic, old) ∷ [];
  next_thread = 1;
}

-- One frame was heard, two are queued, and the stream has ended.
abbrev ended_loop : Loop ℕ
ended_loop = record {
  stream = record {
    queue = 7 ∷ 8 ∷ [];
    capacity = 0;
    eof = true;
    closed = false;
    stream_handle = 5;
    listener_id = 3;
  };
  running = true;
  heard = 1 ∷ [];
}

reader_returns_example :
    (loop_steps
      (turns standard_exception ∷ Step.closes ∷ turns returned ∷ turns returned ∷ [])
      ended_loop).running
    ≡ false
reader_returns_example =
    reader_returns (turns standard_exception ∷ Step.closes ∷ turns returned ∷ turns returned ∷ [])
      ended_loop (inr (refl, omega arith))

abbrev quiet_steps : List (Step ℕ)
quiet_steps =
    turns standard_exception
    ∷ arrives (stream_event 5 (frame_received 9))
    ∷ turns returned
    ∷ turns returned
    ∷ []

reader_finishes_example :
    ((loop_steps quiet_steps ended_loop).running ≡ false)
    × ((loop_steps quiet_steps ended_loop).heard ≡ 1 ∷ 7 ∷ 8 ∷ [])
reader_finishes_example =
    reader_finishes quiet_steps ended_loop refl refl refl
      ((λ h. absurd cc), (tt, ((λ h. absurd cc), ((λ h. absurd cc), tt)))) (omega arith)
