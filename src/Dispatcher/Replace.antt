-- ===== src/Dispatcher/Replace.antt =====
-- Which reader a subscribed audio track gets in src/subscription_thread_dispatcher.cpp.
use client_sdk_cpp.Prelude.{ℕ, false, ◌∷◌, ◌++◌, none, some, leb, length, ◌≡◌, refl, arith, ◌<◌}
use client_sdk_cpp.Prelude.Assoc.{lookup, erase, nat_eq, string_eq, ◌==◌}
use client_sdk_cpp.Dispatcher.{
  Key, key_eq, Callback, kind_audio, ActiveReader, Dispatcher, max_active_readers, join, streams,
  start, extract_reader, start_audio_reader, start_reader, handle_track_subscribed,
}
use client_sdk_cpp.Prelude.Assoc.{length-erase-le, lookup-insert_self, lookup-insert, lookup-erase}
use client_sdk_cpp.Dispatcher.{ActiveReader}

-- Where an audio callback is registered, a stream can be opened and fewer than 20 audio and video
-- readers are active, a subscribed audio track gets a reader with a new thread that reads the new
-- stream for that callback. The reader that was there under the same key, if any, is replaced: its
-- streams are closed and a join waits for its thread. Other keys keep their readers.
handle_track_subscribed_replaces :
    (key other : Key) (stream : ℕ) (callback : Callback) (old : ActiveReader) (d : Dispatcher)
    → lookup key d.audio_callbacks ≡ some callback
    → lookup key d.active_readers ≡ some old
    → length d.active_readers < 20
    → (key == other) ≡ false
    → let d' = handle_track_subscribed key (some (kind_audio, some stream)) d in
      (lookup key d'.active_readers
        ≡ some (record {
          audio_stream = some stream;
          video_stream = none;
          callback = callback;
          thread = d.next_thread;
        }))
      × (d'.waits ≡ old.thread ∷ d.waits)
      × (d'.closed ≡ streams old ++ d.closed)
      × (lookup other d'.active_readers ≡ lookup other d.active_readers)
unfolding handle_track_subscribed start_reader start_audio_reader start extract_reader join
handle_track_subscribed_replaces key other stream callback old d registered active room distinct =
    let fits : leb max_active_readers (length (erase key d.active_readers)) ≡ false =
      ground (arith, length-erase-le key d.active_readers) in
    rw (registered, handle_track_subscribed, join, start_reader)
      (rw (active, start_audio_reader, extract_reader)
        (rw (fits, start_audio_reader)
          (
            lookup-insert_self key _ (erase key d.active_readers),
            refl,
            refl,
            rw
                (
                  lookup-insert key other _ (erase key d.active_readers),
                  lookup-erase key other d.active_readers,
                )
                (rw distinct),
          )))
