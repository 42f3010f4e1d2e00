-- ===== src/Dispatcher/Accounts.antt =====
-- Where the reader threads of src/subscription_thread_dispatcher.cpp are, after any calls and after
-- `stopAll`.
use client_sdk_cpp.Prelude.{
  ℕ, true, List, [], ◌∷◌, none, some, if◌then◌else◌, ltb, ◌+◌, String, ◌≡◌, refl, arith,
  Option-cases, inl, inr, if_rule, All, ◌++◌,
}
use client_sdk_cpp.Prelude.Assoc.{lookup, insert, nat_eq, string_eq}
use client_sdk_cpp.Dispatcher.{
  Key, key_eq, Callback, RegisteredDataCallback, DataTrack, Dispatcher, new_dispatcher,
  set_on_audio_frame_callback, set_on_video_frame_callback, set_on_video_frame_event_callback,
  clear_on_audio_frame_callback, clear_on_video_frame_callback, handle_track_subscribed,
  handle_track_unsubscribed, waits_for, join_end,
}
use client_sdk_cpp.Dispatcher.DataTracks.{
  add_on_data_frame_callback, remove_on_data_frame_callback, join_all, handle_data_track_published,
  data_threads, handle_data_track_unpublished, reader_values, threads, stop_all, all_streams,
  data_streams, subscribed, Call, sets_audio, sets_video, sets_video_event, clears_audio,
  clears_video, unsubscribes, subscribes, adds_data, removes_data, publishes, unpublishes, stops,
  subscribed_data, returns, running_step, has_any, step, run,
}
use client_sdk_cpp.Dispatcher.Counts.{
  count, count-append, count-remove_one, data_count-keep, keep-Distinct, data_count-set_stream,
  set_stream-Distinct,
}
use client_sdk_cpp.Dispatcher.Abandons.{Opens, run_keeps}
use client_sdk_cpp.Dispatcher.Closings.Calls.{stop_all-closed, run-Shut, new-Shut}
use client_sdk_cpp.Dispatcher.Threads.{
  Sound, join-Sound, join_all-Sound, extract_reader-Sound, start_reader-Sound,
  extract_data_reader-Sound, start_data_reader-Sound, start_all-Sound, unpad,
}

subscribed-Sound : (t stream : ℕ) (d : Dispatcher) → Sound [] d → Sound [] (subscribed t stream d)
unfolding subscribed
subscribed-Sound t stream d s = record {
  distinct_readers = s.distinct_readers;
  distinct_data = set_stream-Distinct t stream d.active_data_readers s.distinct_data;
  each = λ u. ground (arith, s.each u, data_count-set_stream u t stream d.active_data_readers);
}

unpublished-Sound :
    (sid : String) (d : Dispatcher) → Sound [] d → Sound [] (handle_data_track_unpublished sid d)
unfolding handle_data_track_unpublished
unpublished-Sound sid d s = join_all-Sound _ _ (record {
  distinct_readers = s.distinct_readers;
  distinct_data = keep-Distinct sid d.active_data_readers s.distinct_data;
  each = λ t. ground (arith, s.each t, data_count-keep t sid d.active_data_readers);
})

stop_all-Sound : (d : Dispatcher) → Sound [] d → Sound [] (stop_all d)
unfolding stop_all
stop_all-Sound d s = join_all-Sound _ _ (record {
  distinct_readers = tt;
  distinct_data = tt;
  each = λ t. ground (
    arith,
    s.each t,
    count-append t (threads (reader_values d.active_readers))
        (data_threads (reader_values d.active_data_readers)),
  );
})

-- The maps of the callbacks do not count.
callbacks-Sound :
    {held : List ℕ} (d : Dispatcher) (audios videos : List (Key × Callback))
    (tracks : List (Key × DataTrack)) (callbacks : List (ℕ × RegisteredDataCallback)) (next : ℕ)
    → Sound held d
    → Sound held (record d {
      audio_callbacks = audios;
      video_callbacks = videos;
      remote_data_tracks = tracks;
      data_callbacks = callbacks;
      next_data_callback_id = next;
    })
callbacks-Sound d audios videos tracks callbacks next s = record {
  distinct_readers = s.distinct_readers;
  distinct_data = s.distinct_data;
  each = s.each;
}

add_data-Sound :
    (key : Key) (cb : ℕ) (d : Dispatcher)
    → Sound [] d
    → Sound [] (add_on_data_frame_callback key cb d).1
unfolding add_on_data_frame_callback
add_data-Sound key cb d s =
    let id = d.next_data_callback_id in
    let registered =
      callbacks-Sound d d.audio_callbacks d.video_callbacks d.remote_data_tracks
        (insert id (record { key = key; callback = cb }) d.data_callbacks) (id + 1) s in
    elim (Option-cases (lookup key d.remote_data_tracks)) [
      | inl e ↦ rw (e, add_on_data_frame_callback) registered
      | inr (track, e) ↦
          rw (e, add_on_data_frame_callback)
            (join-Sound _ _ (unpad _ _ (start_data_reader-Sound id track cb [] _ registered)))
    ]

join_end-Sound : (t : ℕ) (d : Dispatcher) → Sound [] d → Sound [] (join_end t d)
unfolding join_end
join_end-Sound t d s =
    if_rule {A = Dispatcher} (Sound []) (waits_for t d.waits)
      (λ h. record {
        distinct_readers = s.distinct_readers;
        distinct_data = s.distinct_data;
        each = λ u. ground (arith, s.each u, count-remove_one u t d.waits h);
      })
      (λ h. s)

running_step-Sound : (d : Dispatcher) (x : Call) → Sound [] d → Sound [] (running_step d x)
unfolding running_step set_on_audio_frame_callback set_on_video_frame_callback
    set_on_video_frame_event_callback clear_on_audio_frame_callback clear_on_video_frame_callback
    handle_track_subscribed handle_track_unsubscribed remove_on_data_frame_callback
    handle_data_track_published
running_step-Sound d (sets_audio key cb) s = callbacks-Sound d _ _ _ _ _ s
running_step-Sound d (sets_video key cb) s = callbacks-Sound d _ _ _ _ _ s
running_step-Sound d (sets_video_event key cb) s = callbacks-Sound d _ _ _ _ _ s
running_step-Sound d (clears_audio key) s =
    join-Sound _ _ (extract_reader-Sound key _ (callbacks-Sound d _ _ _ _ _ s)).0
running_step-Sound d (clears_video key) s =
    join-Sound _ _ (extract_reader-Sound key _ (callbacks-Sound d _ _ _ _ _ s)).0
running_step-Sound d (unsubscribes key) s = join-Sound _ _ (extract_reader-Sound key d s).0
running_step-Sound d (subscribes key none) s = s
running_step-Sound d (subscribes key (some (kind, from_track))) s =
    join-Sound _ _ (start_reader-Sound key kind from_track d s)
running_step-Sound d (adds_data key cb) s = add_data-Sound key cb d s
running_step-Sound d (removes_data id) s =
    join-Sound _ _ (unpad _ _ (extract_data_reader-Sound id [] _ (callbacks-Sound d _ _ _ _ _ s)).0)
running_step-Sound d (publishes none) s = s
running_step-Sound d (publishes (some track)) s =
    join_all-Sound _ _
      (unpad _ _ (start_all-Sound _ track d.data_callbacks [] _ (callbacks-Sound d _ _ _ _ _ s)))
running_step-Sound d (unpublishes sid) s = unpublished-Sound sid d s
running_step-Sound d stops s = stop_all-Sound d s
running_step-Sound d (subscribed_data t stream) s = subscribed-Sound t stream d s
running_step-Sound d (returns t) s = join_end-Sound t d s

step-Sound : (d : Dispatcher) (x : Call) → Sound [] d → Sound [] (step d x)
unfolding step
step-Sound d x s =
    if_rule {A = Dispatcher} (Sound []) (has_any d.abandoned) (λ h. s)
      (λ h. running_step-Sound d x s)

new-Sound : Sound [] new_dispatcher
new-Sound = record { distinct_readers = tt; distinct_data = tt; each = λ t. ground arith }

run-Sound : (d : Dispatcher) (calls : List Call) → Sound [] d → Sound [] (run d calls)
unfolding run
run-Sound d [] s = s
run-Sound d (x ∷ calls) s = run-Sound (step d x) calls (step-Sound d x s)

pub threads_accounted :
    (calls : List Call) (t : ℕ)
    → let d = run new_dispatcher calls in
      (count t (threads (reader_values d.active_readers))
          + (count t (data_threads (reader_values d.active_data_readers))
              + (count t d.waits + (count t d.joined + count t d.abandoned)))
        ≡ (if ltb t d.next_thread then 1 else 0))
      × (All Opens calls → d.abandoned ≡ [])
threads_accounted calls t = (
  omega (arith, (run-Sound new_dispatcher calls new-Sound).each t),
  (λ h. run_keeps calls new_dispatcher h),
)

-- `stopAll`, after any calls on a new dispatcher that left the program running, leaves no reader,
-- callback or data track. Then every thread that was started was joined or is waited for, exactly one of
-- these and once. Each stream that an active reader held was closed before the waits, as often as readers
-- held it, and no other; and every stream that the thread of an audio or video reader was ever started
-- to read is closed.
pub stop_all_joins :
    (calls : List Call) (t stream : ℕ)
    → (run new_dispatcher calls).abandoned ≡ []
    → let d = run new_dispatcher calls in
      let stopped = stop_all d in
      (stopped.active_readers ≡ [])
      × (stopped.active_data_readers ≡ [])
      × (stopped.audio_callbacks ≡ [])
      × (stopped.video_callbacks ≡ [])
      × (stopped.data_callbacks ≡ [])
      × (stopped.remote_data_tracks ≡ [])
      × (count t stopped.waits + count t stopped.joined ≡ (if ltb t d.next_thread then 1 else 0))
      × (count stream stopped.closed
          ≡ count stream (all_streams (reader_values d.active_readers))
            + (count stream (data_streams (reader_values d.active_data_readers))
                + count stream d.closed))
      × All (λ (t', s'). waits_for s' stopped.closed ≡ true) d.reads
unfolding stop_all join_all
stop_all_joins calls t stream runs =
    let d = run new_dispatcher calls in
    let s = stop_all-Sound _ (run-Sound new_dispatcher calls new-Sound) in
    let held = all_streams (reader_values d.active_readers) in
    let held_data = data_streams (reader_values d.active_data_readers) in
    (
      refl,
      refl,
      refl,
      refl,
      refl,
      refl,
      ground (arith, s.each t, runs),
      omega (
        arith,
        count-append stream held_data (held ++ d.closed),
        count-append stream held d.closed,
      ),
      stop_all-closed d (run-Shut calls new_dispatcher new-Shut),
    )
