-- ===== src/Dispatcher/Closings/Calls.antt =====
-- The streams that are closed after any calls of src/subscription_thread_dispatcher.cpp.
use client_sdk_cpp.Prelude.{
  ℕ, true, List, [], ◌∷◌, ◌++◌, ◌+◌, none, some, ◌≡◌, refl, arith, Option-cases, inl, inr, if_rule,
  All, All-map,
}
use client_sdk_cpp.Prelude.Assoc.{lookup, insert, nat_eq, string_eq}
use client_sdk_cpp.Dispatcher.{
  Key, key_eq, Dispatcher, new_dispatcher, waits_for, join, join_end, set_on_audio_frame_callback,
  set_on_video_frame_callback, set_on_video_frame_event_callback, clear_on_audio_frame_callback,
  clear_on_video_frame_callback, handle_track_subscribed, handle_track_unsubscribed,
}
use client_sdk_cpp.Dispatcher.DataTracks.{
  add_on_data_frame_callback, remove_on_data_frame_callback, join_all, handle_data_track_published,
  taken_readers, data_streams, handle_data_track_unpublished, reader_values, all_streams, stop_all,
  subscribed, Call, sets_audio, sets_video, sets_video_event, clears_audio, clears_video,
  unsubscribes, subscribes, adds_data, removes_data, publishes, unpublishes, stops, subscribed_data,
  returns, running_step, has_any, step, run,
}
use client_sdk_cpp.Dispatcher.Closings.{
  Shut, closes_more, extract_reader-Shut, start_reader-Shut, extract_data_reader-Shut,
  start_data_reader-Shut, start_all-Shut,
}
use client_sdk_cpp.Dispatcher.Reads.{ActiveOrClosed, reads_now-all, waits_for-left, waits_for-right}

add_data-Shut :
    (key : Key) (cb : ℕ) (d : Dispatcher) → Shut d → Shut (add_on_data_frame_callback key cb d).1
unfolding add_on_data_frame_callback join
add_data-Shut key cb d s =
    let registered : Dispatcher = record d {
      next_data_callback_id = d.next_data_callback_id + 1;
      data_callbacks =
          insert d.next_data_callback_id (record { key = key; callback = cb }) d.data_callbacks;
    } in
    let shut = closes_more [] d registered refl refl refl s in
    elim (Option-cases (lookup key d.remote_data_tracks)) [
      | inl e ↦ rw (e, add_on_data_frame_callback) shut
      | inr (track, e) ↦
          rw (e, add_on_data_frame_callback)
            (closes_more [] _ _ refl refl refl
              (start_data_reader-Shut d.next_data_callback_id track cb registered shut))
    ]

-- Every stream that a thread was started to read.
pub stop_all-closed :
    (d : Dispatcher) → Shut d → All (λ (t, s). waits_for s (stop_all d).closed ≡ true) d.reads
unfolding stop_all join_all
stop_all-closed d v =
    let held = all_streams (reader_values d.active_readers) in
    let held_data = data_streams (reader_values d.active_data_readers) in
    All-map (ActiveOrClosed d.active_readers d.closed)
      (λ (t, s). waits_for s (held_data ++ (held ++ d.closed)) ≡ true) d.reads
      (λ x h. ground (
        arith,
        reads_now-all x.0 x.1 d.active_readers,
        waits_for-right x.1 held_data (held ++ d.closed),
        waits_for-left x.1 held d.closed,
        waits_for-right x.1 held d.closed,
      ))
      v.each

stop_all-Shut : (d : Dispatcher) → Shut d → Shut (stop_all d)
unfolding stop_all join_all
stop_all-Shut d v = record {
  distinct = tt;
  each =
      All-map (λ (t, s). waits_for s (stop_all d).closed ≡ true)
        (ActiveOrClosed [] (stop_all d).closed) d.reads (λ x h. inr h) (stop_all-closed d v);
}

running_step-Shut : (d : Dispatcher) (x : Call) → Shut d → Shut (running_step d x)
unfolding running_step set_on_audio_frame_callback set_on_video_frame_callback
    set_on_video_frame_event_callback clear_on_audio_frame_callback clear_on_video_frame_callback
    handle_track_subscribed handle_track_unsubscribed remove_on_data_frame_callback
    handle_data_track_published handle_data_track_unpublished subscribed join join_all join_end
running_step-Shut d (sets_audio key cb) s = closes_more [] d _ refl refl refl s
running_step-Shut d (sets_video key cb) s = closes_more [] d _ refl refl refl s
running_step-Shut d (sets_video_event key cb) s = closes_more [] d _ refl refl refl s
running_step-Shut d (clears_audio key) s =
    closes_more [] _ _ refl refl refl
      (extract_reader-Shut key _ (closes_more [] d _ refl refl refl s)).0
running_step-Shut d (clears_video key) s =
    closes_more [] _ _ refl refl refl
      (extract_reader-Shut key _ (closes_more [] d _ refl refl refl s)).0
running_step-Shut d (unsubscribes key) s =
    closes_more [] _ _ refl refl refl (extract_reader-Shut key d s).0
running_step-Shut d (subscribes key none) s = s
running_step-Shut d (subscribes key (some (kind, from_track))) s =
    closes_more [] _ _ refl refl refl (start_reader-Shut key kind from_track d s)
running_step-Shut d (adds_data key cb) s = add_data-Shut key cb d s
running_step-Shut d (removes_data id) s =
    closes_more [] _ _ refl refl refl
      (extract_data_reader-Shut id _ (closes_more [] d _ refl refl refl s))
running_step-Shut d (publishes none) s = s
running_step-Shut d (publishes (some track)) s =
    closes_more [] _ _ refl refl refl
      (start_all-Shut _ track d.data_callbacks _ (closes_more [] d _ refl refl refl s))
running_step-Shut d (unpublishes sid) s =
    closes_more (data_streams (taken_readers sid d.active_data_readers)) d _ refl refl refl s
running_step-Shut d stops s = stop_all-Shut d s
running_step-Shut d (subscribed_data t stream) s = closes_more [] d _ refl refl refl s
running_step-Shut d (returns t) s =
    if_rule {A = Dispatcher} Shut (waits_for t d.waits) (λ h. closes_more [] d _ refl refl refl s)
      (λ h. s)

step-Shut : (d : Dispatcher) (x : Call) → Shut d → Shut (step d x)
unfolding step
step-Shut d x s =
    if_rule {A = Dispatcher} Shut (has_any d.abandoned) (λ h. s) (λ h. running_step-Shut d x s)

pub run-Shut : (calls : List Call) (d : Dispatcher) → Shut d → Shut (run d calls)
unfolding run
run-Shut [] d s = s
run-Shut (x ∷ calls) d s = run-Shut calls (step d x) (step-Shut d x s)

pub new-Shut : Shut new_dispatcher
new-Shut = record { distinct = tt; each = tt }
