-- ===== src/Dispatcher/Limit.antt =====
-- How many readers src/subscription_thread_dispatcher.cpp lets run.
use client_sdk_cpp.Prelude.{
  ℕ, false, List, [], ◌∷◌, Option, none, some, leb, length, ◌+◌, String, ◌≡◌, refl, arith,
  Option-cases, inl, inr, if_rule,
}
use client_sdk_cpp.Prelude.Assoc.{lookup, nat_eq, string_eq, ◌==◌}
use client_sdk_cpp.Dispatcher.{
  Key, key_eq, Callback, RegisteredDataCallback, TrackKind, kind_audio, kind_video, kind_unknown,
  kind_unsupported, DataTrack, ActiveDataReader, Dispatcher, new_dispatcher, max_active_readers,
  join, join_end, start, extract_reader, from_track_throws, start_audio_reader, start_video_reader,
  start_reader, set_on_audio_frame_callback, set_on_video_frame_callback,
  set_on_video_frame_event_callback, clear_on_audio_frame_callback, clear_on_video_frame_callback,
  handle_track_subscribed, handle_track_unsubscribed,
}
use client_sdk_cpp.Dispatcher.DataTracks.{
  extract_data_reader, start_data_reader, add_on_data_frame_callback, remove_on_data_frame_callback,
  start_all, join_all, handle_data_track_published, keep_readers, handle_data_track_unpublished,
  stop_all, set_stream, subscribed, Call, sets_audio, sets_video, sets_video_event, clears_audio,
  clears_video, unsubscribes, subscribes, adds_data, removes_data, publishes, unpublishes, stops,
  subscribed_data, returns, running_step, has_any, step, run,
}
use client_sdk_cpp.Prelude.{◌≤◌}
use client_sdk_cpp.Prelude.Assoc.{length-insert-le, length-erase-le}

-- The two maps hold at most `max_active_readers` readers each.
abbrev pub Within : Dispatcher → Type 0
Within d =
    (length d.active_readers ≤ max_active_readers)
    × (length d.active_data_readers ≤ max_active_readers)

extract_reader-Within : (key : Key) (d : Dispatcher) → Within d → Within (extract_reader key d).1
unfolding extract_reader
extract_reader-Within key d w = ground (arith, length-erase-le key d.active_readers)

extract_data_reader-Within :
    (id : ℕ) (d : Dispatcher) → Within d → Within (extract_data_reader id d).1
unfolding extract_data_reader
extract_data_reader-Within id d w = ground (arith, length-erase-le id d.active_data_readers)

length-keep :
    (sid : String) (m : List (ℕ × ActiveDataReader)) → length (keep_readers sid m) ≤ length m
length-keep sid [] = omega arith
length-keep sid ((j, s) ∷ m) = ground (arith, length-keep sid m)

length-set_stream :
    (t stream : ℕ) (m : List (ℕ × ActiveDataReader)) → length (set_stream t stream m) ≡ length m
length-set_stream t stream [] = refl
length-set_stream t stream ((j, s) ∷ m) = ground (arith, length-set_stream t stream m)

start-Within :
    (key : Key) (a v : Option ℕ) (callback : Callback) (d : Dispatcher)
    → Within d
    → leb max_active_readers (length d.active_readers) ≡ false
    → Within (start key a v callback d)
unfolding start
start-Within key a v callback d w free = ground (
  arith,
  length-insert-le key
      (record { audio_stream = a; video_stream = v; callback = callback; thread = d.next_thread })
      d.active_readers,
)

start_audio_reader-Within :
    (key : Key) (from_track : Option ℕ) (callback : Callback) (d : Dispatcher)
    → Within d
    → Within (start_audio_reader key from_track callback d).1
unfolding start_audio_reader from_track_throws
start_audio_reader-Within key none callback d w =
    let (thread, d') = extract_reader key d in
    let within = extract_reader-Within key d w in
    if_rule {A = Option ℕ × Dispatcher} (λ p. Within p.1)
      (leb max_active_readers (length d'.active_readers)) (λ h. within) (λ h. within)
start_audio_reader-Within key (some stream) callback d w =
    let (thread, d') = extract_reader key d in
    let within = extract_reader-Within key d w in
    if_rule {A = Option ℕ × Dispatcher} (λ p. Within p.1)
      (leb max_active_readers (length d'.active_readers)) (λ h. within)
      (λ h. start-Within key (some stream) none callback d' within h)

start_video_reader-Within :
    (key : Key) (from_track : Option ℕ) (callback : Callback) (d : Dispatcher)
    → Within d
    → Within (start_video_reader key from_track callback d).1
unfolding start_video_reader from_track_throws
start_video_reader-Within key none callback d w =
    let (thread, d') = extract_reader key d in
    let within = extract_reader-Within key d w in
    if_rule {A = Option ℕ × Dispatcher} (λ p. Within p.1)
      (leb max_active_readers (length d'.active_readers)) (λ h. within) (λ h. within)
start_video_reader-Within key (some stream) callback d w =
    let (thread, d') = extract_reader key d in
    let within = extract_reader-Within key d w in
    if_rule {A = Option ℕ × Dispatcher} (λ p. Within p.1)
      (leb max_active_readers (length d'.active_readers)) (λ h. within)
      (λ h. start-Within key none (some stream) callback d' within h)

start_reader-Within :
    (key : Key) (kind : TrackKind) (from_track : Option ℕ) (d : Dispatcher)
    → Within d
    → Within (start_reader key kind from_track d).1
unfolding start_reader
start_reader-Within key kind_audio from_track d w =
    elim (Option-cases (lookup key d.audio_callbacks)) [
      | inl e ↦ rw (e, start_reader) w
      | inr (callback, e) ↦
          rw (e, start_reader) (start_audio_reader-Within key from_track callback d w)
    ]
start_reader-Within key kind_video from_track d w =
    elim (Option-cases (lookup key d.video_callbacks)) [
      | inl e ↦ rw (e, start_reader) w
      | inr (callback, e) ↦
          rw (e, start_reader) (start_video_reader-Within key from_track callback d w)
    ]
start_reader-Within key kind_unknown from_track d w = w
start_reader-Within key kind_unsupported from_track d w = w

start_data_reader-Within :
    (id : ℕ) (track : DataTrack) (cb : ℕ) (d : Dispatcher)
    → Within d
    → Within (start_data_reader id track cb d).1
unfolding start_data_reader
start_data_reader-Within id track cb d w =
    let (thread, d') = extract_data_reader id d in
    let within = extract_data_reader-Within id d w in
    if_rule {A = Option ℕ × Dispatcher} (λ p. Within p.1)
      (leb max_active_readers (length d'.active_readers + length d'.active_data_readers))
      (λ h. within)
      (λ h. ground (
        arith,
        length-insert-le id
            (record {
              remote_track = track;
              stream = none;
              data_callback = cb;
              thread = d'.next_thread;
            })
            d'.active_data_readers,
      ))

start_all-Within :
    (key : Key) (track : DataTrack) (callbacks : List (ℕ × RegisteredDataCallback)) (d : Dispatcher)
    → Within d
    → Within (start_all key track callbacks d).1
unfolding start_all
start_all-Within key track [] d w = w
start_all-Within key track ((id, reg) ∷ callbacks) d w = start_all-Within key track callbacks _ (
    if_rule {A = Option ℕ × Dispatcher} (λ p. Within p.1) (reg.key == key)
      (λ h. start_data_reader-Within id track reg.callback d w) (λ h. w))

add_data-Within :
    (key : Key) (cb : ℕ) (d : Dispatcher)
    → Within d
    → Within (add_on_data_frame_callback key cb d).1
unfolding add_on_data_frame_callback join
add_data-Within key cb d w = elim (Option-cases (lookup key d.remote_data_tracks)) [
  | inl e ↦ rw (e, add_on_data_frame_callback) w
  | inr (track, e) ↦
      rw (e, add_on_data_frame_callback)
        (start_data_reader-Within d.next_data_callback_id track cb _ w)
]

running_step-Within : (d : Dispatcher) (x : Call) → Within d → Within (running_step d x)
unfolding running_step set_on_audio_frame_callback set_on_video_frame_callback
    set_on_video_frame_event_callback clear_on_audio_frame_callback clear_on_video_frame_callback
    handle_track_subscribed handle_track_unsubscribed remove_on_data_frame_callback
    handle_data_track_published handle_data_track_unpublished join join_all join_end stop_all
    subscribed
running_step-Within d (sets_audio key cb) w = w
running_step-Within d (sets_video key cb) w = w
running_step-Within d (sets_video_event key cb) w = w
running_step-Within d (clears_audio key) w = extract_reader-Within key _ w
running_step-Within d (clears_video key) w = extract_reader-Within key _ w
running_step-Within d (unsubscribes key) w = extract_reader-Within key d w
running_step-Within d (subscribes key none) w = w
running_step-Within d (subscribes key (some (kind, from_track))) w =
    start_reader-Within key kind from_track d w
running_step-Within d (adds_data key cb) w = add_data-Within key cb d w
running_step-Within d (removes_data id) w = extract_data_reader-Within id _ w
running_step-Within d (publishes none) w = w
running_step-Within d (publishes (some track)) w = start_all-Within _ track d.data_callbacks _ w
running_step-Within d (unpublishes sid) w = ground (arith, length-keep sid d.active_data_readers)
running_step-Within d stops w = (omega arith, omega arith)
running_step-Within d (subscribed_data t stream) w =
    ground (arith, length-set_stream t stream d.active_data_readers)
running_step-Within d (returns t) w = ground arith

step-Within : (d : Dispatcher) (x : Call) → Within d → Within (step d x)
unfolding step
step-Within d x w =
    if_rule {A = Dispatcher} Within (has_any d.abandoned) (λ h. w) (λ h. running_step-Within d x w)

run-Within : (d : Dispatcher) (calls : List Call) → Within d → Within (run d calls)
unfolding run
run-Within d [] w = w
run-Within d (x ∷ calls) w = run-Within (step d x) calls (step-Within d x w)

-- After any calls on a new dispatcher at most 20 audio and video readers are active, and at most 20
-- data readers.
readers_bounded :
    (calls : List Call)
    → let d = run new_dispatcher calls in
      (length d.active_readers ≤ 20) × (length d.active_data_readers ≤ 20)
readers_bounded calls = run-Within new_dispatcher calls (omega arith, omega arith)
