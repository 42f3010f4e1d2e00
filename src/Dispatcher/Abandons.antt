-- ===== src/Dispatcher/Abandons.antt =====
-- The threads that src/subscription_thread_dispatcher.cpp abandons when a stream cannot be opened.
use client_sdk_cpp.Prelude.{
  ℕ, List, [], ◌∷◌, Option, none, some, if◌then◌else◌, ◌≡◌, ◌∙◌, refl, arith, Option-cases, inl,
  inr, if_rule, All,
}
use client_sdk_cpp.Prelude.Assoc.{lookup, nat_eq, string_eq, ◌==◌}
use client_sdk_cpp.Dispatcher.{
  Key, key_eq, RegisteredDataCallback, TrackKind, kind_audio, kind_video, kind_unknown,
  kind_unsupported, DataTrack, Dispatcher, join, join_end, start, extract_reader,
  start_audio_reader, start_video_reader, start_reader, set_on_audio_frame_callback,
  set_on_video_frame_callback, set_on_video_frame_event_callback, clear_on_audio_frame_callback,
  clear_on_video_frame_callback, handle_track_subscribed, handle_track_unsubscribed,
}
use client_sdk_cpp.Dispatcher.DataTracks.{
  extract_data_reader, start_data_reader, add_on_data_frame_callback, remove_on_data_frame_callback,
  start_all, join_all, handle_data_track_published, handle_data_track_unpublished, stop_all,
  subscribed, Call, sets_audio, sets_video, sets_video_event, clears_audio, clears_video,
  unsubscribes, subscribes, adds_data, removes_data, publishes, unpublishes, stops, subscribed_data,
  returns, running_step, has_any, step, run,
}

-- The stream of a subscribed track can be opened.
abbrev pub Opens : Call → Type 0
Opens (subscribes key (some (kind, none))) = ⊥
Opens _ = Unit

extract_keeps : (key : Key) (d : Dispatcher) → (extract_reader key d).1.abandoned ≡ d.abandoned
unfolding extract_reader
extract_keeps key d = ground arith

extract_data_keeps :
    (id : ℕ) (d : Dispatcher) → (extract_data_reader id d).1.abandoned ≡ d.abandoned
unfolding extract_data_reader
extract_data_keeps id d = ground arith

start_reader_keeps :
    (key : Key) (kind : TrackKind) (stream : ℕ) (d : Dispatcher)
    → (start_reader key kind (some stream) d).1.abandoned ≡ d.abandoned
unfolding start_reader start_audio_reader start_video_reader start
start_reader_keeps key kind_audio stream d = ground (arith, extract_keeps key d)
start_reader_keeps key kind_video stream d = ground (arith, extract_keeps key d)
start_reader_keeps key kind_unknown stream d = refl
start_reader_keeps key kind_unsupported stream d = refl

start_data_keeps :
    (id : ℕ) (track : DataTrack) (cb : ℕ) (d : Dispatcher)
    → (start_data_reader id track cb d).1.abandoned ≡ d.abandoned
unfolding start_data_reader
start_data_keeps id track cb d = ground (arith, extract_data_keeps id d)

start_all_keeps :
    (key : Key) (track : DataTrack) (callbacks : List (ℕ × RegisteredDataCallback)) (d : Dispatcher)
    → (start_all key track callbacks d).1.abandoned ≡ d.abandoned
unfolding start_all
start_all_keeps key track [] d = refl
start_all_keeps key track ((id, reg) ∷ callbacks) d =
    let one : Option ℕ × Dispatcher =
      (if reg.key == key then start_data_reader id track reg.callback d else (none, d)) in
    let first : one.1.abandoned ≡ d.abandoned =
      if_rule {A = Option ℕ × Dispatcher} (λ p. p.1.abandoned ≡ d.abandoned) (reg.key == key)
        (λ h. start_data_keeps id track reg.callback d) (λ h. refl) in
    start_all_keeps key track callbacks one.1 ∙ first

add_data_keeps :
    (key : Key) (cb : ℕ) (d : Dispatcher)
    → (add_on_data_frame_callback key cb d).1.abandoned ≡ d.abandoned
unfolding add_on_data_frame_callback join
add_data_keeps key cb d = elim (Option-cases (lookup key d.remote_data_tracks)) [
  | inl e ↦ rw (e, add_on_data_frame_callback) refl
  | inr (track, e) ↦
      rw (e, add_on_data_frame_callback) (start_data_keeps d.next_data_callback_id track cb _)
]

running_step_keeps :
    (d : Dispatcher) (x : Call) → Opens x → (running_step d x).abandoned ≡ d.abandoned
unfolding running_step set_on_audio_frame_callback set_on_video_frame_callback
    set_on_video_frame_event_callback clear_on_audio_frame_callback clear_on_video_frame_callback
    handle_track_subscribed handle_track_unsubscribed remove_on_data_frame_callback
    handle_data_track_published handle_data_track_unpublished join join_all join_end stop_all
    subscribed
running_step_keeps d (sets_audio key cb) o = refl
running_step_keeps d (sets_video key cb) o = refl
running_step_keeps d (sets_video_event key cb) o = refl
running_step_keeps d (clears_audio key) o = extract_keeps key _
running_step_keeps d (clears_video key) o = extract_keeps key _
running_step_keeps d (unsubscribes key) o = extract_keeps key d
running_step_keeps d (subscribes key none) o = refl
running_step_keeps d (subscribes key (some (kind, none))) o = absurd o
running_step_keeps d (subscribes key (some (kind, some stream))) o =
    start_reader_keeps key kind stream d
running_step_keeps d (adds_data key cb) o = add_data_keeps key cb d
running_step_keeps d (removes_data id) o = extract_data_keeps id _
running_step_keeps d (publishes none) o = refl
running_step_keeps d (publishes (some track)) o = start_all_keeps _ track d.data_callbacks _
running_step_keeps d (unpublishes sid) o = refl
running_step_keeps d stops o = refl
running_step_keeps d (subscribed_data t stream) o = refl
running_step_keeps d (returns t) o = ground arith

step_keeps : (d : Dispatcher) (x : Call) → Opens x → (step d x).abandoned ≡ d.abandoned
unfolding step
step_keeps d x o =
    if_rule {A = Dispatcher} (λ e. e.abandoned ≡ d.abandoned) (has_any d.abandoned) (λ h. refl)
      (λ h. running_step_keeps d x o)

pub run_keeps :
    (calls : List Call) (d : Dispatcher) → All Opens calls → (run d calls).abandoned ≡ d.abandoned
unfolding run
run_keeps [] d h = refl
run_keeps (x ∷ calls) d (o, h) = run_keeps calls (step d x) h ∙ step_keeps d x o
