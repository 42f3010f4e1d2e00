-- ===== src/Dispatcher/DataTracks.antt =====
-- The data readers of src/subscription_thread_dispatcher.cpp, and `stopAll`.
use client_sdk_cpp.Prelude.{
  ℕ, Bool, true, false, List, [], ◌∷◌, ◌++◌, Option, none, some, if◌then◌else◌, leb, length, ◌+◌,
  String,
}
use client_sdk_cpp.Prelude.Assoc.{lookup, insert, erase, nat_eq, string_eq, ◌==◌}
use client_sdk_cpp.Dispatcher.{
  Key, key_eq, RegisteredDataCallback, TrackKind, ActiveReader, DataTrack, ActiveDataReader,
  Dispatcher, max_active_readers, to_list, join, join_end, streams, set_on_audio_frame_callback,
  set_on_video_frame_callback, set_on_video_frame_event_callback, clear_on_audio_frame_callback,
  clear_on_video_frame_callback, handle_track_subscribed, handle_track_unsubscribed,
}

unfoldable pub extract_data_reader : ℕ → Dispatcher → Option ℕ × Dispatcher
extract_data_reader id d = elim (lookup id d.active_data_readers) [
  | none ↦ (none, d)
  | some reader ↦ (
    some reader.thread,
    record d {
      active_data_readers = erase id d.active_data_readers;
      closed = to_list reader.stream ++ d.closed;
    },
  )
]

-- The thread that starts subscribes first: the reader has no stream yet.
unfoldable pub start_data_reader : ℕ → DataTrack → ℕ → Dispatcher → Option ℕ × Dispatcher
start_data_reader id track cb d =
    let (old_thread, d') = extract_data_reader id d in
    if leb max_active_readers (length d'.active_readers + length d'.active_data_readers)
    then (old_thread, d')
    else (
      old_thread,
      record d' {
        active_data_readers =
            insert id
              (record {
                remote_track = track;
                stream = none;
                data_callback = cb;
                thread = d'.next_thread;
              })
              d'.active_data_readers;
        next_thread = d'.next_thread + 1;
      },
    )

-- The id and the state.
unfoldable pub add_on_data_frame_callback : Key → ℕ → Dispatcher → ℕ × Dispatcher
add_on_data_frame_callback key cb d =
    let id = d.next_data_callback_id in
    let d' = record d {
      next_data_callback_id = id + 1;
      data_callbacks = insert id (record { key = key; callback = cb }) d.data_callbacks;
    } in
    (elim (lookup key d.remote_data_tracks) [
      | none ↦ (id, d')
      | some track ↦ (id, join (start_data_reader id track cb d'))
    ])

unfoldable pub remove_on_data_frame_callback : ℕ → Dispatcher → Dispatcher
remove_on_data_frame_callback id d =
    join (extract_data_reader id (record d { data_callbacks = erase id d.data_callbacks }))

-- The loop of `handleDataTrackPublished` over the callbacks: the threads to join, and the state.
unfoldable pub start_all :
    Key → DataTrack → List (ℕ × RegisteredDataCallback) → Dispatcher → List ℕ × Dispatcher
start_all key track [] d = ([], d)
start_all key track ((id, reg) ∷ callbacks) d =
    let (old_thread, d') =
      (if reg.key == key then start_data_reader id track reg.callback d else (none, d)) in
    let (old_threads, d'') = start_all key track callbacks d' in
    (to_list old_thread ++ old_threads, d'')

-- The joins, up to their waits.
unfoldable pub join_all : List ℕ × Dispatcher → Dispatcher
join_all (threads, d) = record d { waits = threads ++ d.waits }

unfoldable pub handle_data_track_published : Option DataTrack → Dispatcher → Dispatcher
handle_data_track_published none d = d
handle_data_track_published (some track) d =
    let key : Key = record {
      participant_identity = track.publisher_identity;
      track_name = track.name;
    } in
    join_all (
      start_all key track d.data_callbacks
        (record d { remote_data_tracks = insert key track d.remote_data_tracks }))

-- The readers that stay, and those that are taken out.
abbrev pub keep_readers : String → List (ℕ × ActiveDataReader) → List (ℕ × ActiveDataReader)
keep_readers sid [] = []
keep_readers sid ((id, r) ∷ m) =
    let rest = keep_readers sid m in if r.remote_track.sid == sid then rest else (id, r) ∷ rest

abbrev pub taken_readers : String → List (ℕ × ActiveDataReader) → List ActiveDataReader
taken_readers sid [] = []
taken_readers sid ((id, r) ∷ m) =
    let rest = taken_readers sid m in if r.remote_track.sid == sid then r ∷ rest else rest

abbrev pub data_threads : List ActiveDataReader → List ℕ
data_threads [] = []
data_threads (r ∷ rs) = r.thread ∷ data_threads rs

abbrev pub data_streams : List ActiveDataReader → List ℕ
data_streams [] = []
data_streams (r ∷ rs) = to_list r.stream ++ data_streams rs

-- The first track with the sid is erased.
unfoldable pub erase_track : String → List (Key × DataTrack) → List (Key × DataTrack)
erase_track sid [] = []
erase_track sid ((key, track) ∷ m) =
    if track.sid == sid then m else (key, track) ∷ erase_track sid m

unfoldable pub handle_data_track_unpublished : String → Dispatcher → Dispatcher
handle_data_track_unpublished sid d =
    let taken = taken_readers sid d.active_data_readers in
    join_all (
      data_threads taken,
      record d {
        active_data_readers = keep_readers sid d.active_data_readers;
        remote_data_tracks = erase_track sid d.remote_data_tracks;
        closed = data_streams taken ++ d.closed;
      },
    )

abbrev pub reader_values {ℓ κ} : {K : Type ℓ} {V : Type κ} → List (K × V) → List V
reader_values [] = []
reader_values ((k, v) ∷ m) = v ∷ reader_values m

abbrev pub threads : List ActiveReader → List ℕ
threads [] = []
threads (r ∷ rs) = r.thread ∷ threads rs

abbrev pub all_streams : List ActiveReader → List ℕ
all_streams [] = []
all_streams (r ∷ rs) = streams r ++ all_streams rs

unfoldable pub stop_all : Dispatcher → Dispatcher
stop_all d =
    let readers = reader_values d.active_readers in
    let data_readers = reader_values d.active_data_readers in
    join_all (
      threads readers ++ data_threads data_readers,
      record d {
        active_readers = [];
        audio_callbacks = [];
        video_callbacks = [];
        active_data_readers = [];
        data_callbacks = [];
        remote_data_tracks = [];
        closed = data_streams data_readers ++ (all_streams readers ++ d.closed);
      },
    )

-- A data reader's thread has subscribed and stores its stream in its reader. A reader that was taken
-- out meanwhile is no longer reached from here: nothing closes the stream.
abbrev pub set_stream : ℕ → ℕ → List (ℕ × ActiveDataReader) → List (ℕ × ActiveDataReader)
set_stream t stream [] = []
set_stream t stream ((id, r) ∷ m) =
    if nat_eq.same r.thread t
    then (id, record r { stream = some stream }) ∷ m
    else (id, r) ∷ set_stream t stream m

unfoldable pub subscribed : ℕ → ℕ → Dispatcher → Dispatcher
subscribed t stream d = record d { active_data_readers = set_stream t stream d.active_data_readers }

pub data Call : Type 0 where
  sets_audio sets_video sets_video_event : Key → ℕ → Call
  clears_audio clears_video unsubscribes : Key → Call
  subscribes : Key → Option (TrackKind × Option ℕ) → Call
  adds_data : Key → ℕ → Call
  removes_data : ℕ → Call
  publishes : Option DataTrack → Call
  unpublishes : String → Call
  stops : Call
  subscribed_data : ℕ → ℕ → Call
  -- A thread that is waited for has returned.
  returns : ℕ → Call

-- A call, up to the wait of its joins, while the program runs.
unfoldable pub running_step : Dispatcher → Call → Dispatcher
running_step d (sets_audio key cb) = set_on_audio_frame_callback key cb d
running_step d (sets_video key cb) = set_on_video_frame_callback key cb d
running_step d (sets_video_event key cb) = set_on_video_frame_event_callback key cb d
running_step d (clears_audio key) = clear_on_audio_frame_callback key d
running_step d (clears_video key) = clear_on_video_frame_callback key d
running_step d (unsubscribes key) = handle_track_unsubscribed key d
running_step d (subscribes key track) = handle_track_subscribed key track d
running_step d (adds_data key cb) = (add_on_data_frame_callback key cb d).1
running_step d (removes_data id) = remove_on_data_frame_callback id d
running_step d (publishes track) = handle_data_track_published track d
running_step d (unpublishes sid) = handle_data_track_unpublished sid d
running_step d stops = stop_all d
running_step d (subscribed_data t stream) = subscribed t stream d
running_step d (returns t) = join_end t d

abbrev pub has_any : List ℕ → Bool
has_any [] = false
has_any (t ∷ ts) = true

-- An abandoned thread has ended the program.
unfoldable pub step : Dispatcher → Call → Dispatcher
step d x = if has_any d.abandoned then d else running_step d x

unfoldable pub run : Dispatcher → List Call → Dispatcher
run d [] = d
run d (x ∷ calls) = run (step d x) calls
