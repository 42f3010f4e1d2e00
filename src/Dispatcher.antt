-- ===== src/Dispatcher.antt =====
-- `SubscriptionThreadDispatcher` of src/subscription_thread_dispatcher.cpp: the readers' state, and
-- the audio and video readers. `DataTracks` has the data readers and `stopAll`. What an operation does
-- under `lock_` is one function of the state; after that begins the wait for the thread that it extracts.
pub mod Loops
pub mod DataTracks
pub mod Counts
pub mod Threads
pub mod Abandons
pub mod Reads
pub mod Closings
pub mod Accounts
pub mod Limit
pub mod Replace
use client_sdk_cpp.Prelude.{
  ℕ, Bool, true, false, ◌&&◌, ◌||◌, List, [], ◌∷◌, ◌++◌, Option, none, some, if◌then◌else◌, leb,
  length, ◌+◌, ◌≡◌, ◌↔◌, refl, String, arith,
}
use client_sdk_cpp.Prelude.Assoc.{lookup, insert, erase, Comparable, string_eq, nat_eq, ◌==◌}

-- `CallbackKey` and `DataCallbackKey`.
pub record Key : Type 0 where
  pub participant_identity : String
  pub track_name : String

abbrev pub key_beq : Key → Key → Bool
key_beq a b = (a.participant_identity == b.participant_identity) && (a.track_name == b.track_name)

pub key_beq_iff : (a b : Key) → (key_beq a b ≡ true) ↔ (a ≡ b)
key_beq_iff a b = ground (
  arith,
  string_eq.same_iff a.participant_identity b.participant_identity,
  string_eq.same_iff a.track_name b.track_name,
)

instance abbrev pub key_eq : Comparable Key
key_eq = record { same = key_beq; same_iff = key_beq_iff }

-- The callbacks are code of the callers and are named by numbers. A video callback is a legacy one or
-- an event one.
pub data Callback : Type 0 where
  audio legacy_video video_event : ℕ → Callback

pub data TrackKind : Type 0 where
  kind_unknown kind_audio kind_video kind_unsupported : TrackKind

-- Streams and threads are named by numbers. A reader's thread reads its stream until the stream ends.
pub record ActiveReader : Type 0 where
  pub audio_stream : Option ℕ
  pub video_stream : Option ℕ
  pub callback : Callback
  pub thread : ℕ

pub record DataTrack : Type 0 where
  pub publisher_identity : String
  pub name : String
  pub sid : String

pub record ActiveDataReader : Type 0 where
  pub remote_track : DataTrack
  pub stream : Option ℕ
  pub data_callback : ℕ
  pub thread : ℕ

pub record RegisteredDataCallback : Type 0 where
  pub key : Key
  pub callback : ℕ

-- Beside the members: the number that the next thread gets, the threads that a `join` waits for, those
-- whose `join` is over, and the streams on which `close` was called, the latest first. `abandoned` has
-- the threads that were neither joined nor kept when their `std::thread` was destroyed: that ends the
-- program, and nothing happens after it.
pub record Dispatcher : Type 0 where
  pub audio_callbacks : List (Key × Callback)
  pub video_callbacks : List (Key × Callback)
  pub active_readers : List (Key × ActiveReader)
  pub next_data_callback_id : ℕ
  pub data_callbacks : List (ℕ × RegisteredDataCallback)
  pub remote_data_tracks : List (Key × DataTrack)
  pub active_data_readers : List (ℕ × ActiveDataReader)
  pub next_thread : ℕ
  pub waits : List ℕ
  pub joined : List ℕ
  pub abandoned : List ℕ
  -- The threads of audio and video readers that were started, each with the stream that it reads.
  pub reads : List (ℕ × ℕ)
  pub closed : List ℕ

abbrev pub new_dispatcher : Dispatcher
new_dispatcher = record {
  audio_callbacks = [];
  video_callbacks = [];
  active_readers = [];
  next_data_callback_id = 0;
  data_callbacks = [];
  remote_data_tracks = [];
  active_data_readers = [];
  next_thread = 0;
  waits = [];
  joined = [];
  abandoned = [];
  reads = [];
  closed = [];
}

abbrev pub max_active_readers : ℕ
max_active_readers = 20

abbrev pub to_list : Option ℕ → List ℕ
to_list none = []
to_list (some x) = x ∷ []

-- `if (thread.joinable()) thread.join();`, up to the wait.
unfoldable pub join : Option ℕ × Dispatcher → Dispatcher
join (thread, d) = record d { waits = to_list thread ++ d.waits }

abbrev pub waits_for : ℕ → List ℕ → Bool
waits_for t [] = false
waits_for t (x ∷ xs) = (x == t) || waits_for t xs

abbrev pub remove_one : ℕ → List ℕ → List ℕ
remove_one t [] = []
remove_one t (x ∷ xs) = if x == t then xs else x ∷ remove_one t xs

-- The end of a wait: the thread has returned.
unfoldable pub join_end : ℕ → Dispatcher → Dispatcher
join_end t d =
    if waits_for t d.waits
    then record d { waits = remove_one t d.waits; joined = t ∷ d.joined }
    else d

abbrev pub with_thread : ℕ → List ℕ → List (ℕ × ℕ)
with_thread t [] = []
with_thread t (s ∷ ss) = (t, s) ∷ with_thread t ss

abbrev pub streams : ActiveReader → List ℕ
streams r = to_list r.audio_stream ++ to_list r.video_stream

unfoldable pub extract_reader : Key → Dispatcher → Option ℕ × Dispatcher
extract_reader key d = elim (lookup key d.active_readers) [
  | none ↦ (none, d)
  | some reader ↦ (
    some reader.thread,
    record d { active_readers = erase key d.active_readers; closed = streams reader ++ d.closed },
  )
]

-- The end of the two functions below: the reader's thread starts.
unfoldable pub start : Key → Option ℕ → Option ℕ → Callback → Dispatcher → Dispatcher
start key audio_stream video_stream callback d = record d {
  active_readers =
      insert key
        (record {
          audio_stream = audio_stream;
          video_stream = video_stream;
          callback = callback;
          thread = d.next_thread;
        })
        d.active_readers;
  next_thread = d.next_thread + 1;
  reads = with_thread d.next_thread (to_list audio_stream ++ to_list video_stream) ++ d.reads;
}

-- `fromTrack` gives a stream, or throws (`none`): it never gives null, which the source tests for. Where
-- it throws, the thread that was taken out is destroyed unjoined; if there was none, the exception goes
-- on to the caller. The result has the thread to join, and the state.
unfoldable pub from_track_throws : Option ℕ → Dispatcher → Option ℕ × Dispatcher
from_track_throws old_thread d = (none, record d { abandoned = to_list old_thread ++ d.abandoned })

unfoldable pub start_audio_reader : Key → Option ℕ → Callback → Dispatcher → Option ℕ × Dispatcher
start_audio_reader key from_track callback d =
    let (old_thread, d') = extract_reader key d in
    if leb max_active_readers (length d'.active_readers)
    then (old_thread, d')
    else (elim from_track [
      | none ↦ from_track_throws old_thread d'
      | some stream ↦ (old_thread, start key (some stream) none callback d')
    ])

unfoldable pub start_video_reader : Key → Option ℕ → Callback → Dispatcher → Option ℕ × Dispatcher
start_video_reader key from_track callback d =
    let (old_thread, d') = extract_reader key d in
    if leb max_active_readers (length d'.active_readers)
    then (old_thread, d')
    else (elim from_track [
      | none ↦ from_track_throws old_thread d'
      | some stream ↦ (old_thread, start key none (some stream) callback d')
    ])

unfoldable pub start_reader : Key → TrackKind → Option ℕ → Dispatcher → Option ℕ × Dispatcher
start_reader key kind_audio from_track d = elim (lookup key d.audio_callbacks) [
  | none ↦ (none, d)
  | some callback ↦ start_audio_reader key from_track callback d
]
start_reader key kind_video from_track d = elim (lookup key d.video_callbacks) [
  | none ↦ (none, d)
  | some callback ↦ start_video_reader key from_track callback d
]
start_reader key kind_unknown from_track d = (none, d)
start_reader key kind_unsupported from_track d = (none, d)

unfoldable pub set_on_audio_frame_callback : Key → ℕ → Dispatcher → Dispatcher
set_on_audio_frame_callback key cb d = record d {
  audio_callbacks = insert key (audio cb) d.audio_callbacks;
}

unfoldable pub set_on_video_frame_event_callback : Key → ℕ → Dispatcher → Dispatcher
set_on_video_frame_event_callback key cb d = record d {
  video_callbacks = insert key (video_event cb) d.video_callbacks;
}

unfoldable pub set_on_video_frame_callback : Key → ℕ → Dispatcher → Dispatcher
set_on_video_frame_callback key cb d = record d {
  video_callbacks = insert key (legacy_video cb) d.video_callbacks;
}

unfoldable pub clear_on_audio_frame_callback : Key → Dispatcher → Dispatcher
clear_on_audio_frame_callback key d =
    join (extract_reader key (record d { audio_callbacks = erase key d.audio_callbacks }))

unfoldable pub clear_on_video_frame_callback : Key → Dispatcher → Dispatcher
clear_on_video_frame_callback key d =
    join (extract_reader key (record d { video_callbacks = erase key d.video_callbacks }))

-- The track, as its kind and what `fromTrack` gives for it; `none` is the null pointer.
unfoldable pub handle_track_subscribed :
    Key → Option (TrackKind × Option ℕ) → Dispatcher → Dispatcher
handle_track_subscribed key none d = d
handle_track_subscribed key (some (kind, from_track)) d = join (start_reader key kind from_track d)

unfoldable pub handle_track_unsubscribed : Key → Dispatcher → Dispatcher
handle_track_unsubscribed key d = join (extract_reader key d)
