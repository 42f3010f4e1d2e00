-- ===== src/Dispatcher/Threads.antt =====
-- The threads of src/subscription_thread_dispatcher.cpp, counted while a reader is taken out or started.
use client_sdk_cpp.Prelude.{
  ℕ, List, [], ◌∷◌, ◌++◌, Option, none, some, if◌then◌else◌, leb, ltb, length, ◌+◌, ◌≡◌, subst,
  arith, Option-cases, inl, inr, if_rule, append-nil,
}
use client_sdk_cpp.Prelude.Assoc.{
  lookup, nat_eq, string_eq, ◌==◌, Distinct, insert-Distinct, erase-Distinct, lookup-erase_self,
}
use client_sdk_cpp.Dispatcher.{
  Key, key_eq, Callback, RegisteredDataCallback, TrackKind, kind_audio, kind_video, kind_unknown,
  kind_unsupported, DataTrack, Dispatcher, max_active_readers, to_list, join, start, extract_reader,
  from_track_throws, start_audio_reader, start_video_reader, start_reader,
}
use client_sdk_cpp.Dispatcher.DataTracks.{
  extract_data_reader, start_data_reader, start_all, join_all, threads,
}
use client_sdk_cpp.Dispatcher.Counts.{
  count, count-append, readers_count, data_count, readers_count-erase, readers_count-insert,
  data_count-erase, data_count-insert,
}

-- The threads `held` were taken out of the maps and are to be joined.
pub record Sound (held : List ℕ) (d : Dispatcher) : Type 0 where
  pub distinct_readers : Distinct d.active_readers
  pub distinct_data : Distinct d.active_data_readers
  pub each :
      (t : ℕ)
      → count t held
          + (readers_count t d.active_readers
              + (data_count t d.active_data_readers
                  + (count t d.waits + (count t d.joined + count t d.abandoned))))
        ≡ (if ltb t d.next_thread then 1 else 0)

pub join-Sound :
    (thread : Option ℕ) (d : Dispatcher) → Sound (to_list thread) d → Sound [] (join (thread, d))
unfolding join
join-Sound thread d v = record {
  distinct_readers = v.distinct_readers;
  distinct_data = v.distinct_data;
  each = λ t. ground (arith, v.each t, count-append t (to_list thread) d.waits);
}

pub join_all-Sound : (held : List ℕ) (d : Dispatcher) → Sound held d → Sound [] (join_all (held, d))
unfolding join_all
join_all-Sound held d v = record {
  distinct_readers = v.distinct_readers;
  distinct_data = v.distinct_data;
  each = λ t. ground (arith, v.each t, count-append t held d.waits);
}

-- The reader that is extracted is gone, and no reader is left under its key.
pub extract_reader-Sound :
    (key : Key) (d : Dispatcher)
    → Sound [] d
    → let (thread, d') = extract_reader key d in
      Sound (to_list thread) d' × (lookup key d'.active_readers ≡ none)
unfolding extract_reader
extract_reader-Sound key d v = elim (Option-cases (lookup key d.active_readers)) [
  | inl e ↦ rw (e, extract_reader) (v, e)
  | inr (r, e) ↦
      rw (e, extract_reader)
        (
          record {
            distinct_readers = erase-Distinct key d.active_readers v.distinct_readers;
            distinct_data = v.distinct_data;
            each = λ t. ground (
              arith,
              v.each t,
              readers_count-erase t key r d.active_readers v.distinct_readers e,
            );
          },
          lookup-erase_self key d.active_readers,
        )
]

start-Sound :
    (key : Key) (a v : Option ℕ) (callback : Callback) (held : List ℕ) (d : Dispatcher)
    → Sound held d
    → lookup key d.active_readers ≡ none
    → Sound held (start key a v callback d)
unfolding start
start-Sound key a v callback held d s absent = record {
  distinct_readers = insert-Distinct key _ d.active_readers s.distinct_readers;
  distinct_data = s.distinct_data;
  each = λ t. ground (
    arith,
    s.each t,
    readers_count-insert t key
        (record { audio_stream = a; video_stream = v; callback = callback; thread = d.next_thread })
        d.active_readers absent,
  );
}

throws-Sound :
    (old_thread : Option ℕ) (d : Dispatcher)
    → Sound (to_list old_thread) d
    → let (thread, d') = from_track_throws old_thread d in Sound (to_list thread) d'
unfolding from_track_throws
throws-Sound old_thread d v = record {
  distinct_readers = v.distinct_readers;
  distinct_data = v.distinct_data;
  each = λ t. ground (arith, v.each t, count-append t (to_list old_thread) d.abandoned);
}

start_audio_reader-Sound :
    (key : Key) (from_track : Option ℕ) (callback : Callback) (d : Dispatcher)
    → Sound [] d
    → let (thread, d') = start_audio_reader key from_track callback d in Sound (to_list thread) d'
unfolding start_audio_reader
start_audio_reader-Sound key none callback d s =
    let (sound, absent) = extract_reader-Sound key d s in
    let (thread, d') = extract_reader key d in
    if_rule {A = Option ℕ × Dispatcher} (λ p. Sound (to_list p.0) p.1)
      (leb max_active_readers (length d'.active_readers)) (λ h. sound)
      (λ h. throws-Sound thread d' sound)
start_audio_reader-Sound key (some stream) callback d s =
    let (sound, absent) = extract_reader-Sound key d s in
    let (thread, d') = extract_reader key d in
    if_rule {A = Option ℕ × Dispatcher} (λ p. Sound (to_list p.0) p.1)
      (leb max_active_readers (length d'.active_readers)) (λ h. sound)
      (λ h. start-Sound key (some stream) none callback (to_list thread) d' sound absent)

start_video_reader-Sound :
    (key : Key) (from_track : Option ℕ) (callback : Callback) (d : Dispatcher)
    → Sound [] d
    → let (thread, d') = start_video_reader key from_track callback d in Sound (to_list thread) d'
unfolding start_video_reader
start_video_reader-Sound key none callback d s =
    let (sound, absent) = extract_reader-Sound key d s in
    let (thread, d') = extract_reader key d in
    if_rule {A = Option ℕ × Dispatcher} (λ p. Sound (to_list p.0) p.1)
      (leb max_active_readers (length d'.active_readers)) (λ h. sound)
      (λ h. throws-Sound thread d' sound)
start_video_reader-Sound key (some stream) callback d s =
    let (sound, absent) = extract_reader-Sound key d s in
    let (thread, d') = extract_reader key d in
    if_rule {A = Option ℕ × Dispatcher} (λ p. Sound (to_list p.0) p.1)
      (leb max_active_readers (length d'.active_readers)) (λ h. sound)
      (λ h. start-Sound key none (some stream) callback (to_list thread) d' sound absent)

pub start_reader-Sound :
    (key : Key) (kind : TrackKind) (from_track : Option ℕ) (d : Dispatcher)
    → Sound [] d
    → let (thread, d') = start_reader key kind from_track d in Sound (to_list thread) d'
unfolding start_reader
start_reader-Sound key kind_audio from_track d s =
    elim (Option-cases (lookup key d.audio_callbacks)) [
      | inl e ↦ rw (e, start_reader) s
      | inr (callback, e) ↦
          rw (e, start_reader) (start_audio_reader-Sound key from_track callback d s)
    ]
start_reader-Sound key kind_video from_track d s =
    elim (Option-cases (lookup key d.video_callbacks)) [
      | inl e ↦ rw (e, start_reader) s
      | inr (callback, e) ↦
          rw (e, start_reader) (start_video_reader-Sound key from_track callback d s)
    ]
start_reader-Sound key kind_unknown from_track d s = s
start_reader-Sound key kind_unsupported from_track d s = s

pub extract_data_reader-Sound :
    (id : ℕ) (held : List ℕ) (d : Dispatcher)
    → Sound held d
    → let (thread, d') = extract_data_reader id d in
      Sound (to_list thread ++ held) d' × (lookup id d'.active_data_readers ≡ none)
unfolding extract_data_reader
extract_data_reader-Sound id held d v = elim (Option-cases (lookup id d.active_data_readers)) [
  | inl e ↦ rw (e, extract_data_reader) (v, e)
  | inr (r, e) ↦
      rw (e, extract_data_reader)
        (
          record {
            distinct_readers = v.distinct_readers;
            distinct_data = erase-Distinct id d.active_data_readers v.distinct_data;
            each = λ t.
                ground (
                  arith,
                  v.each t,
                  data_count-erase t id r d.active_data_readers v.distinct_data e,
                );
          },
          lookup-erase_self id d.active_data_readers,
        )
]

pub start_data_reader-Sound :
    (id : ℕ) (track : DataTrack) (cb : ℕ) (held : List ℕ) (d : Dispatcher)
    → Sound held d
    → let (thread, d') = start_data_reader id track cb d in Sound (to_list thread ++ held) d'
unfolding start_data_reader
start_data_reader-Sound id track cb held d s =
    let (sound, absent) = extract_data_reader-Sound id held d s in
    let (thread, d') = extract_data_reader id d in
    if_rule {A = Option ℕ × Dispatcher} (λ p. Sound (to_list p.0 ++ held) p.1)
      (leb max_active_readers (length d'.active_readers + length d'.active_data_readers))
      (λ h. sound)
      (λ h. record {
        distinct_readers = sound.distinct_readers;
        distinct_data = insert-Distinct id _ d'.active_data_readers sound.distinct_data;
        each = λ t. ground (
          arith,
          sound.each t,
          data_count-insert t id
              (record {
                remote_track = track;
                stream = none;
                data_callback = cb;
                thread = d'.next_thread;
              })
              d'.active_data_readers absent,
        );
      })

pub unpad : (xs : List ℕ) (d : Dispatcher) → Sound (xs ++ []) d → Sound xs d
unpad xs d s = subst (λ ys. Sound ys d) (append-nil xs) s

reorder :
    (xs ys held : List ℕ) (d : Dispatcher)
    → Sound (ys ++ (xs ++ held)) d
    → Sound ((xs ++ ys) ++ held) d
reorder xs ys held d s = record {
  distinct_readers = s.distinct_readers;
  distinct_data = s.distinct_data;
  each = λ t. ground (
    arith,
    s.each t,
    count-append t ys (xs ++ held),
    count-append t xs held,
    count-append t (xs ++ ys) held,
    count-append t xs ys,
  );
}

pub start_all-Sound :
    (key : Key) (track : DataTrack) (callbacks : List (ℕ × RegisteredDataCallback)) (held : List ℕ)
    (d : Dispatcher)
    → Sound held d
    → let (threads, d') = start_all key track callbacks d in Sound (threads ++ held) d'
unfolding start_all
start_all-Sound key track [] held d s = s
start_all-Sound key track ((id, reg) ∷ callbacks) held d s =
    let one : Option ℕ × Dispatcher =
      (if reg.key == key then start_data_reader id track reg.callback d else (none, d)) in
    let first : Sound (to_list one.0 ++ held) one.1 =
      if_rule {A = Option ℕ × Dispatcher} (λ p. Sound (to_list p.0 ++ held) p.1) (reg.key == key)
        (λ h. start_data_reader-Sound id track reg.callback held d s) (λ h. s) in
    let rest = start_all-Sound key track callbacks (to_list one.0 ++ held) one.1 first in
    reorder (to_list one.0) (start_all key track callbacks one.1).0 held _ rest
