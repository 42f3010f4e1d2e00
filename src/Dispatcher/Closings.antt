-- ===== src/Dispatcher/Closings.antt =====
-- The streams that src/subscription_thread_dispatcher.cpp closes, beside those that its threads were
-- started to read.
pub mod Calls
use client_sdk_cpp.Prelude.{
  ℕ, Bool, true, false, ◌&&◌, ◌||◌, List, [], ◌∷◌, ◌++◌, Option, none, some, if◌then◌else◌, leb,
  length, ◌+◌, ◌≡◌, ◌∙◌, ◌⊎◌, refl, arith, Option-cases, inl, inr, if_rule, All, All-map,
  All-append,
}
use client_sdk_cpp.Prelude.Assoc.{
  lookup, insert, erase, nat_eq, string_eq, ◌==◌, Distinct, insert-Distinct, erase-Distinct,
  lookup-erase_self,
}
use client_sdk_cpp.Dispatcher.{
  Key, key_eq, Callback, RegisteredDataCallback, TrackKind, kind_audio, kind_video, kind_unknown,
  kind_unsupported, ActiveReader, DataTrack, Dispatcher, max_active_readers, waits_for, with_thread,
  to_list, streams, start, extract_reader, from_track_throws, start_audio_reader,
  start_video_reader, start_reader,
}
use client_sdk_cpp.Dispatcher.DataTracks.{
  extract_data_reader, start_data_reader, start_all, reader_values, all_streams,
}
use client_sdk_cpp.Dispatcher.Reads.{
  reads_now, ActiveOrClosed, waits_for-right, waits_for-left, reads_now-absent, reads_now-erase,
  reads_now-insert, reads_now-all,
}

-- What a thread was started to read is what its active reader reads, or was closed.
pub record Shut (d : Dispatcher) : Type 0 where
  pub distinct : Distinct d.active_readers
  pub each : All (ActiveOrClosed d.active_readers d.closed) d.reads

-- More streams are closed, and the readers and what they read stay.
pub closes_more :
    (closed : List ℕ) (d d' : Dispatcher)
    → d'.active_readers ≡ d.active_readers
    → d'.reads ≡ d.reads
    → d'.closed ≡ closed ++ d.closed
    → Shut d
    → Shut d'
closes_more closed d d' e f g v = record {
  distinct = rw e v.distinct;
  each =
      rw (e, f, g)
        (All-map (ActiveOrClosed d.active_readers d.closed)
          (ActiveOrClosed d.active_readers (closed ++ d.closed)) d.reads
          (λ x h. ground (arith, waits_for-right x.1 closed d.closed)) v.each);
}

pub extract_reader-Shut :
    (key : Key) (d : Dispatcher)
    → Shut d
    → Shut (extract_reader key d).1 × (lookup key (extract_reader key d).1.active_readers ≡ none)
unfolding extract_reader
extract_reader-Shut key d v = elim (Option-cases (lookup key d.active_readers)) [
  | inl e ↦ rw (e, extract_reader) (v, e)
  | inr (r, e) ↦
      rw (e, extract_reader)
        (
          record {
            distinct = erase-Distinct key d.active_readers v.distinct;
            each =
                All-map (ActiveOrClosed d.active_readers d.closed)
                  (ActiveOrClosed (erase key d.active_readers) (streams r ++ d.closed)) d.reads
                  (λ x h. ground (
                    arith,
                    waits_for-right x.1 (streams r) d.closed,
                    waits_for-left x.1 (streams r) d.closed,
                    reads_now-erase x.0 x.1 key r d.active_readers v.distinct e,
                  ))
                  v.each;
          },
          lookup-erase_self key d.active_readers,
        )
]

-- A new reader reads what its thread was started with.
start_reads :
    (t : ℕ) (ss : List ℕ) (m : List (Key × ActiveReader)) (closed all : List ℕ)
    → ((s : ℕ) → waits_for s all ≡ true → reads_now t s m ≡ true)
    → ((s : ℕ) → waits_for s ss ≡ true → waits_for s all ≡ true)
    → All (ActiveOrClosed m closed) (with_thread t ss)
start_reads t [] m closed all f g = tt
start_reads t (s ∷ ss) m closed all f g =
    (inl (f s (g s ground arith)), start_reads t ss m closed all f (λ u h. g u (ground arith)))

start-Shut :
    (key : Key) (a v : Option ℕ) (callback : Callback) (d : Dispatcher)
    → Shut d
    → lookup key d.active_readers ≡ none
    → Shut (start key a v callback d)
unfolding start
start-Shut key a v callback d s absent =
    let r : ActiveReader = record {
      audio_stream = a;
      video_stream = v;
      callback = callback;
      thread = d.next_thread;
    } in
    record {
      distinct = insert-Distinct key r d.active_readers s.distinct;
      each =
          All-append (ActiveOrClosed (insert key r d.active_readers) d.closed)
            (with_thread d.next_thread (streams r)) d.reads
            (start_reads d.next_thread (streams r) (insert key r d.active_readers) d.closed
              (streams r)
              (λ u h.
                ground (arith, reads_now-insert d.next_thread u key r d.active_readers absent))
              (λ u h. h))
            (All-map (ActiveOrClosed d.active_readers d.closed)
              (ActiveOrClosed (insert key r d.active_readers) d.closed) d.reads
              (λ x h. ground (arith, reads_now-insert x.0 x.1 key r d.active_readers absent))
              s.each);
    }

start_audio_reader-Shut :
    (key : Key) (from_track : Option ℕ) (callback : Callback) (d : Dispatcher)
    → Shut d
    → Shut (start_audio_reader key from_track callback d).1
unfolding start_audio_reader from_track_throws
start_audio_reader-Shut key none callback d s =
    let (shut, absent) = extract_reader-Shut key d s in
    let (thread, d') = extract_reader key d in
    if_rule {A = Option ℕ × Dispatcher} (λ p. Shut p.1)
      (leb max_active_readers (length d'.active_readers)) (λ h. shut)
      (λ h. closes_more [] d' _ refl refl refl shut)
start_audio_reader-Shut key (some stream) callback d s =
    let (shut, absent) = extract_reader-Shut key d s in
    let (thread, d') = extract_reader key d in
    if_rule {A = Option ℕ × Dispatcher} (λ p. Shut p.1)
      (leb max_active_readers (length d'.active_readers)) (λ h. shut)
      (λ h. start-Shut key (some stream) none callback d' shut absent)

start_video_reader-Shut :
    (key : Key) (from_track : Option ℕ) (callback : Callback) (d : Dispatcher)
    → Shut d
    → Shut (start_video_reader key from_track callback d).1
unfolding start_video_reader from_track_throws
start_video_reader-Shut key none callback d s =
    let (shut, absent) = extract_reader-Shut key d s in
    let (thread, d') = extract_reader key d in
    if_rule {A = Option ℕ × Dispatcher} (λ p. Shut p.1)
      (leb max_active_readers (length d'.active_readers)) (λ h. shut)
      (λ h. closes_more [] d' _ refl refl refl shut)
start_video_reader-Shut key (some stream) callback d s =
    let (shut, absent) = extract_reader-Shut key d s in
    let (thread, d') = extract_reader key d in
    if_rule {A = Option ℕ × Dispatcher} (λ p. Shut p.1)
      (leb max_active_readers (length d'.active_readers)) (λ h. shut)
      (λ h. start-Shut key none (some stream) callback d' shut absent)

pub start_reader-Shut :
    (key : Key) (kind : TrackKind) (from_track : Option ℕ) (d : Dispatcher)
    → Shut d
    → Shut (start_reader key kind from_track d).1
unfolding start_reader
start_reader-Shut key kind_audio from_track d s =
    elim (Option-cases (lookup key d.audio_callbacks)) [
      | inl e ↦ rw (e, start_reader) s
      | inr (callback, e) ↦
          rw (e, start_reader) (start_audio_reader-Shut key from_track callback d s)
    ]
start_reader-Shut key kind_video from_track d s =
    elim (Option-cases (lookup key d.video_callbacks)) [
      | inl e ↦ rw (e, start_reader) s
      | inr (callback, e) ↦
          rw (e, start_reader) (start_video_reader-Shut key from_track callback d s)
    ]
start_reader-Shut key kind_unknown from_track d s = s
start_reader-Shut key kind_unsupported from_track d s = s

-- Operations on the data readers only close streams.
pub extract_data_reader-Shut :
    (id : ℕ) (d : Dispatcher) → Shut d → Shut (extract_data_reader id d).1
unfolding extract_data_reader
extract_data_reader-Shut id d s = elim (Option-cases (lookup id d.active_data_readers)) [
  | inl e ↦ rw (e, extract_data_reader) s
  | inr (r, e) ↦ rw (e, extract_data_reader) (closes_more (to_list r.stream) d _ refl refl refl s)
]

pub start_data_reader-Shut :
    (id : ℕ) (track : DataTrack) (cb : ℕ) (d : Dispatcher)
    → Shut d
    → Shut (start_data_reader id track cb d).1
unfolding start_data_reader
start_data_reader-Shut id track cb d s =
    let shut = extract_data_reader-Shut id d s in
    let (thread, d') = extract_data_reader id d in
    if_rule {A = Option ℕ × Dispatcher} (λ p. Shut p.1)
      (leb max_active_readers (length d'.active_readers + length d'.active_data_readers))
      (λ h. shut) (λ h. closes_more [] d' _ refl refl refl shut)

pub start_all-Shut :
    (key : Key) (track : DataTrack) (callbacks : List (ℕ × RegisteredDataCallback)) (d : Dispatcher)
    → Shut d
    → Shut (start_all key track callbacks d).1
unfolding start_all
start_all-Shut key track [] d s = s
start_all-Shut key track ((id, reg) ∷ callbacks) d s = start_all-Shut key track callbacks _ (
    if_rule {A = Option ℕ × Dispatcher} (λ p. Shut p.1) (reg.key == key)
      (λ h. start_data_reader-Shut id track reg.callback d s) (λ h. s))
