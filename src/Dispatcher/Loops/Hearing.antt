-- ===== src/Dispatcher/Loops/Hearing.antt =====
-- What the callback of a reader thread hears of a stream that has ended.
use client_sdk_cpp.Prelude.{
  true, false, List, [], ◌∷◌, ◌++◌, ◌≡◌, ◌≢◌, ◌⊎◌, inl, inr, ◌+◌, ◌≤◌, length, refl, arith,
  Bool-cases, append-nil, append_assoc, All,
}
use client_sdk_cpp.MediaStream.{
  stream_event, other_event, frame_received, eos, not_set, read, read_front, on_ffi_event,
  push_frame, push_eos,
}
use client_sdk_cpp.Dispatcher.Loops.{
  CallbackEnd, goes_on, returned, standard_exception, other_exception, Loop, Step, turns, arrives,
  closes, after_read, loop_step, loop_steps,
}
use client_sdk_cpp.Dispatcher.Loops.Ending.{turns_in, reader_returns}

goes_on_lem : (e : CallbackEnd) → e ≢ other_exception → goes_on e ≡ true
goes_on_lem returned h = refl
goes_on_lem standard_exception h = refl
goes_on_lem other_exception h = absurd (h refl)

module _ {ℓ} {A : Type ℓ} where
  -- Nobody closes the stream, and no callback throws anything but a standard exception.
  abbrev pub IsQuiet : Step A → Type 0
  IsQuiet (turns e) = e ≢ other_exception
  IsQuiet (arrives e) = Unit
  IsQuiet closes = true ≡ false

  -- The frames that are heard or queued are `frames`, and the thread runs as long as there are any.
  record Drains (frames : List A) (l : Loop A) : Type ℓ where
    unclosed : l.stream.closed ≡ false
    at_end : l.stream.eof ≡ true
    all_there : l.heard ++ l.stream.queue ≡ frames
    awake : (l.running ≡ true) ⊎ (l.stream.queue ≡ [])

  read_front-Drains :
      (frames : List A) (e : CallbackEnd) (q : List A) (l : Loop A)
      → l.stream.queue ≡ q
      → goes_on e ≡ true
      → Drains frames l
      → Drains frames (after_read e (read_front q l.stream) l)
  unfolding read_front
  read_front-Drains frames e [] l h g d = record {
    unclosed = ground arith;
    at_end = ground arith;
    all_there = ground arith;
    awake = ground arith;
  }
  read_front-Drains frames e (x ∷ q) l h g d = record {
    unclosed = ground arith;
    at_end = ground arith;
    all_there = ground (arith, append_assoc l.heard (x ∷ []) q);
    awake = ground arith;
  }

  step-Drains :
      (frames : List A) (x : Step A) (l : Loop A)
      → IsQuiet x
      → Drains frames l
      → Drains frames (loop_step x l)
  unfolding read on_ffi_event push_frame push_eos
  step-Drains frames (turns e) l u d = elim (Bool-cases l.running) [
    | inl r ↦ simp r (read_front-Drains frames e l.stream.queue l refl (goes_on_lem e u) d)
    | inr r ↦ simp r d
  ]
  step-Drains frames (arrives other_event) l u d = d
  step-Drains frames (arrives (stream_event h not_set)) l u d = d
  step-Drains frames (arrives (stream_event h (frame_received x))) l u d = record {
    unclosed = ground arith;
    at_end = ground arith;
    all_there = ground arith;
    awake = ground arith;
  }
  step-Drains frames (arrives (stream_event h eos)) l u d = record {
    unclosed = ground arith;
    at_end = ground arith;
    all_there = ground arith;
    awake = ground arith;
  }
  step-Drains frames closes l u d = absurd (ground arith)

  steps-Drains :
      (frames : List A) (xs : List (Step A)) (l : Loop A)
      → All IsQuiet xs
      → Drains frames l
      → Drains frames (loop_steps xs l)
  unfolding loop_steps
  steps-Drains frames [] l u d = d
  steps-Drains frames (x ∷ xs) l (u, us) d =
      steps-Drains frames xs (loop_step x l) us (step-Drains frames x l u d)

  drained_lem :
      (frames : List A) (l : Loop A) → l.running ≡ false → Drains frames l → l.heard ≡ frames
  drained_lem frames l stopped d = elim d.awake [
    | inl r ↦ absurd cc
    | inr q ↦ ground (arith, append-nil l.heard, d.all_there)
  ]

  -- A thread whose stream has ended, and is not closed, gives its callback every frame that is still
  -- queued, in order, and returns, within as many turns as there are frames queued, and one more: also
  -- where the callback throws standard exceptions, and whatever else arrives in between.
  pub reader_finishes :
      (xs : List (Step A)) (l : Loop A)
      → l.stream.closed ≡ false
      → l.stream.eof ≡ true
      → l.running ≡ true
      → All IsQuiet xs
      → length l.stream.queue + 1 ≤ turns_in xs
      → ((loop_steps xs l).running ≡ false) × ((loop_steps xs l).heard ≡ l.heard ++ l.stream.queue)
  reader_finishes xs l o e r u m =
      let stopped = reader_returns xs l (inr (e, m)) in
      let d =
        steps-Drains (l.heard ++ l.stream.queue) xs l u
          (record { unclosed = o; at_end = e; all_there = refl; awake = inl r }) in
      (stopped, drained_lem (l.heard ++ l.stream.queue) (loop_steps xs l) stopped d)
