-- ===== src/Tracer/Returning.antt =====
-- The wait of `StopTracing` ends: the writer thread returns.
use client_sdk_cpp.Prelude.{
  ℕ, zero, suc, ◌+◌, ◌≤◌, true, not, List, [], ◌∷◌, ◌≡◌, ◌≢◌, refl, sym, subst, arith, length,
  if_rule, ◌&&◌, ◌||◌, ◌∙◌,
}
use client_sdk_cpp.Tracer.Json.{TraceEventData}
use client_sdk_cpp.Tracer.Stopping.{requested-write_event}
use client_sdk_cpp.Tracer.{
  Writer, absent, waiting, writing, returned, Tracer, has_events, drain, write_event, write_next,
}

module _ (print_double : ℕ → List ℕ) where
  -- A turn of the writer thread: it takes the queue, or goes on with its batch.
  abbrev turn_of : Writer → Tracer → Tracer
  turn_of absent s = s
  turn_of returned s = s
  turn_of waiting s = drain waiting s
  turn_of (writing events) s = write_next print_double (writing events) s

  unfoldable pub turns : ℕ → Tracer → Tracer
  turns zero s = s
  turns (suc n) s = turns n (turn_of s.writer s)

  -- The turns until the writer of a trace that is to stop has returned.
  abbrev pub turns_left : Writer → List TraceEventData → ℕ
  turns_left absent queue = 0
  turns_left returned queue = 0
  turns_left waiting queue = length queue + 2
  turns_left (writing events) [] = length events + 1
  turns_left (writing events) (e ∷ queue) = length events + (length (e ∷ queue) + 3)

  event_queue-write_event :
      (event : TraceEventData) (s : Tracer)
      → (write_event print_double event s).event_queue ≡ s.event_queue
  unfolding write_event
  event_queue-write_event event s = ground arith

  -- A writer that has returned in `n` turns, if nothing else happens.
  Stops : ℕ → Tracer → Type 0
  Stops n s =
      (s.shutdown_requested ≡ true) × (s.writer ≢ absent) × (turns_left s.writer s.event_queue ≤ n)

  turns_left_written :
      (event : TraceEventData) (rest queue : List TraceEventData) (n : ℕ)
      → turns_left (writing (event ∷ rest)) queue ≤ suc n
      → turns_left (writing rest) queue ≤ n
  turns_left_written event rest [] n h = omega arith
  turns_left_written event rest (e ∷ queue) n h = omega arith

  turns_left-waiting :
      (queue : List TraceEventData) (n : ℕ)
      → has_events queue ≡ true
      → turns_left (writing []) queue ≤ suc n
      → turns_left waiting queue ≤ n
  turns_left-waiting [] n e h = absurd cc
  turns_left-waiting (x ∷ queue) n e h = omega arith

  turn-Stops :
      (w : Writer) (s : Tracer) (n : ℕ)
      → s.writer ≡ w
      → s.shutdown_requested ≡ true
      → w ≢ absent
      → turns_left w s.event_queue ≤ suc n
      → Stops n (turn_of w s)
  unfolding Stops
  turn-Stops absent s n e r a h = absurd (a refl)
  turn-Stops returned s n e r a h = (r, (λ x. cc), rw e (omega arith))
  turn-Stops waiting s n e r a h =
      if_rule (Stops n) (has_events s.event_queue || s.shutdown_requested)
        {x = record s { event_queue = []; writer = writing s.event_queue }} {y = s}
        (λ _. (r, (λ x. cc), omega arith)) (λ f. absurd (ground arith))
  turn-Stops (writing (event ∷ rest)) s n e r a h = (
    requested-write_event print_double event s ∙ r,
    (λ x. cc),
    subst (λ q. turns_left (writing rest) q ≤ n) (sym (event_queue-write_event event s))
        (turns_left_written event rest s.event_queue n h),
  )
  turn-Stops (writing []) s n e r a h =
      if_rule (Stops n) (s.shutdown_requested && not (has_events s.event_queue))
        {x = record s { writer = returned }} {y = record s { writer = waiting }}
        (λ _. (r, (λ x. cc), omega arith))
        (λ f. (r, (λ x. cc), turns_left-waiting s.event_queue n (ground arith) h))

  none_left :
      (w : Writer) (queue : List TraceEventData)
      → w ≢ absent
      → turns_left w queue ≤ 0
      → w ≡ returned
  none_left absent queue a h = absurd (a refl)
  none_left returned queue a h = refl
  none_left waiting queue a h = absurd (omega arith)
  none_left (writing events) [] a h = absurd (omega arith)
  none_left (writing events) (e ∷ queue) a h = absurd (omega arith)

  -- Once a stop is requested, the writer thread returns after so many turns of its own, if nothing else
  -- happens: one for each event in its batch and in the queue, and three more, are enough.
  pub turns_return :
      (n : ℕ) (s : Tracer)
      → s.shutdown_requested ≡ true
      → s.writer ≢ absent
      → turns_left s.writer s.event_queue ≤ n
      → (turns n s).writer ≡ returned
  unfolding turns Stops
  turns_return zero s r a h = none_left s.writer s.event_queue a h
  turns_return (suc n) s r a h =
      let (r', a', h') = turn-Stops s.writer s n refl r a h in
      turns_return n (turn_of s.writer s) r' a' h'
