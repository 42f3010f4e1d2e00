-- ===== src/Tracer/Late.antt =====
-- Events that come too late for their trace.
use client_sdk_cpp.Prelude.{
  ℕ, ◌+◌, ◌^◌, ◌<◌, false, List, [], ◌∷◌, ◌++◌, some, ◌≡◌, arith, subst, sym, ap, ◌∙◌, append_assoc,
  All,
}
use client_sdk_cpp.Prelude.Assoc.{lookup, nat_eq}
use client_sdk_cpp.Tracer.Json.{TraceEventData, trace_timestamp}
use client_sdk_cpp.Tracer.{
  Tracer, absent, returned, push_event, add_end, file_header, file_footer, stop_join, stop_close,
  Step,
}
use client_sdk_cpp.Tracer.Journal.{IsTracing, pushes, joined}
use client_sdk_cpp.Tracer.Stopping.{begin, stop, trace_complete}

module _ (print_double : ℕ → List ℕ) where
  -- What a trace leaves in the file that starts with `queue` and then `event` in the queue.
  abbrev InNext :
      ℕ
      → List (List ℕ)
      → List Step
      → List Step
      → List TraceEventData
      → TraceEventData
      → Tracer
      → Type 0
  InNext now categories before after queue event late =
      (stop print_double now categories before after late).writer ≡ returned
      → (more : List TraceEventData) × ((stop_close
            (stop_join (stop print_double now categories before after late))).file
          ≡ (file_header ++ joined print_double now (queue ++ event ∷ more)) ++ file_footer)

  regrouped :
      (queue pushed more : List TraceEventData) (event : TraceEventData)
      → ((queue ++ event ∷ []) ++ pushed) ++ more ≡ queue ++ event ∷ (pushed ++ more)
  regrouped queue pushed more event =
      append_assoc (queue ++ event ∷ []) pushed more
      ∙ append_assoc queue (event ∷ []) (pushed ++ more)

  pushed_late :
      (t : ℕ) (event : TraceEventData) (now : ℕ) (categories : List (List ℕ))
      (before after : List Step) (s : Tracer)
      → s.tracing_enabled ≡ false
      → s.file_open ≡ false
      → s.writer ≡ absent
      → All IsTracing before
      → All IsTracing after
      → InNext now categories before after s.event_queue event (push_event t (some event) s)
  pushed_late t event now categories before after s a b c h k e =
      let late = push_event t (some event) s in
      let pushed = pushes print_double before (begin print_double now categories late) in
      let (more, rest, file) =
        trace_complete print_double now categories before after late a b c h k e in
      (
        pushed ++ more,
        file
            ∙ ap (λ events. (file_header ++ joined print_double now events) ++ file_footer)
                (regrouped s.event_queue pushed more event),
      )

  -- A thread pushes its event when no trace is running, since the one in which it tested the flag was
  -- stopped meanwhile. If another trace then starts at the time `now` and is stopped once its writer has
  -- returned, whatever the threads do in between, the event is in the file of this other trace: after
  -- the events that were queued before it, which came too late as well, and before all others. There,
  -- if it was taken before this trace started, its timestamp, which counts from the start of the trace,
  -- has wrapped around: it lies 2^64 microseconds too high.
  pub late_event :
      (t : ℕ) (event : TraceEventData) (now : ℕ) (categories : List (List ℕ))
      (before after : List Step) (s : Tracer)
      → lookup t s.checked ≡ some event
      → s.tracing_enabled ≡ false
      → s.file_open ≡ false
      → s.writer ≡ absent
      → All IsTracing before
      → All IsTracing after
      → event.timestamp_us < now
      → now < 2 ^ 64
      → let late = add_end t s in
        (stop print_double now categories before after late).writer ≡ returned
        → let done = stop_close (stop_join (stop print_double now categories before after late)) in
          ((more : List TraceEventData) × (done.file
              ≡ (file_header ++ joined print_double now (s.event_queue ++ event ∷ more))
                ++ file_footer))
          × (trace_timestamp event.timestamp_us now + now ≡ 2 ^ 64 + event.timestamp_us)
  unfolding add_end trace_timestamp
  late_event t event now categories before after s l a b c h k early bound e = (
    subst (λ o. InNext now categories before after s.event_queue event (push_event t o s)) (sym l)
        (pushed_late t event now categories before after s a b c h k) e,
    omega arith,
  )
