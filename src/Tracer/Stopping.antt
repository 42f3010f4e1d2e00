-- ===== src/Tracer/Stopping.antt =====
-- What a trace that was stopped leaves in the file.
use client_sdk_cpp.Prelude.{
  ℕ, true, false, not, List, [], ◌∷◌, ◌++◌, ◌≡◌, ◌≢◌, refl, sym, ap, ◌∙◌, subst, arith, append-nil,
  All, if_rule, Option, none, some, ◌&&◌,
}
use client_sdk_cpp.Prelude.Assoc.{lookup, nat_eq}
use client_sdk_cpp.Tracer.Json.{TraceEventData}
use client_sdk_cpp.Tracer.Journal.{IsTracing, pushes, joined, Journal, run-Journal}
use client_sdk_cpp.Tracer.{
  Writer, absent, waiting, writing, returned, Tracer, has_events, add_begin, add_end, push_event,
  drain, write_event, write_next, file_header, file_footer, start_tracing, stop_disable,
  stop_request, stop_join, stop_close, Step, begins, ends, drains, writes, disables, requests,
  joins, closes, starts, step, run,
}

-- Before a stop is requested the writer does not return.
Runs : Tracer → Type 0
Runs s = (s.shutdown_requested ≡ false) × (s.writer ≢ returned)

module _ (print_double : ℕ → List ℕ) where
  push-Runs : (t : ℕ) (o : Option TraceEventData) (s : Tracer) → Runs s → Runs (push_event t o s)
  unfolding Runs
  push-Runs t none s h = h
  push-Runs t (some event) s h = h

  drain-Runs : (w : Writer) (s : Tracer) → Runs s → Runs (drain w s)
  unfolding Runs
  drain-Runs waiting s h =
      if_rule Runs _ {x = record s { event_queue = []; writer = writing s.event_queue }} {y = s}
        (λ _. (h.0, λ e. cc)) (λ _. h)
  drain-Runs absent s h = h
  drain-Runs (writing events) s h = h
  drain-Runs returned s h = h

  pub requested-write_event :
      (event : TraceEventData) (s : Tracer)
      → (write_event print_double event s).shutdown_requested ≡ s.shutdown_requested
  unfolding write_event
  requested-write_event event s = ground arith

  write-Runs : (w : Writer) (s : Tracer) → Runs s → Runs (write_next print_double w s)
  unfolding Runs
  write-Runs (writing (event ∷ rest)) s h = (requested-write_event event s ∙ h.0, λ e. cc)
  write-Runs (writing []) s h =
      if_rule Runs (s.shutdown_requested && not (has_events s.event_queue))
        {x = record s { writer = returned }} {y = record s { writer = waiting }}
        (λ t. absurd (ground arith)) (λ _. (h.0, λ e. cc))
  write-Runs absent s h = h
  write-Runs waiting s h = h
  write-Runs returned s h = h

  step-Runs : (st : Step) (s : Tracer) → IsTracing st → Runs s → Runs (step print_double st s)
  unfolding step Runs add_begin add_end stop_disable
  step-Runs (begins t c) s h r = ground arith
  step-Runs (ends t) s h r = push-Runs t (lookup t s.checked) s r
  step-Runs drains s h r = drain-Runs s.writer s r
  step-Runs writes s h r = write-Runs s.writer s r
  step-Runs disables s h r = r
  step-Runs requests s h r = absurd h
  step-Runs joins s h r = absurd h
  step-Runs closes s h r = absurd h
  step-Runs (starts opens categories time) s h r = absurd h

  run-Runs :
      (steps : List Step) (s : Tracer)
      → All IsTracing steps
      → Runs s
      → Runs (run print_double steps s)
  unfolding run
  run-Runs [] s h r = r
  run-Runs (st ∷ steps) s (h, rest) r =
      run-Runs steps (step print_double st s) rest (step-Runs st s h r)

  begun :
      (now : ℕ) (categories : List (List ℕ)) (s : Tracer)
      → s.tracing_enabled ≡ false
      → s.file_open ≡ false
      → s.writer ≡ absent
      → (start_tracing true categories now s).1 ≡ record s {
        file_open = true;
        file_failed = false;
        file = file_header;
        first_event = true;
        start_time = now;
        enabled_categories = categories;
        shutdown_requested = false;
        writer = waiting;
        tracing_enabled = true;
      }
  unfolding start_tracing
  begun now categories s a b c = ground arith

  begun-Journal :
      (now : ℕ) (categories : List (List ℕ)) (s : Tracer)
      → s.tracing_enabled ≡ false
      → s.file_open ≡ false
      → s.writer ≡ absent
      → let s' = (start_tracing true categories now s).1 in
        Journal print_double now s.event_queue [] s' × Runs s'
  unfolding Runs joined
  begun-Journal now categories s a b c =
      subst (λ x. Journal print_double now s.event_queue [] x × Runs x)
        (sym (begun now categories s a b c))
        (
          record {
            written = [];
            counted = sym (append-nil s.event_queue);
            printed = sym (append-nil file_header);
            first = refl;
            opened = refl;
            works = refl;
            since = refl;
            flushed = λ e. absurd cc;
          },
          (refl, λ e. cc),
        )

  -- The request of the stop: what was pushed before it counts as pushed before the stop.
  requested-Journal :
      (now : ℕ) (base later : List TraceEventData) (s : Tracer)
      → Runs s
      → Journal print_double now base later s
      → Journal print_double now (base ++ later) [] (stop_request s)
  unfolding stop_request Runs
  requested-Journal now base later s r j = record {
    written = j.written;
    counted = j.counted ∙ sym (append-nil (base ++ later));
    printed = j.printed;
    first = j.first;
    opened = j.opened;
    works = j.works;
    since = j.since;
    flushed = λ e. absurd (r.1 e);
  }

  closed_file :
      (now : ℕ) (base later : List TraceEventData) (s : Tracer)
      → s.writer ≡ returned
      → Journal print_double now base later s
      → let s' = stop_close (stop_join s) in
        (more : List TraceEventData) × (later ≡ more ++ s'.event_queue)
        × (s'.file ≡ (file_header ++ joined print_double now (base ++ more)) ++ file_footer)
  unfolding stop_close stop_join
  closed_file now base later s e j =
      let (more, a, b) = j.flushed e in
      (
        more,
        sym b,
        rw (j.opened, j.works)
            (ap (λ f. f ++ file_footer)
              (j.printed ∙ ap (λ w. file_header ++ joined print_double now w) a)),
      )

  -- The state at the start, at the request of the stop and at its join.
  abbrev pub begin : ℕ → List (List ℕ) → Tracer → Tracer
  begin now categories s = (start_tracing true categories now s).1

  abbrev pub request : ℕ → List (List ℕ) → List Step → Tracer → Tracer
  request now categories before s = stop_request (run print_double before (begin now categories s))

  abbrev pub stop : ℕ → List (List ℕ) → List Step → List Step → Tracer → Tracer
  stop now categories before after s = run print_double after (request now categories before s)

  -- A trace that starts at the time `now` where none is, and is stopped once its writer has returned,
  -- whatever the threads do in between, one event's push, one round of the writer and one part of the
  -- stop at a time. The file is a header, the texts of the events with commas between them, and a
  -- footer. The events are those that were queued when the trace began, then all that were pushed
  -- before the stop was requested, in their order, and then the first of those that were pushed later.
  -- The rest of these stays queued.
  pub trace_complete :
      (now : ℕ) (categories : List (List ℕ)) (before after : List Step) (s : Tracer)
      → s.tracing_enabled ≡ false
      → s.file_open ≡ false
      → s.writer ≡ absent
      → All IsTracing before
      → All IsTracing after
      → (stop now categories before after s).writer ≡ returned
      → let done = stop_close (stop_join (stop now categories before after s)) in
        let base = s.event_queue ++ pushes print_double before (begin now categories s) in
        (more : List TraceEventData) × (pushes print_double after (request now categories before s)
          ≡ more ++ done.event_queue)
        × (done.file ≡ (file_header ++ joined print_double now (base ++ more)) ++ file_footer)
  trace_complete now categories before after s a b c h k e =
      let (j, r) = begun-Journal now categories s a b c in
      let start = begin now categories s in
      let first = run-Journal print_double now s.event_queue before [] start h j in
      let base = s.event_queue ++ pushes print_double before start in
      let second =
        requested-Journal now s.event_queue (pushes print_double before start)
          (run print_double before start) (run-Runs before start h r) first in
      closed_file now base (pushes print_double after (request now categories before s))
        (stop now categories before after s) e
        (run-Journal print_double now base after [] (request now categories before s) k second)
