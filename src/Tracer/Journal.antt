-- ===== src/Tracer/Journal.antt =====
-- What a trace file holds.
use client_sdk_cpp.Prelude.{
  ℕ, Bool, true, false, not, ◌&&◌, ◌||◌, List, [], ◌∷◌, ◌++◌, Option, none, some, if◌then◌else◌,
  ◌≡◌, refl, sym, ap, ◌∙◌, subst, arith, append_assoc, append-nil, All, if_rule,
}
use client_sdk_cpp.Prelude.Assoc.{lookup, nat_eq}
use client_sdk_cpp.Tracer.Json.{TraceEventData, format_event_json}
use client_sdk_cpp.Tracer.{
  Writer, absent, waiting, writing, returned, Tracer, Call, add_begin, add_end, push_event, drain,
  has_events, write_event, write_next, file_header, stop_disable, Step, begins, ends, drains,
  writes, disables, requests, joins, closes, starts, step, run,
}

-- The event that a step puts into the queue.
unfoldable pub pushed : Step → Tracer → List TraceEventData
pushed (ends t) s = elim (lookup t s.checked) [ none ↦ [] | some event ↦ event ∷ [] ]
pushed _ s = []

-- A step that neither starts a trace nor requests or ends a stop.
abbrev pub IsTracing : Step → Type 0
IsTracing (starts opens categories now) = ⊥
IsTracing requests = ⊥
IsTracing joins = ⊥
IsTracing closes = ⊥
IsTracing _ = Unit

abbrev pub batch : Writer → List TraceEventData
batch (writing events) = events
batch _ = []

abbrev pub is_nil : List TraceEventData → Bool
is_nil [] = true
is_nil (event ∷ rest) = false

module _ (print_double : ℕ → List ℕ) where
  -- The events of a run, in the order of their pushes.
  unfoldable pub pushes : List Step → Tracer → List TraceEventData
  pushes [] s = []
  pushes (st ∷ steps) s = pushed st s ++ pushes steps (step print_double st s)

  -- The events' texts with commas between them.
  unfoldable pub joined : ℕ → List TraceEventData → List ℕ
  joined now [] = []
  joined now (event ∷ []) = format_event_json print_double event now
  joined now (event ∷ events) = format_event_json print_double event now ++ (44 ∷ joined now events)

  joined_more :
      (now : ℕ) (events : List TraceEventData) (event : TraceEventData)
      → joined now (events ++ event ∷ [])
        ≡ joined now events
          ++ ((if is_nil events then [] else 44 ∷ []) ++ format_event_json print_double event now)
  unfolding joined
  joined_more now [] event = refl
  joined_more now (e ∷ []) event = refl
  joined_more now (e ∷ f ∷ events) event =
      ap (λ x. format_event_json print_double e now ++ (44 ∷ x))
        (joined_more now (f ∷ events) event)
      ∙ sym (append_assoc (format_event_json print_double e now) (44 ∷ joined now (f ∷ events)) _)

  -- A trace that began at the time `now`, with these events pushed before the stop was requested and
  -- these later.
  pub record Journal (now : ℕ) (base later : List TraceEventData) (s : Tracer) : Type 0 where
    pub written : List TraceEventData
    pub counted : written ++ (batch s.writer ++ s.event_queue) ≡ base ++ later
    pub printed : s.file ≡ file_header ++ joined now written
    pub first : s.first_event ≡ is_nil written
    pub opened : s.file_open ≡ true
    pub works : s.file_failed ≡ false
    pub since : s.start_time ≡ now
    -- When the writer has returned, what is not written was pushed after that.
    pub flushed :
        s.writer ≡ returned
        → (more : List TraceEventData) × (written ≡ base ++ more) × (more ++ s.event_queue ≡ later)

  module _ (now : ℕ) (base later : List TraceEventData) where
    begin-Journal :
        (t : ℕ) (c : Call) (s : Tracer)
        → Journal now base later s
        → Journal now base later (add_begin t c s)
    unfolding add_begin
    begin-Journal t c s j =
        if_rule (Journal now base later) s.tracing_enabled
          (λ _. record {
            written = j.written;
            counted = j.counted;
            printed = j.printed;
            first = j.first;
            opened = j.opened;
            works = j.works;
            since = j.since;
            flushed = j.flushed;
          })
          (λ _. j)

    push-Journal :
        (t : ℕ) (event : TraceEventData) (s : Tracer)
        → Journal now base later s
        → Journal now base (later ++ event ∷ []) (push_event t (some event) s)
    push-Journal t event s j = record {
      written = j.written;
      counted =
          ap (◌++◌ j.written) (sym (append_assoc (batch s.writer) s.event_queue (event ∷ [])))
          ∙ sym (append_assoc j.written (batch s.writer ++ s.event_queue) (event ∷ []))
          ∙ ap (λ x. x ++ event ∷ []) j.counted
          ∙ append_assoc base later (event ∷ []);
      printed = j.printed;
      first = j.first;
      opened = j.opened;
      works = j.works;
      since = j.since;
      flushed = λ w.
          let (more, a, b) = j.flushed w in
          (
            more,
            a,
            sym (append_assoc more s.event_queue (event ∷ [])) ∙ ap (λ x. x ++ event ∷ []) b,
          );
    }

    drain-Journal :
        (w : Writer) (s : Tracer)
        → s.writer ≡ w
        → Journal now base later s
        → Journal now base later (drain w s)
    drain-Journal absent s e j = j
    drain-Journal (writing events) s e j = j
    drain-Journal returned s e j = j
    drain-Journal waiting s e j =
        if_rule (Journal now base later) (has_events s.event_queue || s.shutdown_requested)
          (λ _. record {
            written = j.written;
            counted =
                ap (◌++◌ j.written)
                  (append-nil s.event_queue ∙ sym (ap (λ x. batch x ++ s.event_queue) e))
                ∙ j.counted;
            printed = j.printed;
            first = j.first;
            opened = j.opened;
            works = j.works;
            since = j.since;
            flushed = λ x. absurd cc;
          })
          (λ _. j)

    no_events :
        (queue : List TraceEventData) (b : Bool) → b && not (has_events queue) ≡ true → queue ≡ []
    no_events [] b h = refl
    no_events (e ∷ queue) b h = absurd (ground arith)

    append_nil_eq : (xs ys : List TraceEventData) → ys ≡ [] → xs ≡ xs ++ ys
    append_nil_eq xs ys e = sym (ap (◌++◌ xs) e ∙ append-nil xs)

    write_event_lem :
        (event : TraceEventData) (s : Tracer)
        → Journal now base later s
        → write_event print_double event s ≡ record s {
          file =
              s.file
              ++ ((if s.first_event then [] else 44 ∷ [])
                  ++ format_event_json print_double event s.start_time);
          first_event = false;
        }
    unfolding write_event
    write_event_lem event s j = rw (j.opened, j.works) refl

    printed_more :
        (event : TraceEventData) (s : Tracer) (j : Journal now base later s)
        → s.file
            ++ ((if s.first_event then [] else 44 ∷ [])
                ++ format_event_json print_double event s.start_time)
          ≡ file_header ++ joined now (j.written ++ event ∷ [])
    printed_more event s j =
        let text = λ (b : Bool) (n : ℕ).
          (if b then [] else 44 ∷ []) ++ format_event_json print_double event n in
        let before = file_header ++ joined now j.written in
        ap (λ f. f ++ text s.first_event s.start_time) j.printed
        ∙ ap (λ b. before ++ text b s.start_time) j.first
        ∙ ap (λ n. before ++ text (is_nil j.written) n) j.since
        ∙ append_assoc file_header (joined now j.written) (text (is_nil j.written) now)
        ∙ ap (◌++◌ file_header) (sym (joined_more now j.written event))

    is_nil_more : (xs : List TraceEventData) (x : TraceEventData) → is_nil (xs ++ x ∷ []) ≡ false
    is_nil_more [] x = refl
    is_nil_more (y ∷ xs) x = refl

    write-Journal :
        (w : Writer) (s : Tracer)
        → s.writer ≡ w
        → Journal now base later s
        → Journal now base later (write_next print_double w s)
    write-Journal absent s e j = j
    write-Journal waiting s e j = j
    write-Journal returned s e j = j
    write-Journal (writing (event ∷ rest)) s e j =
        subst (λ x. Journal now base later (record x { writer = writing rest }))
          (sym (write_event_lem event s j))
          (record {
            written = j.written ++ event ∷ [];
            counted =
                append_assoc j.written (event ∷ []) (rest ++ s.event_queue)
                ∙ sym (ap (λ x. j.written ++ (batch x ++ s.event_queue)) e)
                ∙ j.counted;
            printed = printed_more event s j;
            first = sym (is_nil_more j.written event);
            opened = j.opened;
            works = j.works;
            since = j.since;
            flushed = λ x. absurd cc;
          })
    write-Journal (writing []) s e j =
        if_rule (Journal now base later) (s.shutdown_requested && not (has_events s.event_queue))
          {x = record s { writer = returned }} {y = record s { writer = waiting }}
          (λ t.
            let empty = no_events s.event_queue s.shutdown_requested t in
            record {
              written = j.written;
              counted = sym (ap (λ x. j.written ++ (batch x ++ s.event_queue)) e) ∙ j.counted;
              printed = j.printed;
              first = j.first;
              opened = j.opened;
              works = j.works;
              since = j.since;
              flushed = λ _. (
                later,
                append_nil_eq j.written s.event_queue empty
                    ∙ sym (ap (λ x. j.written ++ (batch x ++ s.event_queue)) e)
                    ∙ j.counted,
                ap (◌++◌ later) empty ∙ append-nil later,
              );
            })
          (λ _. record {
            written = j.written;
            counted = sym (ap (λ x. j.written ++ (batch x ++ s.event_queue)) e) ∙ j.counted;
            printed = j.printed;
            first = j.first;
            opened = j.opened;
            works = j.works;
            since = j.since;
            flushed = λ x. absurd cc;
          })

    same : {s : Tracer} → Journal now base later s → Journal now base (later ++ []) s
    same {s} j = subst (λ l. Journal now base l s) (sym (append-nil later)) j

    end-Journal :
        (t : ℕ) (o : Option TraceEventData) (s : Tracer)
        → Journal now base later s
        → Journal now base
            (later ++ (elim o [ none ↦ [] | some event ↦ event ∷ [] ]))
            (push_event t o s)
    end-Journal t none s j = same j
    end-Journal t (some event) s j = push-Journal t event s j

    disable-Journal :
        (s : Tracer) → Journal now base later s → Journal now base later (stop_disable s)
    unfolding stop_disable
    disable-Journal s j = record {
      written = j.written;
      counted = j.counted;
      printed = j.printed;
      first = j.first;
      opened = j.opened;
      works = j.works;
      since = j.since;
      flushed = j.flushed;
    }

    -- A step of the tracing keeps the journal, with the event that it pushes.
    step-Journal :
        (st : Step) (s : Tracer)
        → IsTracing st
        → Journal now base later s
        → Journal now base (later ++ pushed st s) (step print_double st s)
    unfolding step pushed add_end stop_disable
    step-Journal (begins t c) s h j = same (begin-Journal t c s j)
    step-Journal (ends t) s h j = end-Journal t (lookup t s.checked) s j
    step-Journal drains s h j = same (drain-Journal s.writer s refl j)
    step-Journal writes s h j = same (write-Journal s.writer s refl j)
    step-Journal disables s h j = same (disable-Journal s j)
    step-Journal requests s h j = absurd h
    step-Journal joins s h j = absurd h
    step-Journal closes s h j = absurd h
    step-Journal (starts opens categories time) s h j = absurd h

  module _ (now : ℕ) (base : List TraceEventData) where
    pub run-Journal :
        (steps : List Step) (later : List TraceEventData) (s : Tracer)
        → All IsTracing steps
        → Journal now base later s
        → Journal now base (later ++ pushes steps s) (run print_double steps s)
    unfolding run pushes
    run-Journal [] later s h j = same now base later j
    run-Journal (st ∷ steps) later s (h, rest) j =
        subst (λ l. Journal now base l (run print_double steps (step print_double st s)))
          (append_assoc later (pushed st s) (pushes steps (step print_double st s)))
          (run-Journal steps (later ++ pushed st s) (step print_double st s) rest
            (step-Journal now base later st s h j))
