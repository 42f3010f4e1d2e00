-- ===== src/Tests/Tracers.antt =====
-- Examples for src/trace/event_tracer.cpp.
use client_sdk_cpp.Prelude.{
  ℕ, true, false, List, [], ◌∷◌, ◌++◌, some, ◌≡◌, ◌⊎◌, ◌↔◌, refl, arith, ◌+◌, ◌^◌,
}
use client_sdk_cpp.Prelude.Bytes.{codes, decimal, hexadecimal, pad_zeros}
use client_sdk_cpp.Prelude.Assoc.{lookup, insert, erase, nat_eq}
use client_sdk_cpp.Tracer.{
  Tracer, Call, new_tracer, writing, returned, Step, begins, ends, drains, writes, disables,
  requests, joins, closes, starts, stop_join, stop_close, file_header, file_footer, run,
  build_event, copy_arg, step, add_end, stop_request, stop_disable, add_begin, start_tracing,
  write_event,
}
use client_sdk_cpp.Tracer.Json.{
  TraceEventData, escape_char, json_escape, format_event_json, trace_timestamp, arg_value_to_json,
}
use client_sdk_cpp.Tracer.Json.Reading.{plain, read_string, read_string-json_escape}
use client_sdk_cpp.Tracer.Journal.{pushes, joined}
use client_sdk_cpp.Tracer.Stopping.{begin, request, stop, trace_complete}
use client_sdk_cpp.Tracer.Returning.{turns, turns_return}
use client_sdk_cpp.Tracer.Late.{late_event}
use client_sdk_cpp.Tracer.Categories.{
  get_category_enabled, contains, matches_any, matches_pattern, back, without_last, has_prefix,
  same_bytes,
}
use client_sdk_cpp.Tracer.Categories.Covered.{Some, Covers, get_category_enabled-Covers}

escape_line : json_escape (10 ∷ 34 ∷ 1 ∷ 31 ∷ 65 ∷ []) ≡ codes "\\n\\\"\\u0001\\u001fA"
unfolding json_escape escape_char pad_zeros hexadecimal
escape_line = refl

read_string-json_escape_example :
    read_string plain (json_escape (65 ∷ 10 ∷ 34 ∷ 31 ∷ []) ++ (34 ∷ 44 ∷ []))
    ≡ some (65 ∷ 10 ∷ 34 ∷ 31 ∷ [], 44 ∷ [])
read_string-json_escape_example = read_string-json_escape (65 ∷ 10 ∷ 34 ∷ 31 ∷ []) (44 ∷ [])

-- What is printed of a double, for the tests.
abbrev print_double : ℕ → List ℕ
print_double bits = decimal bits

abbrev call : ℕ → Call
call at = record {
  phase = b'X';
  name = some (codes "send");
  id = 0;
  args =
      record { name = some (codes "to"); type = 7; value = 4096; pointee = some (codes "a\"b") }
      ∷ [];
  flags = 0;
  timestamp_us = at;
  pid = 1;
  tid = 2;
}

one_event :
    format_event_json print_double (build_event (call 150)) 100
    ≡ codes
        "{\"ph\":\"X\",\"cat\":\"\",\"name\":\"send\",\"ts\":50,\"pid\":1,\"tid\":2,\"args\":{\"to\":\"a\\\"b\"}}"
unfolding format_event_json build_event json_escape escape_char decimal trace_timestamp copy_arg
    arg_value_to_json
one_event = refl

-- One event is written at once, one in the batch of the stop, and one comes too late.
abbrev before : List Step
before =
    begins 7 (call 150)
    ∷ ends 7
    ∷ drains
    ∷ writes
    ∷ writes
    ∷ begins 7 (call 160)
    ∷ begins 8 (call 170)
    ∷ ends 7
    ∷ disables
    ∷ []

abbrev after : List Step
after = drains ∷ writes ∷ writes ∷ ends 8 ∷ []

abbrev stopped : Tracer
stopped = stop_close (stop_join (stop print_double 100 [] before after new_tracer))

trace_complete_example :
    let base = [] ++ pushes print_double before (begin print_double 100 [] new_tracer) in
    (more : List TraceEventData) × (pushes print_double after
        (request print_double 100 [] before new_tracer)
      ≡ more ++ stopped.event_queue)
    × (stopped.file ≡ (file_header ++ joined print_double 100 (base ++ more)) ++ file_footer)
unfolding new_tracer run step add_end lookup stop_request stop_disable add_begin start_tracing
    insert write_event erase
trace_complete_example =
    trace_complete print_double 100 [] before after new_tracer refl refl refl (omega arith)
      (omega arith) refl

-- A trace that is to stop, with an event in the batch and one in the queue.
abbrev stopping : Tracer
stopping = record {
  event_queue = build_event (call 2) ∷ [];
  enabled_categories = codes "livekit.*" ∷ codes "app" ∷ [];
  tracing_enabled = true;
  shutdown_requested = true;
  writer = writing (build_event (call 1) ∷ []);
  file_open = true;
  file_failed = false;
  file = file_header;
  start_time = 0;
  first_event = true;
  checked = [];
}

turns_return_example : (turns print_double 5 stopping).writer ≡ returned
turns_return_example = turns_return print_double 5 stopping refl (λ e. cc) (omega arith)

-- A thread tests the flag, and then its trace is stopped.
abbrev overtaken : Tracer
overtaken =
    run print_double
      (starts true [] 100
        ∷ begins 3 (call 150)
        ∷ disables
        ∷ requests
        ∷ drains
        ∷ writes
        ∷ joins
        ∷ closes
        ∷ [])
      new_tracer

abbrev next_trace : Tracer
next_trace = stop print_double 200 [] (drains ∷ writes ∷ []) (writes ∷ []) (add_end 3 overtaken)

late_event_example :
    ((more : List TraceEventData) × ((stop_close (stop_join next_trace)).file
        ≡ (file_header ++ joined print_double 200 ([] ++ build_event (call 150) ∷ more))
          ++ file_footer))
    × (trace_timestamp (build_event (call 150)).timestamp_us 200 + 200 ≡ 2 ^ 64 + 150)
unfolding new_tracer run step add_end lookup stop_request stop_disable stop_join stop_close
    add_begin start_tracing insert write_event erase build_event
late_event_example =
    late_event print_double 3 (build_event (call 150)) 200 [] (drains ∷ writes ∷ []) (writes ∷ [])
      overtaken refl refl refl refl (omega arith) (omega arith) (omega arith) (omega arith) refl

get_category_enabled-Covers_example :
    (get_category_enabled stopping (codes "livekit.connect") ≡ some true) ↔ (
      (true ≡ true)
      × ((stopping.enabled_categories ≡ [])
          ⊎ Some (Covers (codes "livekit.connect")) stopping.enabled_categories))
get_category_enabled-Covers_example =
    get_category_enabled-Covers stopping (codes "livekit.connect") ((λ e. cc), ((λ e. cc), tt))

connect_is_enabled : get_category_enabled stopping (codes "livekit.connect") ≡ some true
unfolding get_category_enabled contains matches_any matches_pattern back without_last has_prefix
    same_bytes
connect_is_enabled = refl
