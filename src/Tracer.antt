-- ===== src/Tracer.antt =====
-- The event tracer of src/trace/event_tracer.cpp: what the calls of its users, on any thread, and its
-- writer thread do to the queue of events and to the trace file. A part of a function that holds the
-- mutex is a step, and so is an access to an atomic flag outside it. No custom tracer is set.
pub mod Json
pub mod Journal
pub mod Stopping
pub mod Returning
pub mod Late
pub mod Categories
use client_sdk_cpp.Prelude.{
  ℕ, Bool, true, false, ◌||◌, ◌&&◌, not, List, [], ◌∷◌, ◌++◌, Option, none, some, if◌then◌else◌,
  take, map, length,
}
use client_sdk_cpp.Prelude.Assoc.{lookup, insert, erase, nat_eq}
use client_sdk_cpp.Prelude.Bytes.{codes}
use client_sdk_cpp.Tracer.Json.{TraceEventData, Arg, is_string_type, format_event_json}

-- The writer thread: there is none, it waits, it has a batch to write, or it has returned and waits
-- for its join.
pub data Writer : Type 0 where
  absent waiting : Writer
  writing : List TraceEventData → Writer
  returned : Writer

-- The global state. `checked` has the threads that are in `AddTraceEvent` between the test of the flag
-- and the push, with their events. The file keeps its bytes when it is closed.
pub record Tracer : Type 0 where
  pub event_queue : List TraceEventData
  pub enabled_categories : List (List ℕ)
  pub tracing_enabled : Bool
  pub shutdown_requested : Bool
  pub writer : Writer
  pub file_open : Bool
  -- `failbit`: nothing is written any more.
  pub file_failed : Bool
  pub file : List ℕ
  pub start_time : ℕ
  pub first_event : Bool
  pub checked : List (ℕ × TraceEventData)

unfoldable pub new_tracer : Tracer
new_tracer = record {
  event_queue = [];
  enabled_categories = [];
  tracing_enabled = false;
  shutdown_requested = false;
  writer = absent;
  file_open = false;
  file_failed = false;
  file = [];
  start_time = 0;
  first_event = true;
  checked = [];
}

-- An argument as it is passed; the arrays are not null, their entries may be.
pub record PassedArg : Type 0 where
  pub name : Option (List ℕ)
  pub type : ℕ
  pub value : ℕ
  -- The text that the value points to.
  pub pointee : Option (List ℕ)

-- A call of `AddTraceEvent`, with the time, the process and the thread that it reads.
pub record Call : Type 0 where
  pub phase : ℕ
  pub name : Option (List ℕ)
  pub id : ℕ
  pub args : List PassedArg
  pub flags : ℕ
  pub timestamp_us : ℕ
  pub pid : ℕ
  pub tid : ℕ

abbrev pub text_or_empty : Option (List ℕ) → List ℕ
text_or_empty none = []
text_or_empty (some text) = text

unfoldable pub copy_arg : PassedArg → Arg
copy_arg arg = record {
  name = text_or_empty arg.name;
  type = arg.type;
  value = arg.value;
  string_value = if is_string_type arg.type then text_or_empty arg.pointee else [];
}

-- The event that the call builds.
unfoldable pub build_event : Call → TraceEventData
build_event c = record {
  phase = c.phase;
  category = [];
  name = text_or_empty c.name;
  id = c.id;
  timestamp_us = c.timestamp_us;
  pid = c.pid;
  tid = c.tid;
  flags = c.flags;
  num_args = length c.args;
  args = map copy_arg (take 2 c.args);
}

-- `AddTraceEvent` on a thread: up to the push, and the push.
unfoldable pub add_begin : ℕ → Call → Tracer → Tracer
add_begin t c s =
    if s.tracing_enabled then record s { checked = insert t (build_event c) s.checked } else s

abbrev pub push_event : ℕ → Option TraceEventData → Tracer → Tracer
push_event t none s = s
push_event t (some event) s = record s {
  event_queue = s.event_queue ++ event ∷ [];
  checked = erase t s.checked;
}

unfoldable pub add_end : ℕ → Tracer → Tracer
add_end t s = push_event t (lookup t s.checked) s

abbrev pub has_events : List TraceEventData → Bool
has_events [] = false
has_events (event ∷ rest) = true

-- The writer's wait ends when there is an event or a shutdown; it then takes the whole queue.
abbrev pub drain : Writer → Tracer → Tracer
drain waiting s =
    if has_events s.event_queue || s.shutdown_requested
    then record s { event_queue = []; writer = writing s.event_queue }
    else s
drain _ s = s

module _ (print_double : ℕ → List ℕ) where
  unfoldable pub write_event : TraceEventData → Tracer → Tracer
  write_event event s =
      if s.file_open && not s.file_failed
      then record s {
        file =
            s.file
            ++ ((if s.first_event then [] else 44 ∷ [])
                ++ format_event_json print_double event s.start_time);
        first_event = false;
      }
      else (if s.file_open then record s { first_event = false } else s)

  -- The next event of the batch, or the end of the batch with the test for the end of the thread.
  abbrev pub write_next : Writer → Tracer → Tracer
  write_next (writing (event ∷ rest)) s = record (write_event event s) { writer = writing rest }
  write_next (writing []) s =
      if s.shutdown_requested && not (has_events s.event_queue)
      then record s { writer = returned }
      else record s { writer = waiting }
  write_next _ s = s

unfoldable pub file_header : List ℕ
file_header = codes "{\"traceEvents\":["

unfoldable pub file_footer : List ℕ
file_footer = codes "],\"displayTimeUnit\":\"ms\"}"

-- The file opened for a new trace. Opening it again while it is open fails and leaves it open.
abbrev pub open_file : Tracer → Tracer
open_file s =
    if s.file_open
    then record s { file_failed = true }
    else record s { file_open = true; file_failed = false; file = file_header }

-- Starting a thread in the place of one that was not joined ends the program.
pub data Started : Type 0 where
  running_already unopened started terminated : Started

abbrev pub is_absent : Writer → Bool
is_absent absent = true
is_absent _ = false

-- `StartTracing` at the time `now`, where a file that is closed can be opened or not.
unfoldable pub start_tracing : Bool → List (List ℕ) → ℕ → Tracer → Started × Tracer
start_tracing opens categories now s =
    if s.tracing_enabled
    then (running_already, s)
    else (if not opens && not s.file_open
        then (unopened, s)
        else (if not (is_absent s.writer) then (terminated, s) else (
          started,
          record (open_file s) {
            first_event = true;
            start_time = now;
            enabled_categories = categories;
            shutdown_requested = false;
            writer = waiting;
            tracing_enabled = true;
          },
        )))

-- `StopTracing`: the flag, the request under the mutex, the join and the end under the mutex.
unfoldable pub stop_disable : Tracer → Tracer
stop_disable s = record s { tracing_enabled = false }

unfoldable pub stop_request : Tracer → Tracer
stop_request s = record s { shutdown_requested = true }

-- A writer that has not returned is waited for.
abbrev pub join_writer : Writer → Writer
join_writer returned = absent
join_writer w = w

unfoldable pub stop_join : Tracer → Tracer
stop_join s = record s { writer = join_writer s.writer }

unfoldable pub stop_close : Tracer → Tracer
stop_close s = record s {
  file = if s.file_open && not s.file_failed then s.file ++ file_footer else s.file;
  file_open = false;
  enabled_categories = [];
}

-- What the threads do, in the order in which they do it.
pub data Step : Type 0 where
  begins : ℕ → Call → Step
  ends : ℕ → Step
  drains writes disables requests joins closes : Step
  starts : Bool → List (List ℕ) → ℕ → Step

module _ (print_double : ℕ → List ℕ) where
  unfoldable pub step : Step → Tracer → Tracer
  step (begins t c) s = add_begin t c s
  step (ends t) s = add_end t s
  step drains s = drain s.writer s
  step writes s = write_next print_double s.writer s
  step disables s = stop_disable s
  step requests s = stop_request s
  step joins s = stop_join s
  step closes s = stop_close s
  step (starts opens categories now) s = (start_tracing opens categories now s).1

  unfoldable pub run : List Step → Tracer → Tracer
  run [] s = s
  run (st ∷ steps) s = run steps (step st s)
