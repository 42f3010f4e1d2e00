-- ===== src/FfiClient/Requests/Answers.antt =====
-- Every asynchronous request of src/ffi_client.cpp is answered: by its event, or at once if it fails.
use client_sdk_cpp.Prelude.{
  ℕ, ◌+◌, Bool, true, false, ◌∷◌, Option, none, some, String, ◌≡◌, ◌≢◌, refl, arith, ◌∙◌, ap, sym,
  inl, inr, ◌⊎◌,
}
use client_sdk_cpp.Prelude.Assoc.{◌==◌, string_eq, nat_eq, lookup, emplace}
use client_sdk_cpp.FfiClient.{
  Client, initialized, generate_async_id, register_async, completed, push_event, request_async,
}
use client_sdk_cpp.FfiClient.Event.{
  FfiEvent, is_answer, Kind, connect, disconnect, publish_track, unpublish_track, publish_data,
  capture_audio_frame, set_local_metadata, get_stats, get_session_stats, publish_sip_dtmf,
  perform_rpc, send_stream_header, send_stream_chunk, send_stream_trailer, publish_data_track,
  define_schema, get_schema,
}
use client_sdk_cpp.FfiClient.Promises.{push_event_completes, push_event_ignored}
use client_sdk_cpp.FfiClient.Requests.{
  Callback, value, future, Request, connect_async, disconnect_async, get_track_stats_async,
  get_session_stats_async, publish_track_async, unpublish_track_async, publish_data_async,
  publish_data_track_async, publish_sip_dtmf_async, set_local_metadata_async,
  capture_audio_frame_async, perform_rpc_async, send_stream_header_async, send_stream_chunk_async,
  send_stream_trailer_async, define_schema_async, get_schema_async, Native, unserialisable,
  no_handle, no_bytes, no_response, answered, send_request, perform,
}

-- The functions of the client that return a future.
pub data Name : Type 0 where
  connects disconnects gets_track_stats gets_session_stats publishes_track unpublishes_track
        publishes_data :
      Name
  publishes_data_track publishes_sip_dtmf sets_local_metadata captures_audio_frame performs_rpc :
      Name
  sends_stream_header sends_stream_chunk sends_stream_trailer defines_schema gets_schema : Name

abbrev pub request_of : Name → Request
request_of connects = connect_async
request_of disconnects = disconnect_async
request_of gets_track_stats = get_track_stats_async
request_of gets_session_stats = get_session_stats_async
request_of publishes_track = publish_track_async
request_of unpublishes_track = unpublish_track_async
request_of publishes_data = publish_data_async
request_of publishes_data_track = publish_data_track_async
request_of publishes_sip_dtmf = publish_sip_dtmf_async
request_of sets_local_metadata = set_local_metadata_async
request_of captures_audio_frame = capture_audio_frame_async
request_of performs_rpc = perform_rpc_async
request_of sends_stream_header = send_stream_header_async
request_of sends_stream_chunk = send_stream_chunk_async
request_of sends_stream_trailer = send_stream_trailer_async
request_of defines_schema = define_schema_async
request_of gets_schema = get_schema_async

-- Which function an event answers.
name_of : Kind → Option Name
name_of connect = some connects
name_of disconnect = some disconnects
name_of get_stats = some gets_track_stats
name_of get_session_stats = some gets_session_stats
name_of publish_track = some publishes_track
name_of unpublish_track = some unpublishes_track
name_of publish_data = some publishes_data
name_of publish_data_track = some publishes_data_track
name_of publish_sip_dtmf = some publishes_sip_dtmf
name_of set_local_metadata = some sets_local_metadata
name_of capture_audio_frame = some captures_audio_frame
name_of perform_rpc = some performs_rpc
name_of send_stream_header = some sends_stream_header
name_of send_stream_chunk = some sends_stream_chunk
name_of send_stream_trailer = some sends_stream_trailer
name_of define_schema = some defines_schema
name_of get_schema = some gets_schema
name_of _ = none

facts :
    (n : Name) → (is_answer (request_of n).awaits ≡ true) × (name_of (request_of n).awaits ≡ some n)
unfolding name_of connect_async disconnect_async get_track_stats_async get_session_stats_async
    publish_track_async unpublish_track_async publish_data_async publish_data_track_async
    publish_sip_dtmf_async set_local_metadata_async capture_audio_frame_async perform_rpc_async
    send_stream_header_async send_stream_chunk_async send_stream_trailer_async define_schema_async
    get_schema_async
facts connects = (refl, refl)
facts disconnects = (refl, refl)
facts gets_track_stats = (refl, refl)
facts gets_session_stats = (refl, refl)
facts publishes_track = (refl, refl)
facts unpublishes_track = (refl, refl)
facts publishes_data = (refl, refl)
facts publishes_data_track = (refl, refl)
facts publishes_sip_dtmf = (refl, refl)
facts sets_local_metadata = (refl, refl)
facts captures_audio_frame = (refl, refl)
facts performs_rpc = (refl, refl)
facts sends_stream_header = (refl, refl)
facts sends_stream_chunk = (refl, refl)
facts sends_stream_trailer = (refl, refl)
facts defines_schema = (refl, refl)
facts gets_schema = (refl, refl)

abbrev pub has_part : Native → Bool
has_part (answered part) = part
has_part _ = false

-- A request does to the client what `request_async` says, whatever becomes of it.
perform-request_async :
    (request : Request) (native : Native) (c : Client)
    → (perform request native c).1 ≡ (request_async request.awaits (has_part native) c).1
unfolding perform request_async send_request
perform-request_async request unserialisable c = ground arith
perform-request_async request no_handle c = ground arith
perform-request_async request no_bytes c = ground arith
perform-request_async request no_response c = ground arith
perform-request_async request (answered true) c = ground arith
perform-request_async request (answered false) c = ground arith

awaits_distinct : (m n : Name) → (request_of m).awaits ≡ (request_of n).awaits → m ≡ n
awaits_distinct m n e =
    let same : some m ≡ some n = sym (facts m).1 ∙ ap name_of e ∙ (facts n).1 in cc

-- The event that the function waits for, under an id.
abbrev pub answer : Name → ℕ → FfiEvent
answer n id = record { kind = (request_of n).awaits; async_id = id }

perform_pending :
    (n : Name) (c : Client)
    → c.lifecycle ≡ initialized
    → lookup c.next_async_id c.pending ≡ none
    → let (r, c') = perform (request_of n) (answered true) c in
      (r ≡ future c.next_async_id)
      × (c'.lifecycle ≡ initialized)
      × (lookup c.next_async_id c'.pending ≡ some (request_of n).awaits)
      × (c'.settled ≡ c.settled)
unfolding perform send_request generate_async_id register_async emplace lookup
perform_pending n c i absent = ground arith

kinds_equal : {o : Option Kind} {j k : Kind} → o ≡ some j → o ≡ some k → k ≡ j
kinds_equal a b = cc

-- A request that a running client sends with an id that is not pending yet, and that the native library
-- takes, returns its future. The event that the function waits for, when it comes under the id,
-- settles the promise and takes it off the pending ones; an event that another of the functions waits
-- for, under the same id, does nothing.
pub request_answered :
    (n m : Name) (c : Client)
    → c.lifecycle ≡ initialized
    → lookup c.next_async_id c.pending ≡ none
    → m ≢ n
    → let (r, c') = perform (request_of n) (answered true) c in
      (r ≡ future c.next_async_id)
      × (lookup c.next_async_id (push_event (answer n c.next_async_id) c').0.pending ≡ none)
      × ((push_event (answer n c.next_async_id) c').0.settled
          ≡ (c.next_async_id, completed (answer n c.next_async_id)) ∷ c.settled)
      × ((push_event (answer m c.next_async_id) c').0 ≡ c')
request_answered n m c i absent ne =
    let (returned, running, pending, settled) = perform_pending n c i absent in
    let c' = (perform (request_of n) (answered true) c).1 in
    let id = c.next_async_id in
    let (gone, got, kept) =
      push_event_completes c' (answer n id) (id + 1) running (facts n).0 pending
        (λ e. omega arith) in
    let other : lookup id c'.pending ≢ some (request_of m).awaits =
      λ e. ne (awaits_distinct m n (kinds_equal pending e)) in
    (
      returned,
      gone,
      got ∙ ap (λ s. (id, completed (answer n id)) ∷ s) settled,
      push_event_ignored c' (answer m id) (inr (inr other)),
    )

-- Every function but `disconnectAsync`, whose event has no error, tells its caller of an error that the
-- event names: its future does not give a value. Without an error and with its part, the event settles
-- each with a value.
pub request_errors :
    (n : Name) (cb : Callback) (text : String)
    → (text == "") ≡ false
    → let handler = (request_of n).handler in
      ((n ≡ disconnects) ⊎ (handler (record { error = some text; complete = cb.complete }) ≢ value))
      × (handler (record { error = none; complete = true }) ≡ value)
unfolding connect_async disconnect_async get_track_stats_async get_session_stats_async
    publish_track_async unpublish_track_async publish_data_async publish_data_track_async
    publish_sip_dtmf_async set_local_metadata_async capture_audio_frame_async perform_rpc_async
    send_stream_header_async send_stream_chunk_async send_stream_trailer_async define_schema_async
    get_schema_async
request_errors disconnects cb text h = (inl refl, refl)
request_errors connects cb text h = ground arith
request_errors gets_track_stats cb text h = ground arith
request_errors gets_session_stats cb text h = ground arith
request_errors publishes_track cb text h = ground arith
request_errors unpublishes_track cb text h = ground arith
request_errors publishes_data cb text h = ground arith
request_errors publishes_data_track cb text h = ground arith
request_errors publishes_sip_dtmf cb text h = ground arith
request_errors sets_local_metadata cb text h = ground arith
request_errors captures_audio_frame cb text h = ground arith
request_errors performs_rpc cb text h = ground arith
request_errors sends_stream_header cb text h = ground arith
request_errors sends_stream_chunk cb text h = ground arith
request_errors sends_stream_trailer cb text h = ground arith
request_errors defines_schema cb text h = ground arith
request_errors gets_schema cb text h = ground arith
