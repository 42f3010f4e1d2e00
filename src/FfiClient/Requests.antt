-- ===== src/FfiClient/Requests.antt =====
-- The asynchronous requests of src/ffi_client.cpp. Each is described by what it does apart from the
-- shape that they share: the event that it waits for, what its handler does with the event's message,
-- and how it fails. `perform` is the shape.
pub mod Answers
use client_sdk_cpp.Prelude.{
  ℕ, Bool, true, false, ◌&&◌, not, is_some, Option, none, some, String, if◌then◌else◌,
}
use client_sdk_cpp.Prelude.Assoc.{◌==◌, string_eq}
use client_sdk_cpp.FfiClient.{
  Client, LifecycleState, is_initialized, generate_async_id, register_async, cancel_pending,
}
use client_sdk_cpp.FfiClient.Event.{
  Kind, connect, disconnect, publish_track, unpublish_track, publish_data, capture_audio_frame,
  set_local_metadata, get_stats, get_session_stats, publish_sip_dtmf, perform_rpc,
  send_stream_header, send_stream_chunk, send_stream_trailer, publish_data_track, define_schema,
  get_schema,
}

-- What a handler looks at in the message of its event: `has_error()` and `error()`, which is empty
-- where there is none, and `has_result()`, `has_publication()` or `has_track()`.
pub record Callback : Type 0 where
  pub error : Option String
  pub complete : Bool

abbrev pub error_of : Callback → String
error_of cb = elim cb.error [ none ↦ "" | some text ↦ text ]

-- `PublishDataTrackErrorCode`, as far as the client sets it; `from_native` is that of a message.
pub data ErrorCode : Type 0 where
  protocol_error internal from_native : ErrorCode

-- `set_value` with a value or with a `Result` that failed, or `set_exception`.
pub data Outcome : Type 0 where
  value : Outcome
  failure : String → Outcome
  track_failure : ErrorCode → String → Outcome
  exception : String → Outcome

-- What a request returns: its future, an exception, or a future that is ready at once.
pub data Returned : Type 0 where
  future : ℕ → Returned
  throws : String → Returned
  ready : Outcome → Returned

pub record Request : Type 0 where
  pub awaits : Kind
  pub handler : Callback → Outcome
  pub on_missing : Returned
  pub on_throw : String → Returned

-- `if (!cb.error().empty()) set_exception else set_value`
abbrev pub value_unless_error : Callback → Outcome
value_unless_error cb = if error_of cb == "" then value else exception (error_of cb)

-- `if (cb.has_error() && !cb.error().empty()) set_exception else set_value`
abbrev pub value_unless_has_error : Callback → Outcome
value_unless_has_error cb =
    if is_some cb.error && not (error_of cb == "") then exception (error_of cb) else value

unfoldable pub connect_async : Request
connect_async = record {
  awaits = connect;
  handler = value_unless_error;
  on_missing = throws "FfiResponse missing connect";
  on_throw = throws;
}

unfoldable pub disconnect_async : Request
disconnect_async = record {
  awaits = disconnect;
  handler = λ cb. value;
  on_missing = throws "FfiResponse missing disconnect";
  on_throw = throws;
}

unfoldable pub get_track_stats_async : Request
get_track_stats_async = record {
  awaits = get_stats;
  handler = value_unless_error;
  on_missing = throws "FfiResponse missing get_stats";
  on_throw = throws;
}

unfoldable pub get_session_stats_async : Request
get_session_stats_async = record {
  awaits = get_session_stats;
  handler = λ cb.
      if is_some cb.error
      then exception (error_of cb)
      else (if cb.complete
          then value
          else exception "GetSessionStatsCallback missing result and error");
  on_missing = throws "FfiResponse missing get_session_stats";
  on_throw = throws;
}

unfoldable pub publish_track_async : Request
publish_track_async = record {
  awaits = publish_track;
  handler = λ cb.
      if is_some cb.error && not (error_of cb == "")
      then exception (error_of cb)
      else (if cb.complete then value else exception "PublishTrackCallback missing publication");
  on_missing = throws "FfiResponse missing publish_track";
  on_throw = throws;
}

unfoldable pub unpublish_track_async : Request
unpublish_track_async = record {
  awaits = unpublish_track;
  handler = value_unless_has_error;
  on_missing = throws "FfiResponse missing unpublish_track";
  on_throw = throws;
}

unfoldable pub publish_data_async : Request
publish_data_async = record {
  awaits = publish_data;
  handler = value_unless_has_error;
  on_missing = throws "FfiResponse missing publish_data";
  on_throw = throws;
}

unfoldable pub publish_data_track_async : Request
publish_data_track_async = record {
  awaits = publish_data_track;
  handler = λ cb.
      if is_some cb.error
      then track_failure from_native (error_of cb)
      else (if cb.complete
          then value
          else track_failure protocol_error "PublishDataTrackCallback missing track");
  on_missing = ready (track_failure protocol_error "FfiResponse missing publish_data_track");
  on_throw = λ what. ready (track_failure internal what);
}

unfoldable pub publish_sip_dtmf_async : Request
publish_sip_dtmf_async = record {
  awaits = publish_sip_dtmf;
  handler = value_unless_has_error;
  on_missing = throws "FfiResponse missing publish_sip_dtmf";
  on_throw = throws;
}

unfoldable pub set_local_metadata_async : Request
set_local_metadata_async = record {
  awaits = set_local_metadata;
  handler = value_unless_has_error;
  on_missing = throws "FfiResponse missing set_local_metadata";
  on_throw = throws;
}

unfoldable pub capture_audio_frame_async : Request
capture_audio_frame_async = record {
  awaits = capture_audio_frame;
  handler = value_unless_has_error;
  on_missing = throws "FfiResponse missing capture_audio_frame";
  on_throw = throws;
}

-- The exception is an `RpcError`; here it is its text.
unfoldable pub perform_rpc_async : Request
perform_rpc_async = record {
  awaits = perform_rpc;
  handler = λ cb. if is_some cb.error then exception (error_of cb) else value;
  on_missing = throws "FfiResponse missing perform_rpc";
  on_throw = throws;
}

unfoldable pub send_stream_header_async : Request
send_stream_header_async = record {
  awaits = send_stream_header;
  handler = value_unless_error;
  on_missing = throws "FfiResponse missing send_stream_header";
  on_throw = throws;
}

unfoldable pub send_stream_chunk_async : Request
send_stream_chunk_async = record {
  awaits = send_stream_chunk;
  handler = value_unless_error;
  on_missing = throws "FfiResponse missing send_stream_chunk";
  on_throw = throws;
}

unfoldable pub send_stream_trailer_async : Request
send_stream_trailer_async = record {
  awaits = send_stream_trailer;
  handler = value_unless_error;
  on_missing = throws "FfiResponse missing send_stream_trailer";
  on_throw = throws;
}

unfoldable pub define_schema_async : Request
define_schema_async = record {
  awaits = define_schema;
  handler =
      λ cb. if is_some cb.error && not (error_of cb == "") then failure (error_of cb) else value;
  on_missing = ready (failure "FfiResponse missing define_schema");
  on_throw = λ what. ready (failure what);
}

unfoldable pub get_schema_async : Request
get_schema_async = record {
  awaits = get_schema;
  handler =
      λ cb. if is_some cb.error && not (error_of cb == "") then failure (error_of cb) else value;
  on_missing = ready (failure "FfiResponse missing get_schema");
  on_throw = λ what. ready (failure what);
}

-- What becomes of a request on its way to the native library and back: it cannot be serialised, the
-- library gives no handle, or no bytes, or bytes that are no response, or a response; `answered` says
-- whether this has the part that belongs to the request.
pub data Native : Type 0 where
  unserialisable no_handle no_bytes no_response : Native
  answered : Bool → Native

pub data Reply : Type 0 where
  refused : String → Reply
  accepted : Bool → Reply

-- `sendRequest`: the response, or the exception.
unfoldable pub send_request : LifecycleState → Native → Reply
send_request lifecycle native =
    if is_initialized lifecycle
    then (elim native [
      | unserialisable ↦ refused "failed to serialize FfiRequest"
      | no_handle ↦ refused "failed to send request, received an invalid handle"
      | no_bytes ↦ refused "FFI returned empty response bytes"
      | no_response ↦ refused "failed to parse FfiResponse"
      | answered part ↦ accepted part
    ])
    else refused "FfiClient::sendRequest failed: LiveKit is not initialized"

-- The shape of the requests: the promise is registered before the request is sent, and a failure takes
-- it out again.
unfoldable pub perform : Request → Native → Client → Returned × Client
perform request native c =
    let (id, c') = generate_async_id c in
    let c'' = register_async id request.awaits c' in
    (elim (send_request c.lifecycle native) [
      | refused what ↦ (request.on_throw what, (cancel_pending id c'').1)
      | accepted true ↦ (future id, c'')
      | accepted false ↦ (request.on_missing, (cancel_pending id c'').1)
    ])
