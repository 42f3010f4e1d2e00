-- ===== src/DataTrack/Ends.antt =====
-- The two ends of a data track: `LocalDataTrack` (src/local_data_track.cpp), `RemoteDataTrack`
-- (src/remote_data_track.cpp), the frames between them (src/data_track_frame.cpp) and their errors
-- (src/data_track_error.cpp). A handle 0 is not valid. What becomes of a request is an argument.
pub mod Carried
use client_sdk_cpp.Prelude.{
  ℕ, Bool, true, false, List, [], ◌∷◌, Option, none, some, String, if◌then◌else◌, ◌==◌, length,
}
use client_sdk_cpp.DataTrackStream.{ErrorCode, Error, DataTrackStream}
use client_sdk_cpp.DataTrackStream

-- The codes of the protocol, and those of the SDK; `unlisted` is any other number.
pub data ProtoTryPushErrorCode : Type 0 where
  unknown invalid_handle track_unpublished queue_full internal unlisted : ProtoTryPushErrorCode

pub data TryPushErrorCode : Type 0 where
  unknown invalid_handle track_unpublished queue_full internal : TryPushErrorCode

pub data ProtoSubscribeErrorCode : Type 0 where
  unknown invalid_handle unpublished timeout disconnected protocol_error internal unlisted :
      ProtoSubscribeErrorCode

abbrev pub try_push_code : ProtoTryPushErrorCode → TryPushErrorCode
try_push_code ProtoTryPushErrorCode.invalid_handle = TryPushErrorCode.invalid_handle
try_push_code ProtoTryPushErrorCode.track_unpublished = TryPushErrorCode.track_unpublished
try_push_code ProtoTryPushErrorCode.queue_full = TryPushErrorCode.queue_full
try_push_code ProtoTryPushErrorCode.internal = TryPushErrorCode.internal
try_push_code ProtoTryPushErrorCode.unknown = TryPushErrorCode.unknown
try_push_code ProtoTryPushErrorCode.unlisted = TryPushErrorCode.unknown

abbrev pub subscribe_code : ProtoSubscribeErrorCode → ErrorCode
subscribe_code ProtoSubscribeErrorCode.invalid_handle = ErrorCode.invalid_handle
subscribe_code ProtoSubscribeErrorCode.unpublished = ErrorCode.unpublished
subscribe_code ProtoSubscribeErrorCode.timeout = ErrorCode.timeout
subscribe_code ProtoSubscribeErrorCode.disconnected = ErrorCode.disconnected
subscribe_code ProtoSubscribeErrorCode.protocol_error = ErrorCode.protocol_error
subscribe_code ProtoSubscribeErrorCode.internal = ErrorCode.internal
subscribe_code ProtoSubscribeErrorCode.unknown = ErrorCode.unknown
subscribe_code ProtoSubscribeErrorCode.unlisted = ErrorCode.unknown

pub record TryPushError : Type 0 where
  pub code : TryPushErrorCode
  pub message : String

pub record DataTrackFrame : Type 0 where
  pub payload : List ℕ
  pub user_timestamp : Option ℕ

-- `proto::DataTrackFrame`
pub record ProtoFrame : Type 0 where
  pub payload : List ℕ
  pub user_timestamp : Option ℕ

unfoldable pub from_owned_info : ProtoFrame → DataTrackFrame
from_owned_info owned = record { payload = owned.payload; user_timestamp = owned.user_timestamp }

-- The requests to the native library, with the track's handle.
pub data Request : Type 0 where
  try_push_request : ℕ → ProtoFrame → Request
  local_is_published local_unpublish remote_is_published : ℕ → Request
  set_pipeline_options_request subscribe_request : ℕ → Option ℕ → Request

-- The answer to a push: `sendRequest` throws, or there is a response, where a part that is missing
-- reads as one without an error.
pub data PushReply : Type 0 where
  throws : String → PushReply
  answers : Option (ProtoTryPushErrorCode × String) → PushReply

-- `Result<void, LocalDataTrackTryPushError>`
pub data PushResult : Type 0 where
  success : PushResult
  failure : TryPushError → PushResult

-- A pointer and a size: the pointer is null, or the bytes are there.
pub data Buffer : Type 0 where
  null : ℕ → Buffer
  bytes : List ℕ → Buffer

abbrev pub push_result : PushReply → PushResult
push_result (throws what) = failure (record { code = TryPushErrorCode.internal; message = what })
push_result (answers none) = success
push_result (answers (some (code, message))) =
    failure (record { code = try_push_code code; message = message })

abbrev pub push_buffer : ℕ → Buffer → Option ℕ → PushReply → PushResult × List Request
push_buffer handle (null size) timestamp r = if size == 0 then (success, []) else (
  failure (record {
    code = TryPushErrorCode.internal;
    message = "LocalDataTrack::tryPush: payload pointer is null";
  }),
  [],
)
push_buffer handle (bytes payload) timestamp r = if length payload == 0 then (success, []) else (
  push_result r,
  try_push_request handle (record { payload = payload; user_timestamp = timestamp }) ∷ [],
)

-- `tryPush` of a pointer, of the track with this handle.
unfoldable pub try_push_buffer : ℕ → Buffer → Option ℕ → PushReply → PushResult × List Request
try_push_buffer handle buffer timestamp r =
    if handle == 0
    then (
      failure (record {
        code = TryPushErrorCode.invalid_handle;
        message = "LocalDataTrack::tryPush: invalid FFI handle";
      }),
      [],
    )
    else push_buffer handle buffer timestamp r

-- `tryPush` of a frame.
unfoldable pub try_push : ℕ → DataTrackFrame → PushReply → PushResult × List Request
try_push handle frame r = try_push_buffer handle (bytes frame.payload) frame.user_timestamp r

-- `isPublished` of either end, by the response's answer; a throw is passed on.
unfoldable pub is_published : (ℕ → Request) → ℕ → Option Bool → Option Bool × List Request
is_published request handle r = if handle == 0 then (some false, []) else (r, request handle ∷ [])

unfoldable pub unpublish_data_track : ℕ → List Request
unpublish_data_track handle = if handle == 0 then [] else local_unpublish handle ∷ []

unfoldable pub set_pipeline_options : ℕ → Option ℕ → List Request
set_pipeline_options handle max_partial_frames =
    if handle == 0 then [] else set_pipeline_options_request handle max_partial_frames ∷ []

-- The answer to a subscription.
pub data SubscribeReply : Type 0 where
  throws : String → SubscribeReply
  lacks_part lacks_stream : SubscribeReply
  stream : ℕ → SubscribeReply

pub data SubscribeResult {ℓ} (A : Type ℓ) : Type ℓ where
  success : A → SubscribeResult A
  failure : Error → SubscribeResult A

-- `FfiClient::subscribeDataTrack`, which gives the handle of the stream.
unfoldable pub subscribe_data_track : SubscribeReply → SubscribeResult ℕ
subscribe_data_track (throws what) = failure (record { code = ErrorCode.internal; message = what })
subscribe_data_track lacks_part = failure (record {
  code = ErrorCode.protocol_error;
  message = "FfiResponse missing subscribe_data_track";
})
subscribe_data_track lacks_stream = failure (record {
  code = ErrorCode.protocol_error;
  message = "FfiResponse subscribe_data_track missing stream";
})
subscribe_data_track (stream handle) = success handle

-- A new stream after `DataTrackStream::init`, with the id of its listener.
unfoldable pub init : {A : Type 0} → ℕ → ℕ → DataTrackStream A
init subscription_handle listener_id = record {
  frame = none;
  eof = false;
  closed = false;
  terminal_error = none;
  subscription_handle = subscription_handle;
  listener_id = some listener_id;
}

abbrev pub with_stream : {A : Type 0} → ℕ → SubscribeResult ℕ → SubscribeResult (DataTrackStream A)
with_stream listener_id (success handle) = success (init handle listener_id)
with_stream listener_id (failure e) = failure e

-- `RemoteDataTrack::subscribe`, where the stream's listener gets this id.
unfoldable pub subscribe :
    {A : Type 0}
    → ℕ
    → Option ℕ
    → ℕ
    → SubscribeReply
    → SubscribeResult (DataTrackStream A) × List Request
subscribe handle buffer_size listener_id r =
    if handle == 0
    then (
      failure (record {
        code = ErrorCode.invalid_handle;
        message = "RemoteDataTrack::subscribe: invalid FFI handle";
      }),
      [],
    )
    else (
      with_stream listener_id (subscribe_data_track r),
      subscribe_request handle buffer_size ∷ [],
    )
