-- ===== src/DataTrackStream.antt =====
-- `DataTrackStream` of src/data_track_stream.cpp. The user's thread calls `read` and `close`, the
-- native library's thread `on_ffi_event`. `read` is two steps, `read_request` up to the wait and
-- `read_take` from it: other threads run between them.
pub mod Demand
pub mod Ending
use client_sdk_cpp.Prelude.{
  is_some, ℕ, Bool, true, false, ◌||◌, ◌&&◌, not, List, [], ◌∷◌, ◌++◌, Option, none, some, String,
  if◌then◌else◌, ◌==◌,
}

pub data ErrorCode : Type 0 where
  unknown invalid_handle unpublished timeout disconnected protocol_error internal : ErrorCode

-- `SubscribeDataTrackError`
pub record Error : Type 0 where
  pub code : ErrorCode
  pub message : String

-- Calls out of the object: the disposal of the handle, `FfiClient::removeListener`, the wake-ups,
-- and an `assert` that fails.
pub data Effect : Type 0 where
  drops_handle removes_listener : ℕ → Effect
  notifies_one notifies_all asserts : Effect

-- A handle 0 stands for none; the listener id -1 is `none`.
pub record DataTrackStream {ℓ} (A : Type ℓ) : Type ℓ where
  pub frame : Option A
  pub eof : Bool
  pub closed : Bool
  pub terminal_error : Option Error
  pub subscription_handle : ℕ
  pub listener_id : Option ℕ

-- `DataTrackStreamEvent` and the response to a read request; an EOS has an error or not.
pub data Payload {ℓ} (A : Type ℓ) : Type ℓ where
  frame_received : A → Payload A
  eos : Option Error → Payload A
  not_set : Payload A

pub data FfiEvent {ℓ} (A : Type ℓ) : Type ℓ where
  stream_event : ℕ → Payload A → FfiEvent A
  other_event : FfiEvent A

-- What `sendRequest` gives: it throws, or the response lacks its read part, or has it, with an EOS
-- or without.
pub data ReadResponse : Type 0 where
  throws missing : ReadResponse
  accepted : Option (Option Error) → ReadResponse

pub data Request : Type 0 where
  -- `return false`, an exception, or on to the wait
  refused failed thrown pending : Request

pub data Taken {ℓ} (A : Type ℓ) : Type ℓ where
  waiting : Taken A
  delivered : A → Taken A
  ended : Taken A

pub missing_read_response : Error
missing_read_response = record {
  code = protocol_error;
  message = "DataTrackStream::read: FFI response missing data_track_stream_read";
}

abbrev pub removal : Option ℕ → List Effect
removal none = []
removal (some id) = removes_listener id ∷ []

module _ {ℓ} {A : Type ℓ} where
  -- The assert is that no frame is there; without it the frame is replaced.
  unfoldable pub push_frame : A → DataTrackStream A → DataTrackStream A × List Effect
  push_frame f s = if s.closed || s.eof then (s, []) else (
    record s { frame = some f },
    if is_some s.frame then asserts ∷ notifies_one ∷ [] else notifies_one ∷ [],
  )

  unfoldable pub push_eos : Option Error → DataTrackStream A → DataTrackStream A × List Effect
  push_eos error s =
      if s.closed || s.eof
      then (s, [])
      else (record s { eof = true; terminal_error = error }, notifies_all ∷ [])

  unfoldable pub close : DataTrackStream A → DataTrackStream A × List Effect
  close s = if s.closed then (s, []) else (
    record s {
      closed = true;
      terminal_error = if s.eof then s.terminal_error else none;
      subscription_handle = 0;
      listener_id = none;
    },
    (if s.subscription_handle == 0 then [] else drops_handle s.subscription_handle ∷ [])
        ++ (removal s.listener_id ++ notifies_all ∷ []),
  )

  unfoldable pub fail_protocol_error : DataTrackStream A → DataTrackStream A × List Effect
  unfolding missing_read_response
  fail_protocol_error s =
      let (s', fx) = push_eos (some missing_read_response) s in
      let (s'', fx') = close s' in (s'', fx ++ fx')

  unfoldable pub handle_read_response :
      Option (Option Error) → DataTrackStream A → DataTrackStream A × List Effect
  handle_read_response none s = (s, [])
  handle_read_response (some error) s = push_eos error s

  -- `read` up to the wait.
  unfoldable pub read_request :
      ReadResponse → DataTrackStream A → Request × DataTrackStream A × List Effect
  read_request response s = if s.closed || s.eof then (refused, s, []) else (elim response [
    | throws ↦ (thrown, s, [])
    | missing ↦ let (s', fx) = fail_protocol_error s in (failed, s', fx)
    | accepted eos_event ↦ let (s', fx) = handle_read_response eos_event s in (pending, s', fx)
  ])

  take_frame : Option A → DataTrackStream A → Taken A × DataTrackStream A
  take_frame none s = (if s.eof || s.closed then ended else waiting, s)
  take_frame (some f) s = if s.closed then (ended, s) else (delivered f, record s { frame = none })

  -- `read` from the wait on.
  unfoldable pub read_take : DataTrackStream A → Taken A × DataTrackStream A
  unfolding take_frame
  read_take s = take_frame s.frame s

  unfoldable pub on_payload : Payload A → DataTrackStream A → DataTrackStream A × List Effect
  on_payload (frame_received f) s = push_frame f s
  on_payload (eos error) s = push_eos error s
  on_payload not_set s = (s, [])

  unfoldable pub on_ffi_event : FfiEvent A → DataTrackStream A → DataTrackStream A × List Effect
  on_ffi_event other_event s = (s, [])
  on_ffi_event (stream_event handle payload) s =
      if s.closed || not (handle == s.subscription_handle) then (s, []) else on_payload payload s
