-- ===== src/AudioProcessing.antt =====
-- `AudioProcessingModule` of src/audio_processing_module.cpp. A handle 0 is not valid, and a frame is
-- the number of its samples with its format: the native library changes the samples in place.
pub mod Reports
use client_sdk_cpp.Prelude.{
  ℕ, Bool, List, [], ◌∷◌, Option, none, some, String, if◌then◌else◌, ◌==◌, ◌*◌, ◌%◌, ◌^◌,
}
use Prim.Native.String.{◌++◌}
use client_sdk_cpp.Native.{Reply, fails, lacks_part, answers, Done, returns, throws}

pub record Options : Type 0 where
  pub echo_cancellation : Bool
  pub noise_suppression : Bool
  pub high_pass_filter : Bool
  pub auto_gain_control : Bool

pub record AudioFrame : Type 0 where
  pub samples : ℕ
  pub sample_rate : ℕ
  pub num_channels : ℕ

pub data Request : Type 0 where
  new_apm : Options → Request
  -- The handle, the size in bytes, the sample rate and the number of channels.
  process_stream_request process_reverse_stream_request : ℕ → ℕ → ℕ → ℕ → Request
  set_stream_delay_request : ℕ → ℕ → Request

-- The constructor, by the handle in the response; it gives the handle of the module.
unfoldable pub create : Options → Reply ℕ → Done ℕ × Request
create options (fails e) = (throws e, new_apm options)
create options lacks_part =
    (throws "AudioProcessingModule: failed to create APM - no response", new_apm options)
create options (answers handle) = (
  if handle == 0
      then throws "AudioProcessingModule: failed to create APM - invalid handle"
      else returns handle,
  new_apm options,
)

-- What a function says of the response to its request.
abbrev pub outcome : String → Reply (Option String) → Done (Unit {0})
outcome function (fails e) = throws e
outcome function lacks_part = throws (function ++ ": unexpected response")
outcome function (answers (some e)) = throws (function ++ (": " ++ e))
outcome function (answers none) = returns tt

abbrev pub invalid : Done (Unit {0}) × List Request
invalid = (throws "AudioProcessingModule: invalid handle", [])

-- The size in bytes as a `std::uint32_t`.
abbrev pub byte_size : AudioFrame → ℕ
byte_size frame = frame.samples * 2 % 2 ^ 32

unfoldable pub process_stream :
    ℕ → AudioFrame → Reply (Option String) → Done (Unit {0}) × List Request
process_stream handle frame r =
    if handle == 0
    then invalid
    else (if frame.samples == 0 then (returns tt, []) else (
      outcome "AudioProcessingModule::processStream" r,
      process_stream_request handle (byte_size frame) frame.sample_rate frame.num_channels ∷ [],
    ))

unfoldable pub process_reverse_stream :
    ℕ → AudioFrame → Reply (Option String) → Done (Unit {0}) × List Request
process_reverse_stream handle frame r =
    if handle == 0
    then invalid
    else (if frame.samples == 0 then (returns tt, []) else (
      outcome "AudioProcessingModule::processReverseStream" r,
      process_reverse_stream_request handle (byte_size frame) frame.sample_rate frame.num_channels
          ∷ [],
    ))

unfoldable pub set_stream_delay_ms : ℕ → ℕ → Reply (Option String) → Done (Unit {0}) × List Request
set_stream_delay_ms handle delay_ms r = if handle == 0 then invalid else (
  outcome "AudioProcessingModule::setStreamDelayMs" r,
  set_stream_delay_request handle delay_ms ∷ [],
)
