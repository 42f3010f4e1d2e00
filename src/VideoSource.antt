-- ===== src/VideoSource.antt =====
-- Video sources (src/video_source.cpp): frames, and access units that are encoded already, on the way to
-- the native library. A handle 0 is not valid.
use client_sdk_cpp.Prelude.{
  ℕ, Bool, false, List, [], ◌∷◌, Option, none, String, if◌then◌else◌, ◌==◌, ◌||◌,
}
use client_sdk_cpp.Native.{Reply, fails, lacks_part, answers, Done, returns, throws}
use client_sdk_cpp.VideoFrame.{VideoFrame}
use client_sdk_cpp.Conversions.Media.{
  VideoFrameMetadata, ProtoMetadata, BufferInfo, frame_to_proto, metadata_to_proto,
}

pub record VideoSource : Type 0 where
  pub handle : ℕ
  pub width : ℕ
  pub height : ℕ

pub record VideoCaptureOptions : Type 0 where
  pub timestamp_us : ℕ
  -- The number of the rotation.
  pub rotation : ℕ
  pub metadata : Option VideoFrameMetadata

-- An access unit; its address may be null.
pub record EncodedVideoFrame : Type 0 where
  pub address : ℕ
  pub size : ℕ
  pub timestamp_us : ℕ
  pub key_frame : Bool
  pub metadata : Option VideoFrameMetadata

pub data Request : Type 0 where
  -- Whether frames come encoded, the width and the height.
  new_video_source : Bool → ℕ → ℕ → Request
  capture_video_frame : ℕ → BufferInfo → ℕ → ℕ → Option ProtoMetadata → Request
  -- The handle, the address, the size, the time, whether it is a key frame, and the metadata.
  capture_encoded_video_frame : ℕ → ℕ → ℕ → ℕ → Bool → Option ProtoMetadata → Request
  take_video_key_frame_request take_video_bitrate_request : ℕ → Request

abbrev pub answer_or : {A : Type 0} → String → Reply A → Done A
answer_or missing (fails e) = throws e
answer_or missing lacks_part = throws missing
answer_or missing (answers x) = returns x

abbrev pub source_of : ℕ → ℕ → Reply ℕ → Done VideoSource
source_of width height (fails e) = throws e
source_of width height lacks_part = throws "VideoSource: missing new_video_source"
source_of width height (answers handle) =
    returns (record { handle = handle; width = width; height = height })

-- The answer is the handle of the source.
unfoldable pub new_source : Bool → ℕ → ℕ → Reply ℕ → Done VideoSource × Request
new_source pre_encoded width height r =
    (source_of width height r, new_video_source pre_encoded width height)

-- A frame whose buffer lies at the address.
unfoldable pub capture_video :
    ℕ
    → VideoFrame
    → VideoCaptureOptions
    → Reply (Unit {0})
    → VideoSource
    → Done (Unit {0}) × List Request
capture_video address frame options r s = if s.handle == 0 then (returns tt, []) else (
  answer_or "FfiResponse missing capture_video_frame" r,
  capture_video_frame s.handle (frame_to_proto address frame) options.timestamp_us options.rotation
        (metadata_to_proto options.metadata)
      ∷ [],
)

unfoldable pub capture_encoded :
    EncodedVideoFrame → Reply Bool → VideoSource → Done Bool × List Request
capture_encoded frame r s =
    if (frame.address == 0) || (frame.size == 0)
    then (throws "EncodedVideoSource: frame payload is empty", [])
    else (if s.handle == 0 then (returns false, []) else (
      answer_or "FfiResponse missing capture_encoded_video_frame" r,
      capture_encoded_video_frame s.handle frame.address frame.size frame.timestamp_us
            frame.key_frame (metadata_to_proto frame.metadata)
          ∷ [],
    ))

unfoldable pub take_key_frame_request : Reply Bool → VideoSource → Done Bool × List Request
take_key_frame_request r s = if s.handle == 0 then (returns false, []) else (
  answer_or "FfiResponse missing take_video_key_frame_request" r,
  take_video_key_frame_request s.handle ∷ [],
)

-- The target bitrate, where there is a new one.
unfoldable pub take_bitrate_request :
    Reply (Option ℕ) → VideoSource → Done (Option ℕ) × List Request
take_bitrate_request r s = if s.handle == 0 then (returns none, []) else (
  answer_or "FfiResponse missing take_video_bitrate_request" r,
  take_video_bitrate_request s.handle ∷ [],
)
