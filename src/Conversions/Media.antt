-- ===== src/Conversions/Media.antt =====
-- Video frames and their metadata on the way to the native library and back (src/video_utils.cpp).
-- What lies at an address is a parameter, and the handles that are dropped are listed.
use client_sdk_cpp.Prelude.{
  ℕ, Bool, List, [], ◌∷◌, Option, none, some, String, if◌then◌else◌, ◌==◌, ◌*◌, ◌||◌, length,
}
use client_sdk_cpp.Prelude.Assoc.{string_eq, ◌==◌ as same_string}
use Prim.Native.String.{◌++◌}
use client_sdk_cpp.Native.{Reply, fails, lacks_part, answers, Done, returns, throws}
use client_sdk_cpp.VideoFrame.{VideoBufferType, Plane, VideoFrame, word32, plane_infos, create}

pub data ProtoBufferType : Type 0 where
  rgba abgr argb bgra rgb24 i420 i420a i422 i444 i010 nv12 external unlisted : ProtoBufferType

abbrev pub buffer_type_to_proto : VideoBufferType → ProtoBufferType
buffer_type_to_proto VideoBufferType.rgba = ProtoBufferType.rgba
buffer_type_to_proto VideoBufferType.abgr = ProtoBufferType.abgr
buffer_type_to_proto VideoBufferType.argb = ProtoBufferType.argb
buffer_type_to_proto VideoBufferType.bgra = ProtoBufferType.bgra
buffer_type_to_proto VideoBufferType.rgb24 = ProtoBufferType.rgb24
buffer_type_to_proto VideoBufferType.i420 = ProtoBufferType.i420
buffer_type_to_proto VideoBufferType.i420a = ProtoBufferType.i420a
buffer_type_to_proto VideoBufferType.i422 = ProtoBufferType.i422
buffer_type_to_proto VideoBufferType.i444 = ProtoBufferType.i444
buffer_type_to_proto VideoBufferType.i010 = ProtoBufferType.i010
buffer_type_to_proto VideoBufferType.nv12 = ProtoBufferType.nv12
buffer_type_to_proto VideoBufferType.external = ProtoBufferType.external

-- `none` where it throws.
abbrev pub buffer_type_from_proto : ProtoBufferType → Option VideoBufferType
buffer_type_from_proto ProtoBufferType.rgba = some VideoBufferType.rgba
buffer_type_from_proto ProtoBufferType.abgr = some VideoBufferType.abgr
buffer_type_from_proto ProtoBufferType.argb = some VideoBufferType.argb
buffer_type_from_proto ProtoBufferType.bgra = some VideoBufferType.bgra
buffer_type_from_proto ProtoBufferType.rgb24 = some VideoBufferType.rgb24
buffer_type_from_proto ProtoBufferType.i420 = some VideoBufferType.i420
buffer_type_from_proto ProtoBufferType.i420a = some VideoBufferType.i420a
buffer_type_from_proto ProtoBufferType.i422 = some VideoBufferType.i422
buffer_type_from_proto ProtoBufferType.i444 = some VideoBufferType.i444
buffer_type_from_proto ProtoBufferType.i010 = some VideoBufferType.i010
buffer_type_from_proto ProtoBufferType.nv12 = some VideoBufferType.nv12
buffer_type_from_proto ProtoBufferType.external = some VideoBufferType.external
buffer_type_from_proto ProtoBufferType.unlisted = none

pub record VideoFrameMetadata : Type 0 where
  pub user_timestamp_us : Option ℕ
  pub frame_id : Option ℕ
  pub user_data : Option (List ℕ)

-- `proto::FrameMetadata`
pub record ProtoMetadata : Type 0 where
  pub user_timestamp : Option ℕ
  pub frame_id : Option ℕ
  pub user_data : Option (List ℕ)

-- Data that is empty is not sent.
abbrev pub data_to_send : Option (List ℕ) → Option (List ℕ)
data_to_send none = none
data_to_send (some []) = none
data_to_send (some (b ∷ bytes)) = some (b ∷ bytes)

-- A message or a value with no part is none.
abbrev pub unless_empty : {A : Type 0} → Option ℕ → Option ℕ → Option (List ℕ) → A → Option A
unless_empty none none none m = none
unless_empty none none (some bytes) m = some m
unless_empty none (some n) bytes m = some m
unless_empty (some n) frame_id bytes m = some m

abbrev pub some_metadata_to_proto : VideoFrameMetadata → Option ProtoMetadata
some_metadata_to_proto m =
    unless_empty m.user_timestamp_us m.frame_id (data_to_send m.user_data) (record {
      user_timestamp = m.user_timestamp_us;
      frame_id = m.frame_id;
      user_data = data_to_send m.user_data;
    })

unfoldable pub metadata_to_proto : Option VideoFrameMetadata → Option ProtoMetadata
metadata_to_proto none = none
metadata_to_proto (some m) = some_metadata_to_proto m

unfoldable pub metadata_from_proto : ProtoMetadata → Option VideoFrameMetadata
metadata_from_proto m = unless_empty m.user_timestamp m.frame_id m.user_data (record {
  user_timestamp_us = m.user_timestamp;
  frame_id = m.frame_id;
  user_data = m.user_data;
})

-- `proto::VideoBufferInfo`
pub record BufferInfo : Type 0 where
  pub width : ℕ
  pub height : ℕ
  pub type : ProtoBufferType
  pub data_ptr : ℕ
  pub components : List Plane
  pub stride : ℕ

-- The stride of a packed format; 0 for the others.
abbrev pub packed_stride : VideoBufferType → ℕ → ℕ
packed_stride VideoBufferType.argb w = word32 (w * 4)
packed_stride VideoBufferType.abgr w = word32 (w * 4)
packed_stride VideoBufferType.rgba w = word32 (w * 4)
packed_stride VideoBufferType.bgra w = word32 (w * 4)
packed_stride VideoBufferType.rgb24 w = word32 (w * 3)
packed_stride _ w = 0

-- The frame whose buffer lies at this address.
unfoldable pub frame_to_proto : ℕ → VideoFrame → BufferInfo
frame_to_proto address f = record {
  width = f.width;
  height = f.height;
  type = buffer_type_to_proto f.type;
  data_ptr = address;
  components = plane_infos address f;
  stride = packed_stride f.type f.width;
}

-- `proto::OwnedVideoBuffer`, with its handle.
pub record OwnedBuffer : Type 0 where
  pub handle : ℕ
  pub width : ℕ
  pub height : ℕ
  pub type : ProtoBufferType
  pub data_ptr : ℕ

module _ (bytes_at : ℕ → ℕ → List ℕ) where
  -- The copy of the buffer into the new frame; then the handle is dropped.
  abbrev pub copy_buffer : OwnedBuffer → Option VideoFrame → Done VideoFrame × List ℕ
  copy_buffer owned none = (
    throws (
        if (owned.width == 0) || (owned.height == 0)
        then "VideoFrame: width and height must be positive"
        else "VideoFrame: unsupported VideoBufferType"),
    [],
  )
  copy_buffer owned (some frame) =
      if owned.data_ptr == 0 then (throws "fromOwnedProto: info.data_ptr is null", []) else (
        returns (record frame { bytes = bytes_at owned.data_ptr (length frame.bytes) }),
        owned.handle ∷ [],
      )

  abbrev pub from_type : OwnedBuffer → Option VideoBufferType → Done VideoFrame × List ℕ
  from_type owned none = (throws "Unknown proto::VideoBufferType in fromProto", [])
  from_type owned (some type) = copy_buffer owned (create owned.width owned.height type)

  unfoldable pub from_owned_proto : OwnedBuffer → Done VideoFrame × List ℕ
  from_owned_proto owned = from_type owned (buffer_type_from_proto owned.type)

  -- The request to convert a frame: the type, whether it is flipped, and the frame.
  abbrev pub Convert : Type 0
  Convert = ProtoBufferType × Bool × BufferInfo

  abbrev pub converted : Reply (String × OwnedBuffer) → Done VideoFrame × List ℕ
  converted (fails e) = (throws e, [])
  converted lacks_part = (throws "convertViaFfi: FfiResponse missing video_convert", [])
  converted (answers (error, buffer)) =
      if same_string error ""
      then from_owned_proto buffer
      else (throws ("convertViaFfi: " ++ error), [])

  unfoldable pub convert_via_ffi :
      ℕ
      → VideoFrame
      → VideoBufferType
      → Bool
      → Reply (String × OwnedBuffer)
      → (Done VideoFrame × List ℕ) × Convert
  convert_via_ffi address frame dst flip_y r =
      (converted r, (buffer_type_to_proto dst, flip_y, frame_to_proto address frame))
