-- ===== src/DataTrack/Schema.antt =====
-- The description of a data track and its message (src/data_track_schema.cpp and
-- include/livekit/data_track_schema.h).
pub mod Identity
use client_sdk_cpp.Prelude.{
  ℕ, Bool, true, false, ◌&&◌, ◌||◌, not, Option, none, some, String, if◌then◌else◌, ◌==◌,
}
use client_sdk_cpp.Prelude.Assoc.{string_eq, ◌==◌ as same_string}

-- `DataTrackSchemaEncoding::WellKnown` and `DataTrackFrameEncoding::WellKnown`
pub data SchemaFormat : Type 0 where
  protobuf flatbuffer ros1_msg ros2_msg ros2_idl omg_idl json_schema other : SchemaFormat

pub data FrameFormat : Type 0 where
  ros1 cdr protobuf flatbuffer cbor msgpack json other : FrameFormat

-- Either class, over its well-known encodings. A custom one has a name that is not empty.
pub record Encoding (F : Type 0) : Type 0 where
  pub well_known : F
  pub custom : String

abbrev pub is_custom : {F : Type 0} → Encoding F → Bool
is_custom e = not (same_string e.custom "")

-- The number of an enumerator, by which C++ compares them.
abbrev pub schema_number : SchemaFormat → ℕ
schema_number SchemaFormat.protobuf = 0
schema_number SchemaFormat.flatbuffer = 1
schema_number ros1_msg = 2
schema_number ros2_msg = 3
schema_number ros2_idl = 4
schema_number omg_idl = 5
schema_number json_schema = 6
schema_number SchemaFormat.other = 7

abbrev pub frame_number : FrameFormat → ℕ
frame_number ros1 = 0
frame_number cdr = 1
frame_number FrameFormat.protobuf = 2
frame_number FrameFormat.flatbuffer = 3
frame_number cbor = 4
frame_number msgpack = 5
frame_number json = 6
frame_number FrameFormat.other = 7

-- `operator==`
unfoldable pub same_encoding : {F : Type 0} → (F → ℕ) → Encoding F → Encoding F → Bool
same_encoding number a b =
    if is_custom a || is_custom b
    then same_string a.custom b.custom
    else number a.well_known == number b.well_known

-- The enumerators of the protocol; `unlisted` is any other number.
pub data ProtoSchemaFormat : Type 0 where
  unspecified protobuf flatbuffer ros1_msg ros2_msg ros2_idl omg_idl json_schema unlisted :
      ProtoSchemaFormat

pub data ProtoFrameFormat : Type 0 where
  unspecified ros1 cdr protobuf flatbuffer cbor msgpack json unlisted : ProtoFrameFormat

-- The message of an encoding: one of the two, or neither.
pub data ProtoEncoding (F : Type 0) : Type 0 where
  set_custom : String → ProtoEncoding F
  set_well_known : F → ProtoEncoding F
  not_set : ProtoEncoding F

abbrev pub schema_format_to_proto : SchemaFormat → ProtoSchemaFormat
schema_format_to_proto SchemaFormat.protobuf = ProtoSchemaFormat.protobuf
schema_format_to_proto SchemaFormat.flatbuffer = ProtoSchemaFormat.flatbuffer
schema_format_to_proto ros1_msg = ProtoSchemaFormat.ros1_msg
schema_format_to_proto ros2_msg = ProtoSchemaFormat.ros2_msg
schema_format_to_proto ros2_idl = ProtoSchemaFormat.ros2_idl
schema_format_to_proto omg_idl = ProtoSchemaFormat.omg_idl
schema_format_to_proto json_schema = ProtoSchemaFormat.json_schema
schema_format_to_proto SchemaFormat.other = ProtoSchemaFormat.unspecified

abbrev pub schema_format_from_proto : ProtoSchemaFormat → SchemaFormat
schema_format_from_proto ProtoSchemaFormat.protobuf = SchemaFormat.protobuf
schema_format_from_proto ProtoSchemaFormat.flatbuffer = SchemaFormat.flatbuffer
schema_format_from_proto ProtoSchemaFormat.ros1_msg = SchemaFormat.ros1_msg
schema_format_from_proto ProtoSchemaFormat.ros2_msg = SchemaFormat.ros2_msg
schema_format_from_proto ProtoSchemaFormat.ros2_idl = SchemaFormat.ros2_idl
schema_format_from_proto ProtoSchemaFormat.omg_idl = SchemaFormat.omg_idl
schema_format_from_proto ProtoSchemaFormat.json_schema = SchemaFormat.json_schema
schema_format_from_proto ProtoSchemaFormat.unspecified = SchemaFormat.other
schema_format_from_proto ProtoSchemaFormat.unlisted = SchemaFormat.other

abbrev pub frame_format_to_proto : FrameFormat → ProtoFrameFormat
frame_format_to_proto FrameFormat.ros1 = ProtoFrameFormat.ros1
frame_format_to_proto FrameFormat.cdr = ProtoFrameFormat.cdr
frame_format_to_proto FrameFormat.protobuf = ProtoFrameFormat.protobuf
frame_format_to_proto FrameFormat.flatbuffer = ProtoFrameFormat.flatbuffer
frame_format_to_proto FrameFormat.cbor = ProtoFrameFormat.cbor
frame_format_to_proto FrameFormat.msgpack = ProtoFrameFormat.msgpack
frame_format_to_proto FrameFormat.json = ProtoFrameFormat.json
frame_format_to_proto FrameFormat.other = ProtoFrameFormat.unspecified

abbrev pub frame_format_from_proto : ProtoFrameFormat → FrameFormat
frame_format_from_proto ProtoFrameFormat.ros1 = FrameFormat.ros1
frame_format_from_proto ProtoFrameFormat.cdr = FrameFormat.cdr
frame_format_from_proto ProtoFrameFormat.protobuf = FrameFormat.protobuf
frame_format_from_proto ProtoFrameFormat.flatbuffer = FrameFormat.flatbuffer
frame_format_from_proto ProtoFrameFormat.cbor = FrameFormat.cbor
frame_format_from_proto ProtoFrameFormat.msgpack = FrameFormat.msgpack
frame_format_from_proto ProtoFrameFormat.json = FrameFormat.json
frame_format_from_proto ProtoFrameFormat.unspecified = FrameFormat.other
frame_format_from_proto ProtoFrameFormat.unlisted = FrameFormat.other

-- `toProto` and `fromProto` of either class. The default of the enumeration is `unspecified`.
unfoldable pub encoding_to_proto : {F G : Type 0} → (F → G) → Encoding F → ProtoEncoding G
encoding_to_proto format e =
    if is_custom e then set_custom e.custom else set_well_known (format e.well_known)

unfoldable pub encoding_from_proto : {F G : Type 0} → F → G → (G → F) → ProtoEncoding G → Encoding F
encoding_from_proto o default format (set_custom name) = record { well_known = o; custom = name }
encoding_from_proto o default format (set_well_known f) = record {
  well_known = format f;
  custom = "";
}
encoding_from_proto o default format not_set = record { well_known = format default; custom = "" }

unfoldable pub schema_encoding_to_proto : Encoding SchemaFormat → ProtoEncoding ProtoSchemaFormat
schema_encoding_to_proto e = encoding_to_proto schema_format_to_proto e

unfoldable pub schema_encoding_from_proto : ProtoEncoding ProtoSchemaFormat → Encoding SchemaFormat
schema_encoding_from_proto m =
    encoding_from_proto SchemaFormat.other ProtoSchemaFormat.unspecified schema_format_from_proto m

unfoldable pub frame_encoding_to_proto : Encoding FrameFormat → ProtoEncoding ProtoFrameFormat
frame_encoding_to_proto e = encoding_to_proto frame_format_to_proto e

unfoldable pub frame_encoding_from_proto : ProtoEncoding ProtoFrameFormat → Encoding FrameFormat
frame_encoding_from_proto m =
    encoding_from_proto FrameFormat.other ProtoFrameFormat.unspecified frame_format_from_proto m

pub record DataTrackSchemaId : Type 0 where
  pub name : String
  pub encoding : Encoding SchemaFormat

unfoldable pub same_schema_id : DataTrackSchemaId → DataTrackSchemaId → Bool
same_schema_id a b = same_string a.name b.name && same_encoding schema_number a.encoding b.encoding

pub record ProtoSchemaId : Type 0 where
  pub name : String
  pub encoding : ProtoEncoding ProtoSchemaFormat

unfoldable pub schema_id_to_proto : DataTrackSchemaId → ProtoSchemaId
schema_id_to_proto id = record { name = id.name; encoding = schema_encoding_to_proto id.encoding }

unfoldable pub schema_id_from_proto : ProtoSchemaId → DataTrackSchemaId
schema_id_from_proto m = record { name = m.name; encoding = schema_encoding_from_proto m.encoding }

pub record DataTrackInfo : Type 0 where
  pub name : String
  pub sid : String
  pub uses_e2ee : Bool
  pub schema : Option DataTrackSchemaId
  pub frame_encoding : Option (Encoding FrameFormat)

pub record ProtoDataTrackInfo : Type 0 where
  pub name : String
  pub sid : String
  pub uses_e2ee : Bool
  pub schema : Option ProtoSchemaId
  pub frame_encoding : Option (ProtoEncoding ProtoFrameFormat)

abbrev pub map_some : {A B : Type 0} → (A → B) → Option A → Option B
map_some f none = none
map_some f (some a) = some (f a)

unfoldable pub info_from_proto : ProtoDataTrackInfo → DataTrackInfo
info_from_proto m = record {
  name = m.name;
  sid = m.sid;
  uses_e2ee = m.uses_e2ee;
  schema = map_some schema_id_from_proto m.schema;
  frame_encoding = map_some frame_encoding_from_proto m.frame_encoding;
}
