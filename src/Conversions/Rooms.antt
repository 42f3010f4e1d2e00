-- ===== src/Conversions/Rooms.antt =====
-- The descriptions of a room and of data streams (src/room_proto_converter.cpp).
use client_sdk_cpp.Prelude.{ℕ, Bool, List, [], Option, none, some, String}
use client_sdk_cpp.Room.Roster.{fill_attributes}

-- `RoomInfoData`; `proto::RoomInfo` has the same fields.
pub record RoomInfoData : Type 0 where
  pub sid : Option String
  pub name : String
  pub metadata : String
  pub lossy_dc_buffered_amount_low_threshold : ℕ
  pub reliable_dc_buffered_amount_low_threshold : ℕ
  pub empty_timeout : ℕ
  pub departure_timeout : ℕ
  pub max_participants : ℕ
  pub creation_time : ℕ
  pub num_participants : ℕ
  pub num_publishers : ℕ
  pub active_recording : Bool

unfoldable pub room_info_from_proto : RoomInfoData → RoomInfoData
room_info_from_proto info = record {
  sid = info.sid;
  name = info.name;
  metadata = info.metadata;
  lossy_dc_buffered_amount_low_threshold = info.lossy_dc_buffered_amount_low_threshold;
  reliable_dc_buffered_amount_low_threshold = info.reliable_dc_buffered_amount_low_threshold;
  empty_timeout = info.empty_timeout;
  departure_timeout = info.departure_timeout;
  max_participants = info.max_participants;
  creation_time = info.creation_time;
  num_participants = info.num_participants;
  num_publishers = info.num_publishers;
  active_recording = info.active_recording;
}

-- The content header of `proto::DataStream::Header`.
pub data ContentHeader : Type 0 where
  -- The operation, the version, the stream that is replied to, the attached streams, and whether the
  -- text is generated.
  text_header : ℕ → Option ℕ → Option String → List String → Option Bool → ContentHeader
  byte_header : String → ContentHeader
  content_header_not_set : ContentHeader

-- `proto::DataStream::Header`
pub record ProtoHeader : Type 0 where
  pub stream_id : String
  pub timestamp : ℕ
  pub mime_type : String
  pub topic : String
  pub total_length : Option ℕ
  pub attributes : List (String × String)
  pub content_header : ContentHeader

pub data ContentType : Type 0 where
  no_content text byte : ContentType

pub record DataStreamHeaderData : Type 0 where
  pub stream_id : String
  pub timestamp : ℕ
  pub mime_type : String
  pub topic : String
  pub total_length : Option ℕ
  pub attributes : List (String × String)
  pub content_type : ContentType
  -- The number of the operation.
  pub operation_type : Option ℕ
  pub version : Option ℕ
  pub reply_to_stream_id : Option String
  pub attached_stream_ids : List String
  pub generated : Option Bool
  pub name : Option String

-- The part before the content header.
abbrev pub plain_header : ProtoHeader → DataStreamHeaderData
plain_header header = record {
  stream_id = header.stream_id;
  timestamp = header.timestamp;
  mime_type = header.mime_type;
  topic = header.topic;
  total_length = header.total_length;
  attributes = fill_attributes header.attributes [];
  content_type = no_content;
  operation_type = none;
  version = none;
  reply_to_stream_id = none;
  attached_stream_ids = [];
  generated = none;
  name = none;
}

abbrev pub with_content : ContentHeader → DataStreamHeaderData → DataStreamHeaderData
with_content (text_header operation version reply_to attached generated) out = record out {
  content_type = text;
  operation_type = some operation;
  version = version;
  reply_to_stream_id = reply_to;
  attached_stream_ids = attached;
  generated = generated;
}
with_content (byte_header name) out = record out { content_type = byte; name = some name }
with_content content_header_not_set out = out

unfoldable pub stream_header_from_proto : ProtoHeader → DataStreamHeaderData
stream_header_from_proto header = with_content header.content_header (plain_header header)

-- `DataStreamChunkData`
pub record DataStreamChunkData : Type 0 where
  pub stream_id : String
  pub chunk_index : ℕ
  pub content : List ℕ
  pub version : Option ℕ
  pub iv : List ℕ

-- `proto::DataStream::Chunk`
pub record ProtoChunk : Type 0 where
  pub stream_id : String
  pub chunk_index : ℕ
  pub content : List ℕ
  pub version : Option ℕ
  pub iv : Option (List ℕ)

abbrev pub bytes_or_none : Option (List ℕ) → List ℕ
bytes_or_none none = []
bytes_or_none (some bytes) = bytes

unfoldable pub stream_chunk_from_proto : ProtoChunk → DataStreamChunkData
stream_chunk_from_proto chunk = record {
  stream_id = chunk.stream_id;
  chunk_index = chunk.chunk_index;
  content = chunk.content;
  version = chunk.version;
  iv = bytes_or_none chunk.iv;
}

-- `DataStreamTrailerData`; `proto::DataStream::Trailer` has the same fields.
pub record DataStreamTrailerData : Type 0 where
  pub stream_id : String
  pub reason : String
  pub attributes : List (String × String)

unfoldable pub stream_trailer_from_proto : DataStreamTrailerData → DataStreamTrailerData
stream_trailer_from_proto trailer = record trailer {
  attributes = fill_attributes trailer.attributes [];
}

-- `TextStreamInfo` and `ByteStreamInfo`
pub record TextStreamInfo : Type 0 where
  pub stream_id : String
  pub mime_type : String
  pub topic : String
  pub timestamp : ℕ
  pub size : Option ℕ
  pub attributes : List (String × String)
  pub attachments : List String
  pub reply_to_stream_id : Option String

pub record ByteStreamInfo : Type 0 where
  pub stream_id : String
  pub mime_type : String
  pub topic : String
  pub timestamp : ℕ
  pub size : Option ℕ
  pub attributes : List (String × String)
  pub name : String

-- What is read of a content header of another kind is empty.
abbrev pub reply_to_of : ContentHeader → Option String
reply_to_of (text_header operation version reply_to attached generated) = reply_to
reply_to_of _ = none

abbrev pub attached_of : ContentHeader → List String
attached_of (text_header operation version reply_to attached generated) = attached
attached_of _ = []

abbrev pub name_of : ContentHeader → String
name_of (byte_header name) = name
name_of _ = ""

unfoldable pub make_text_info : ProtoHeader → TextStreamInfo
make_text_info header = record {
  stream_id = header.stream_id;
  mime_type = header.mime_type;
  topic = header.topic;
  timestamp = header.timestamp;
  size = header.total_length;
  attributes = fill_attributes header.attributes [];
  attachments = attached_of header.content_header;
  reply_to_stream_id = reply_to_of header.content_header;
}

unfoldable pub make_byte_info : ProtoHeader → ByteStreamInfo
make_byte_info header = record {
  stream_id = header.stream_id;
  mime_type = header.mime_type;
  topic = header.topic;
  timestamp = header.timestamp;
  size = header.total_length;
  attributes = fill_attributes header.attributes [];
  name = name_of header.content_header;
}
