-- ===== src/DataStream/Writer/Described.antt =====
-- How a writer of src/data_stream.cpp is made, what it says of its stream, and what the reader on the
-- other side is told of it. The random id, the clock and the participant's identity are arguments.
use client_sdk_cpp.Prelude.{
  ℕ, false, List, [], ◌∷◌, ◌≡◌, Option, none, some, String, if◌then◌else◌, refl, arith,
}
use client_sdk_cpp.Prelude.Assoc.{◌==◌, string_eq, lookup, lookup-emplace, emplace}
use client_sdk_cpp.DataStream.Reader.{Attributes}
use client_sdk_cpp.DataStream.Writer.{
  Writer, StreamKind, text, byte, Header, header_of, ContentHeader as SentContent, no_header,
}
use client_sdk_cpp.Room.Roster.{fill_attributes}
use client_sdk_cpp.Conversions.Rooms.{
  TextStreamInfo, ByteStreamInfo, ContentHeader, content_header_not_set, ProtoHeader,
  make_text_info, make_byte_info,
}

-- What the constructors of the two writers take, but for the participant.
pub record Description : Type 0 where
  pub topic : String
  pub attributes : Attributes
  -- Empty where the writer is to make one.
  pub stream_id : String
  pub total_size : Option ℕ
  pub destination_identities : List String
  -- Empty for the participant's.
  pub sender_identity : String

-- A writer with the parts of it that its messages are addressed with.
pub record Addressed : Type 0 where
  pub writer : Writer
  pub destination_identities : List String
  pub sender_identity : String

abbrev pub unless_blank : String → String → String
unless_blank given other = if given == "" then other else given

-- `BaseStreamWriter`: the kind, the reply and the name are set by the classes derived from it.
unfoldable pub new_base_writer :
    StreamKind → String → String → String → String → ℕ → String → Description → Addressed
new_base_writer kind reply name mime_type random_id now identity d = record {
  writer = record {
    stream_id = unless_blank d.stream_id random_id;
    mime_type = mime_type;
    topic = d.topic;
    timestamp_ms = now;
    total_size = d.total_size;
    attributes = d.attributes;
    kind = kind;
    reply_to_id = reply;
    byte_name = name;
    closed = false;
    header_sent = false;
    next_chunk_index = 0;
    sent = [];
  };
  destination_identities = d.destination_identities;
  sender_identity = unless_blank d.sender_identity identity;
}

-- `TextStreamWriter`, with its `info_`.
unfoldable pub new_text_writer :
    String → String → ℕ → String → Description → Addressed × TextStreamInfo
new_text_writer reply random_id now identity d =
    let made = new_base_writer text reply "" "text/plain" random_id now identity d in
    (
      made,
      record {
        stream_id = made.writer.stream_id;
        mime_type = made.writer.mime_type;
        topic = made.writer.topic;
        timestamp = made.writer.timestamp_ms;
        size = made.writer.total_size;
        attributes = made.writer.attributes;
        attachments = [];
        reply_to_stream_id = if reply == "" then none else some reply;
      },
    )

-- `ByteStreamWriter`, with its `info_`.
unfoldable pub new_byte_writer :
    String → String → String → ℕ → String → Description → Addressed × ByteStreamInfo
new_byte_writer name mime_type random_id now identity d =
    let made = new_base_writer byte "" name mime_type random_id now identity d in
    (
      made,
      record {
        stream_id = made.writer.stream_id;
        mime_type = made.writer.mime_type;
        topic = made.writer.topic;
        timestamp = made.writer.timestamp_ms;
        size = made.writer.total_size;
        attributes = made.writer.attributes;
        name = name;
      },
    )

-- The header as it arrives: a text's operation is `CREATE`, and what was not set is missing.
abbrev pub proto_content : SentContent → ContentHeader
proto_content (SentContent.text_header reply) = ContentHeader.text_header 0 none reply [] none
proto_content (SentContent.byte_header name) = ContentHeader.byte_header name
proto_content no_header = content_header_not_set

unfoldable pub proto_header : Header → ProtoHeader
proto_header header = record {
  stream_id = header.stream_id;
  timestamp = header.timestamp;
  mime_type = header.mime_type;
  topic = header.topic;
  total_length = header.total_length;
  attributes = header.attributes;
  content_header = proto_content header.content_header;
}

fill_attributes_lem :
    (k : String) (attrs m : Attributes)
    → lookup k (fill_attributes attrs m)
      ≡ (elim (lookup k m) [ some v ↦ some v | none ↦ lookup k attrs ])
unfolding fill_attributes lookup
fill_attributes_lem k [] m = ground arith
fill_attributes_lem k ((j, v) ∷ attrs) m =
    ground (arith, lookup-emplace j k v m, fill_attributes_lem k attrs (emplace j v m))

-- However a text writer or a byte writer was made: the reader that is made from the header that it
-- sends is told of its stream what the writer's `info` says, field by field, and its attributes have
-- the same value under every key.
pub described_alike :
    (reply name mime_type random_id identity : String) (now : ℕ) (d : Description)
    → (let (a, info) = new_text_writer reply random_id now identity d in
        let told = make_text_info (proto_header (header_of a.writer)) in
        (told ≡ record info { attributes = told.attributes })
        × ((k : String) → lookup k told.attributes ≡ lookup k info.attributes))
      × (let (a, info) = new_byte_writer name mime_type random_id now identity d in
          let told = make_byte_info (proto_header (header_of a.writer)) in
          (told ≡ record info { attributes = told.attributes })
          × ((k : String) → lookup k told.attributes ≡ lookup k info.attributes))
unfolding new_text_writer new_byte_writer new_base_writer make_text_info make_byte_info proto_header
    lookup
described_alike reply name mime_type random_id identity now d = (
  (refl, (λ k. fill_attributes_lem k d.attributes [])),
  (refl, (λ k. fill_attributes_lem k d.attributes [])),
)
