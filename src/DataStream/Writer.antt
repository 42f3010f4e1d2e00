-- ===== src/DataStream/Writer.antt =====
-- `BaseStreamWriter`, `TextStreamWriter` and `ByteStreamWriter` of src/data_stream.cpp.
-- A method is a function from the writer to its outcome and the writer that it leaves. The native
-- library that carries a message is the argument `send_ok`: whether a message is accepted, given
-- what was accepted before. If not, the `.get()` of the future throws.
pub mod Protocol
pub mod Payload
pub mod Described
use client_sdk_cpp.Prelude.{
  ℕ, zero, suc, Bool, true, false, List, [], ◌∷◌, ◌++◌, Option, none, some, String, if◌then◌else◌,
  ◌+◌, ◌-◌, ◌%◌, ◌^◌, length, min, take, drop, ltb,
}
use client_sdk_cpp.DataStream.Reader.{Attributes, Chunk}
use client_sdk_cpp.DataStream.Split.{split_utf8}
use client_sdk_cpp.Prelude.Assoc.{◌==◌, string_eq}

-- `kStreamChunkSize`
abbrev pub stream_chunk_size : ℕ
stream_chunk_size = 15_000

-- `content_header` of the header: `reply_to_stream_id` is set if it is not empty.
pub data ContentHeader : Type 0 where
  text_header : Option String → ContentHeader
  byte_header : String → ContentHeader
  no_header : ContentHeader

pub data StreamKind : Type 0 where
  unknown text byte : StreamKind

pub record Header : Type 0 where
  pub stream_id : String
  pub timestamp : ℕ
  pub mime_type : String
  pub topic : String
  pub total_length : Option ℕ
  pub attributes : Attributes
  pub content_header : ContentHeader

pub data Message : Type 0 where
  header : Header → Message
  chunk : String → ℕ → Chunk → Message
  trailer : String → String → Attributes → Message

-- The fields of the writer; `sent` holds what the native library accepted, the latest first.
pub record Writer : Type 0 where
  pub stream_id : String
  pub mime_type : String
  pub topic : String
  pub timestamp_ms : ℕ
  pub total_size : Option ℕ
  pub attributes : Attributes
  pub kind : StreamKind
  pub reply_to_id : String
  pub byte_name : String
  pub closed : Bool
  pub header_sent : Bool
  pub next_chunk_index : ℕ
  pub sent : List Message

pub data Error : Type 0 where
  chunk_after_close already_closed write_after_close send_failed : Error

pub data Outcome : Type 0 where
  ok : Outcome
  throws : Error → Outcome

-- An exception leaves the method at once.
infixl 5 ◌then_do◌
abbrev pub ◌then_do◌ : Outcome × Writer → (Writer → Outcome × Writer) → Outcome × Writer
(ok, w) then_do k = k w
(throws e, w) then_do k = (throws e, w)

abbrev pub content_header_of : StreamKind → String → String → ContentHeader
content_header_of text reply name = text_header (if reply == "" then none else some reply)
content_header_of byte reply name = byte_header name
content_header_of unknown reply name = no_header

abbrev pub header_of : Writer → Header
header_of w = record {
  stream_id = w.stream_id;
  timestamp = w.timestamp_ms;
  mime_type = w.mime_type;
  topic = w.topic;
  total_length = w.total_size;
  attributes = w.attributes;
  content_header = content_header_of w.kind w.reply_to_id w.byte_name;
}

module _ (send_ok : List Message → Message → Bool) where
  -- `FfiClient::sendStream...Async(...).get()`
  unfoldable pub send : Message → Writer → Outcome × Writer
  send m w =
      if send_ok w.sent m then (ok, record w { sent = m ∷ w.sent }) else (throws send_failed, w)

  unfoldable pub ensure_header_sent : Writer → Outcome × Writer
  ensure_header_sent w =
      if w.header_sent
      then (ok, w)
      else (send (header (header_of w)) w then_do λ w'. (ok, record w' { header_sent = true }))

  -- `next_chunk_index_++` happens before the message is sent.
  unfoldable pub send_chunk : Chunk → Writer → Outcome × Writer
  send_chunk content w =
      if w.closed
      then (throws chunk_after_close, w)
      else (ensure_header_sent w then_do λ w'.
          send (chunk w'.stream_id w'.next_chunk_index content)
            (record w' { next_chunk_index = (w'.next_chunk_index + 1) % 2 ^ 64 }))

  unfoldable pub send_trailer : String → Attributes → Writer → Outcome × Writer
  send_trailer reason attrs w =
      ensure_header_sent w then_do λ w'. send (trailer w'.stream_id reason attrs) w'

  unfoldable pub close : String → Attributes → Writer → Outcome × Writer
  close reason attrs w =
      if w.closed
      then (throws already_closed, w)
      else send_trailer reason attrs (record w { closed = true })

  -- for (const auto& chunk_str : ...) sendChunk(bytes);
  unfoldable pub send_chunks : List Chunk → Writer → Outcome × Writer
  send_chunks [] w = (ok, w)
  send_chunks (c ∷ cs) w = send_chunk c w then_do λ w'. send_chunks cs w'

  -- `TextStreamWriter::write`
  unfoldable pub write_text : Chunk → Writer → Outcome × Writer
  write_text content w =
      if w.closed
      then (throws write_after_close, w)
      else send_chunks (split_utf8 content stream_chunk_size) w

  -- `while (offset < data.size())` of `ByteStreamWriter::write`; each round sends a byte or more,
  -- so the size of the data bounds the rounds.
  unfoldable pub write_bytes_from : ℕ → Chunk → ℕ → Writer → Outcome × Writer
  write_bytes_from zero bytes offset w = (ok, w)
  write_bytes_from (suc fuel) bytes offset w =
      let n = min stream_chunk_size (length bytes - offset) in
      let rest = send_chunk (take n (drop offset bytes)) w then_do λ w'.
      write_bytes_from fuel bytes (offset + n) w' in
      if ltb offset (length bytes) then rest else (ok, w)

  unfoldable pub write_bytes : Chunk → Writer → Outcome × Writer
  write_bytes bytes w =
      if w.closed then (throws write_after_close, w) else write_bytes_from (length bytes) bytes 0 w
