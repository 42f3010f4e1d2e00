-- ===== src/Room.antt =====
-- The data streams of `Room` in src/room.cpp: the handlers by topic, and the routing of headers,
-- chunks and trailers from the native library to the readers. A reader is shared with the user, who
-- got it from the handler: it is an object of a store, and the room's maps hold its number.
pub mod Received
pub mod Session
pub mod Roster
pub mod Snapshot
pub mod Notices
use client_sdk_cpp.Prelude.{
  ℕ, Bool, true, false, List, [], ◌∷◌, Option, none, some, String, if◌then◌else◌, ◌+◌,
}
use client_sdk_cpp.Prelude.Assoc.{lookup, insert, erase, emplace, string_eq, nat_eq}
use client_sdk_cpp.DataStream.Reader.{
  Reader, new_reader, Attributes, Chunk, on_chunk_update, on_stream_close,
}
use client_sdk_cpp.DataStream.Writer.{
  Message, Header, header, chunk, trailer, text_header, byte_header, no_header,
}

-- `called` has the calls of the user's handlers, the latest first: the handler, the reader and the
-- sender.
pub record Room : Type 0 where
  pub text_stream_handlers : List (String × ℕ)
  pub byte_stream_handlers : List (String × ℕ)
  pub text_stream_readers : List (String × ℕ)
  pub byte_stream_readers : List (String × ℕ)
  pub readers : List (ℕ × Reader)
  pub next_reader : ℕ
  pub called : List (ℕ × ℕ × String)

-- `true` if it is registered; it throws if the topic has a handler.
unfoldable pub register_text_stream_handler : String → ℕ → Room → Bool × Room
register_text_stream_handler topic handler r = elim (lookup topic r.text_stream_handlers) [
  | none ↦ (true, record r { text_stream_handlers = emplace topic handler r.text_stream_handlers })
  | some old ↦ (false, r)
]

unfoldable pub unregister_text_stream_handler : String → Room → Room
unregister_text_stream_handler topic r = record r {
  text_stream_handlers = erase topic r.text_stream_handlers;
}

unfoldable pub register_byte_stream_handler : String → ℕ → Room → Bool × Room
register_byte_stream_handler topic handler r = elim (lookup topic r.byte_stream_handlers) [
  | none ↦ (true, record r { byte_stream_handlers = emplace topic handler r.byte_stream_handlers })
  | some old ↦ (false, r)
]

unfoldable pub unregister_byte_stream_handler : String → Room → Room
unregister_byte_stream_handler topic r = record r {
  byte_stream_handlers = erase topic r.byte_stream_handlers;
}

unfoldable pub on_stream_header : String → Header → Room → Room
on_stream_header participant_identity h r = elim h.content_header [
  | text_header reply ↦ (elim (lookup h.topic r.text_stream_handlers) [
    | none ↦ r
    | some handler ↦ record r {
      text_stream_readers = insert h.stream_id r.next_reader r.text_stream_readers;
      readers = (r.next_reader, new_reader h.attributes) ∷ r.readers;
      next_reader = r.next_reader + 1;
      called = (handler, r.next_reader, participant_identity) ∷ r.called;
    }
  ])
  | byte_header name ↦ (elim (lookup h.topic r.byte_stream_handlers) [
    | none ↦ r
    | some handler ↦ record r {
      byte_stream_readers = insert h.stream_id r.next_reader r.byte_stream_readers;
      readers = (r.next_reader, new_reader h.attributes) ∷ r.readers;
      next_reader = r.next_reader + 1;
      called = (handler, r.next_reader, participant_identity) ∷ r.called;
    }
  ])
  | no_header ↦ r
]

-- A call of the reader's method, through the pointer.
unfoldable pub update : ℕ → (Reader → Reader) → Room → Room
update k f r = elim (lookup k r.readers) [
  | none ↦ r
  | some reader ↦ record r { readers = insert k (f reader) r.readers }
]

unfoldable pub on_stream_chunk : String → Chunk → Room → Room
on_stream_chunk stream_id content r = elim (lookup stream_id r.text_stream_readers) [
  | some k ↦ update k (on_chunk_update content) r
  | none ↦ (elim (lookup stream_id r.byte_stream_readers) [
    | some k ↦ update k (on_chunk_update content) r
    | none ↦ r
  ])
]

unfoldable pub on_stream_trailer : String → Attributes → Room → Room
on_stream_trailer stream_id attributes r = elim (lookup stream_id r.text_stream_readers) [
  | some k ↦
      update k (on_stream_close attributes)
        (record r { text_stream_readers = erase stream_id r.text_stream_readers })
  | none ↦ (elim (lookup stream_id r.byte_stream_readers) [
    | some k ↦
        update k (on_stream_close attributes)
          (record r { byte_stream_readers = erase stream_id r.byte_stream_readers })
    | none ↦ r
  ])
]

unfoldable pub on_stream_event : String → Message → Room → Room
on_stream_event participant_identity (header h) r = on_stream_header participant_identity h r
on_stream_event participant_identity (chunk stream_id index content) r =
    on_stream_chunk stream_id content r
on_stream_event participant_identity (trailer stream_id reason attributes) r =
    on_stream_trailer stream_id attributes r

-- The messages, the latest first, arrive in the order in which they were sent.
unfoldable pub deliver : String → List Message → Room → Room
deliver participant_identity [] r = r
deliver participant_identity (m ∷ ms) r =
    on_stream_event participant_identity m (deliver participant_identity ms r)
