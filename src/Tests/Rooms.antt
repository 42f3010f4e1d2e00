-- ===== src/Tests/Rooms.antt =====
-- Examples for the data streams of src/room.cpp.
use client_sdk_cpp.Prelude.{List, [], ◌∷◌, none, some, ◌≡◌, refl, arith}
use client_sdk_cpp.Prelude.Assoc.{lookup, string_eq}
use client_sdk_cpp.DataStream.Writer.{Message, Header, header, chunk, trailer, text_header}
use client_sdk_cpp.Room.{Room, deliver}
use client_sdk_cpp.Room.Received.{read_received, stream_received}

abbrev room : Room
room = record {
  text_stream_handlers = ("chat", 5) ∷ [];
  byte_stream_handlers = [];
  text_stream_readers = [];
  byte_stream_readers = [];
  readers = [];
  next_reader = 0;
  called = [];
}

abbrev first : Header
first = record {
  stream_id = "s";
  timestamp = 0;
  mime_type = "text/plain";
  topic = "chat";
  total_length = none;
  attributes = [];
  content_header = text_header none;
}

abbrev messages : List Message
messages = chunk "s" 1 (105 ∷ []) ∷ chunk "s" 0 (104 ∷ []) ∷ header first ∷ []

stream_received_example :
    let r = deliver "alice" (trailer "s" "" [] ∷ messages) room in
    (read_received 0 r ≡ some (104 ∷ 105 ∷ [])) × (r.called ≡ (5, 0, "alice") ∷ [])
unfolding lookup
stream_received_example =
    stream_received "alice" "s" "chat" "" none [] 5 2 messages room (omega arith, (omega arith, tt))
      (refl, (refl, (refl, refl, refl, tt))) refl
