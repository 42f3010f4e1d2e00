-- ===== src/Tests/DataStreams.antt =====
-- Examples for src/data_stream.cpp.
use client_sdk_cpp.Prelude.{
  ℕ, Bool, true, false, List, [], ◌∷◌, ◌++◌, none, ◌≡◌, refl, arith, concat, All,
}
use client_sdk_cpp.Prelude.Assoc.{string_eq}
use client_sdk_cpp.DataStream.Split.{is_continuation, split_utf8}
use client_sdk_cpp.DataStream.Split.Utf8.{Utf8, empty, one, two}
use client_sdk_cpp.DataStream.Split.Chunks.{concat-split_utf8}
use client_sdk_cpp.DataStream.Split.Boundaries.{split_utf8-Utf8}
use client_sdk_cpp.DataStream.Split.LastPoint.{split_utf8_cuts_last_byte}
use client_sdk_cpp.DataStream.Reader.{Reader, Call, chunk, close, next, run}
use client_sdk_cpp.DataStream.Reader.Fifo.{run_fifo, accepted}
use client_sdk_cpp.DataStream.Writer.{Message, Writer, text, write_text}
use client_sdk_cpp.DataStream.Writer.Protocol.{IsWellSent, write_text-IsWellSent}
use client_sdk_cpp.DataStream.Writer.Payload.{Sends, write_text-Sends}

-- "aé!" and "aé"
abbrev mixed : List ℕ
mixed = 97 ∷ 195 ∷ 169 ∷ 33 ∷ []

abbrev accented : List ℕ
accented = 97 ∷ 195 ∷ 169 ∷ []

concat-split_utf8_example : concat (split_utf8 mixed 2) ≡ mixed
concat-split_utf8_example = concat-split_utf8 mixed 2 (omega arith)

mixed-Utf8 : Utf8 mixed
unfolding is_continuation
mixed-Utf8 = one 97 refl (two 195 169 refl refl (one 33 refl empty))

split_utf8-Utf8_example : All Utf8 (split_utf8 mixed 4)
unfolding is_continuation
split_utf8-Utf8_example = split_utf8-Utf8 mixed 4 (omega arith) refl mixed-Utf8

split_utf8_cuts_last_byte_example : split_utf8 accented 15_000 ≡ (97 ∷ 195 ∷ []) ∷ (169 ∷ []) ∷ []
unfolding is_continuation
split_utf8_cuts_last_byte_example =
    split_utf8_cuts_last_byte 97 (195 ∷ []) 169 15_000 refl (omega arith)

abbrev one_queued : Reader
one_queued = record { attributes = ("k", "v") ∷ []; queue = (1 ∷ []) ∷ []; closed = false }

abbrev calls : List Call
calls = chunk (2 ∷ []) ∷ next ∷ close [] ∷ chunk (3 ∷ []) ∷ next ∷ []

run_fifo_example :
    let (out, r) = run one_queued calls in
    out ++ r.queue ≡ one_queued.queue ++ accepted one_queued.closed calls
run_fifo_example = run_fifo one_queued calls

abbrev two_queued : Reader
two_queued = record { attributes = []; queue = (1 ∷ 2 ∷ []) ∷ (3 ∷ []) ∷ []; closed = true }

-- The native library takes two messages and refuses the rest.
abbrev takes_two : List Message → Message → Bool
takes_two [] m = true
takes_two (a ∷ []) m = true
takes_two (a ∷ b ∷ ms) m = false

abbrev new_writer : Writer
new_writer = record {
  stream_id = "s";
  mime_type = "text/plain";
  topic = "t";
  timestamp_ms = 0;
  total_size = none;
  attributes = [];
  kind = text;
  reply_to_id = "";
  byte_name = "";
  closed = false;
  header_sent = false;
  next_chunk_index = 0;
  sent = [];
}

write_text-Sends_example : Sends new_writer accented (write_text takes_two accented new_writer)
write_text-Sends_example = write_text-Sends takes_two accented new_writer refl

write_text-IsWellSent_example : IsWellSent (write_text takes_two accented new_writer).1
write_text-IsWellSent_example =
    write_text-IsWellSent takes_two accented new_writer (omega arith) refl
