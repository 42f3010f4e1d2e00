-- ===== src/DataStream/Reader.antt =====
-- `TextStreamReader` and `ByteStreamReader` of src/data_stream.cpp. The two classes differ only in
-- the type of a chunk, a `std::string` or a `std::vector<std::uint8_t>`; both are lists of bytes.
-- Each method holds the mutex for its whole body, so an operation is one step on the state; a wait
-- on the condition variable that does not end at once is the outcome `waiting`.
pub mod Fifo
use client_sdk_cpp.Prelude.{
  ℕ, zero, suc, Bool, true, false, List, [], ◌∷◌, ◌++◌, Option, none, some, String, if◌then◌else◌,
  ◌+◌, length,
}
use client_sdk_cpp.Prelude.Assoc.{insert, string_eq}

abbrev pub Attributes : Type 0
Attributes = List (String × String)

abbrev pub Chunk : Type 0
Chunk = List ℕ

-- `info_.attributes`, `queue_` (oldest first) and `closed_`.
pub record Reader : Type 0 where
  pub attributes : Attributes
  pub queue : List Chunk
  pub closed : Bool

abbrev pub new_reader : Attributes → Reader
new_reader attrs = record { attributes = attrs; queue = []; closed = false }

unfoldable pub on_chunk_update : Chunk → Reader → Reader
on_chunk_update c r = if r.closed then r else record r { queue = r.queue ++ c ∷ [] }

-- for (const auto& kv : trailer_attrs) info_.attributes[kv.first] = kv.second;
unfoldable pub merge_attributes : Attributes → Attributes → Attributes
merge_attributes [] attrs = attrs
merge_attributes ((k, v) ∷ trailer) attrs = merge_attributes trailer (insert k v attrs)

unfoldable pub on_stream_close : Attributes → Reader → Reader
on_stream_close trailer r = record r {
  attributes = merge_attributes trailer r.attributes;
  closed = true;
}

pub data Read : Type 0 where
  waiting : Read
  delivered : Chunk → Read
  ended : Read

take_front : List Chunk → Reader → Read × Reader
take_front [] r = (if r.closed then ended else waiting, r)
take_front (c ∷ rest) r = (delivered c, record r { queue = rest })

unfoldable pub read_next : Reader → Read × Reader
unfolding take_front
read_next r = take_front r.queue r

-- `while (readNext(chunk)) result += chunk`; `none` if the loop waits for another thread.
-- The fuel bounds the chunks that are read.
unfoldable pub read_all_loop : ℕ → Chunk → Reader → Option (Chunk × Reader)
read_all_loop zero result r = none
read_all_loop (suc fuel) result r =
    let (out, r') = read_next r in
    elim out [
      | waiting ↦ none
      | delivered c ↦ read_all_loop fuel (result ++ c) r'
      | ended ↦ some (result, r')
    ]

unfoldable pub read_all : Reader → Option (Chunk × Reader)
read_all r = read_all_loop (length r.queue + 1) [] r

-- What the other threads and the user call.
pub data Call : Type 0 where
  chunk : Chunk → Call
  close : Attributes → Call
  next : Call

abbrev pub handed : Read → List Chunk
handed (delivered c) = c ∷ []
handed _ = []

unfoldable pub step : Reader → Call → List Chunk × Reader
step r (chunk c) = ([], on_chunk_update c r)
step r (close attrs) = ([], on_stream_close attrs r)
step r next = let (out, r') = read_next r in (handed out, r')

-- The chunks that a sequence of calls hands to the user, and the reader that it leaves.
unfoldable pub run : Reader → List Call → List Chunk × Reader
run r [] = ([], r)
run r (c ∷ calls) = let (out, r') = step r c in let (rest, r'') = run r' calls in (out ++ rest, r'')
