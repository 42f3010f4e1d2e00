-- ===== src/DataStream/Reader/Fifo.antt =====
-- A reader hands out the chunks that it accepted, each once and in order.
use client_sdk_cpp.Prelude.{
  ℕ, zero, suc, Bool, true, false, List, [], ◌∷◌, ◌++◌, none, some, String, ◌+◌, length, ◌≡◌, refl,
  arith, concat, ◌<◌, append_assoc, append-nil, sym, ap, ◌∙◌,
}
use client_sdk_cpp.Prelude.Assoc.{insert, string_eq, lookup, lookup-insert, Distinct}
use text.Mathlib.TextEquality.{eq_iff}
use client_sdk_cpp.DataStream.Reader.{
  Attributes, Chunk, Reader, on_chunk_update, merge_attributes, on_stream_close, take_front,
  read_next, read_all_loop, read_all, Call, chunk, close, next, handed, step, run,
}

-- The chunks of a call sequence that arrive before the stream is closed.
abbrev pub accepted : Bool → List Call → List Chunk
accepted shut [] = []
accepted true (chunk c ∷ calls) = accepted true calls
accepted false (chunk c ∷ calls) = c ∷ accepted false calls
accepted shut (close attrs ∷ calls) = accepted true calls
accepted shut (next ∷ calls) = accepted shut calls

next_fifo :
    (q : List Chunk) (r : Reader) (calls : List Call)
    → r.queue ≡ q
    → let (out, r') = take_front q r in
      handed out ++ (r'.queue ++ accepted r'.closed calls) ≡ q ++ accepted r.closed calls
unfolding take_front
next_fifo [] r calls e = ground arith
next_fifo (c ∷ q) r calls e = refl

-- One call: what it hands out, what it leaves queued and what the later calls add.
step_fifo :
    (r : Reader) (c : Call) (calls : List Call)
    → let (out, r') = step r c in
      out ++ (r'.queue ++ accepted r'.closed calls) ≡ r.queue ++ accepted r.closed (c ∷ calls)
unfolding step on_chunk_update on_stream_close read_next
step_fifo r (chunk c) calls = ground (arith, append_assoc r.queue (c ∷ []) (accepted false calls))
step_fifo r (close attrs) calls = refl
step_fifo r next calls = next_fifo r.queue r calls refl

-- Whatever other threads do between the reads, the chunks handed out so far and those still queued
-- are the chunks that were queued at first and those that arrived before the stream was closed:
-- none is lost, repeated or reordered, and one that arrives after the close is ignored.
pub run_fifo :
    (r : Reader) (calls : List Call)
    → let (out, r') = run r calls in out ++ r'.queue ≡ r.queue ++ accepted r.closed calls
unfolding run
run_fifo r [] = sym (append-nil r.queue)
run_fifo r (c ∷ calls) =
    let (out, r') = step r c in
    let (rest, r'') = run r' calls in
    append_assoc out rest r''.queue ∙ ap (λ t. out ++ t) (run_fifo r' calls) ∙ step_fifo r c calls

-- Reading to the end of a closed stream ends, and gives all that was queued.
read_all_loop_closed :
    (q : List Chunk) (fuel : ℕ) (result : Chunk) (r : Reader)
    → r.closed ≡ true
    → r.queue ≡ q
    → length q < fuel
    → read_all_loop fuel result r ≡ some (result ++ concat q, record r { queue = [] })
unfolding read_all_loop read_next take_front
read_all_loop_closed q zero result r e eq h = absurd (omega arith)
read_all_loop_closed [] (suc fuel) result r e eq h = rw (eq, e, append-nil)
read_all_loop_closed (c ∷ q) (suc fuel) result r e eq h =
    rw (eq, read_all_loop_closed q fuel (result ++ c) (record r { queue = q }) e refl (omega arith))
      (ap (λ t. some (t, record r { queue = [] })) (append_assoc result c (concat q)))

-- Reading to the end of a closed stream ends and gives all the bytes that were queued, in order.
pub read_all_closed :
    (r : Reader) → r.closed ≡ true → read_all r ≡ some (concat r.queue, record r { queue = [] })
unfolding read_all
read_all_closed r e = read_all_loop_closed r.queue (length r.queue + 1) [] r e refl (omega arith)

-- The attributes of the trailer, whose keys are distinct, replace those of the header that have the same key; the others
-- stay.
lookup-merge_attributes :
    (k : String) (trailer attrs : Attributes)
    → Distinct trailer
    → lookup k (merge_attributes trailer attrs)
      ≡ (elim (lookup k trailer) [ some v ↦ some v | none ↦ lookup k attrs ])
unfolding merge_attributes lookup
lookup-merge_attributes k [] attrs d = refl
lookup-merge_attributes k ((j, v) ∷ trailer) attrs d =
    lookup-merge_attributes k trailer (insert j v attrs) d.1
    ∙ ground (arith, eq_iff j k, lookup-insert j k v attrs, d.0)
