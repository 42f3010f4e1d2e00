-- ===== src/Room/Received.antt =====
-- From the writer's messages to the reader's text.
use client_sdk_cpp.Prelude.{
  ℕ, false, List, [], ◌∷◌, ◌++◌, Option, none, some, String, ◌+◌, ◌≡◌, refl, sym, ap, arith, concat,
  concat-append, append-nil, subst,
}
use client_sdk_cpp.Prelude.Assoc.{lookup, insert, erase, string_eq, nat_eq, lookup-insert_self}
use client_sdk_cpp.DataStream.Reader.{
  Reader, new_reader, Attributes, Chunk, on_chunk_update, on_stream_close, read_all,
}
use client_sdk_cpp.DataStream.Reader.Fifo.{read_all_closed}
use client_sdk_cpp.DataStream.Writer.{Message, Header, header, chunk, trailer, text_header}
use client_sdk_cpp.DataStream.Writer.Protocol.{InOrder}
use client_sdk_cpp.DataStream.Writer.Payload.{payload}
use client_sdk_cpp.Room.{
  Room, on_stream_header, update, on_stream_chunk, on_stream_trailer, on_stream_event, deliver,
}

-- The messages of one text stream.
abbrev pub IsTextStream : String → String → Option String → List Message → Type 0
IsTextStream id topic reply [] = Unit
IsTextStream id topic reply (header h ∷ ms) =
    (h.stream_id ≡ id)
    × (h.topic ≡ topic)
    × (h.content_header ≡ text_header reply)
    × IsTextStream id topic reply ms
IsTextStream id topic reply (chunk j n c ∷ ms) = (j ≡ id) × IsTextStream id topic reply ms
IsTextStream id topic reply (trailer j reason attrs ∷ ms) =
    (j ≡ id) × IsTextStream id topic reply ms

-- The reader `k` is routed to, is open, and holds `content`; `told` has the calls of the handlers.
record Collects (told : List (ℕ × ℕ × String)) (id : String) (k : ℕ) (content : Chunk) (r : Room)
    : Type 0 where
  reader : Reader
  routed : lookup id r.text_stream_readers ≡ some k
  stored : lookup k r.readers ≡ some reader
  is_open : reader.closed ≡ false
  holds : concat reader.queue ≡ content
  called : r.called ≡ told

header_routed :
    (who : String) (handler : ℕ) (reply : Option String) (h : Header) (r : Room)
    → h.content_header ≡ text_header reply
    → lookup h.topic r.text_stream_handlers ≡ some handler
    → Collects
        ((handler, r.next_reader, who) ∷ r.called)
        h.stream_id
        r.next_reader
        []
        (on_stream_header who h r)
unfolding on_stream_header lookup
header_routed who handler reply h r c e =
    subst (λ x. Collects ((handler, r.next_reader, who) ∷ r.called) h.stream_id r.next_reader [] x)
      (sym added)
      (record {
        reader = new_reader h.attributes;
        routed = lookup-insert_self h.stream_id r.next_reader r.text_stream_readers;
        stored = ground arith;
        is_open = refl;
        holds = refl;
        called = refl;
      })
  where
    with_reader : Room
    with_reader = record r {
      text_stream_readers = insert h.stream_id r.next_reader r.text_stream_readers;
      readers = (r.next_reader, new_reader h.attributes) ∷ r.readers;
      next_reader = r.next_reader + 1;
      called = (handler, r.next_reader, who) ∷ r.called;
    }

    added : on_stream_header who h r ≡ with_reader
    added = rw (c, on_stream_header) (rw e)

accepts :
    (content before : Chunk) (reader : Reader)
    → reader.closed ≡ false
    → concat reader.queue ≡ before
    → ((on_chunk_update content reader).closed ≡ false)
      × (concat (on_chunk_update content reader).queue ≡ before ++ content)
unfolding on_chunk_update
accepts content before reader o e =
    rw (o, on_chunk_update)
      (refl, rw (concat-append reader.queue (content ∷ []), e, append-nil content))

update_at :
    (k : ℕ) (f : Reader → Reader) (reader : Reader) (r : Room)
    → lookup k r.readers ≡ some reader
    → update k f r ≡ record r { readers = insert k (f reader) r.readers }
unfolding update
update_at k f reader r e = rw (e, update)

chunk_collected :
    {told : List (ℕ × ℕ × String)} (id : String) (k : ℕ) (before content : Chunk) (r : Room)
    → Collects told id k before r
    → Collects told id k (before ++ content) (on_stream_chunk id content r)
unfolding on_stream_chunk
chunk_collected {told} id k before content r v =
    let (o, q) = accepts content before v.reader v.is_open v.holds in
    rw (v.routed, on_stream_chunk)
      (subst (λ x. Collects told id k (before ++ content) x)
        (sym (update_at k (on_chunk_update content) v.reader r v.stored))
        (record {
          reader = on_chunk_update content v.reader;
          routed = v.routed;
          stored = lookup-insert_self k (on_chunk_update content v.reader) r.readers;
          is_open = o;
          holds = q;
          called = v.called;
        }))

collected :
    (who id topic : String) (reply : Option String) (handler n : ℕ) (ms : List Message) (r : Room)
    → InOrder n ms
    → IsTextStream id topic reply ms
    → lookup topic r.text_stream_handlers ≡ some handler
    → Collects
        ((handler, r.next_reader, who) ∷ r.called)
        id
        r.next_reader
        (payload ms)
        (deliver who ms r)
unfolding deliver on_stream_event on_stream_header
collected who id topic reply handler n [] r o t e = elim o [ ]
collected who id topic reply handler n (header h ∷ []) r o t e =
    let e' : lookup h.topic r.text_stream_handlers ≡ some handler =
      subst (λ x. lookup x r.text_stream_handlers ≡ some handler) (sym t.1) e in
    subst
      (λ x.
        Collects ((handler, r.next_reader, who) ∷ r.called) x r.next_reader []
          (on_stream_header who h r))
      t.0 (header_routed who handler reply h r t.2 e')
collected who id topic reply handler n (header h ∷ m ∷ ms) r o t e = elim o [ ]
collected who id topic reply handler n (chunk j i c ∷ ms) r o t e =
    let v = collected who id topic reply handler i ms r o.1 t.1 e in
    subst
      (λ x.
        Collects ((handler, r.next_reader, who) ∷ r.called) id r.next_reader (payload ms ++ c)
          (on_stream_chunk x c (deliver who ms r)))
      (sym t.0) (chunk_collected id r.next_reader (payload ms) c (deliver who ms r) v)
collected who id topic reply handler n (trailer j reason attrs ∷ ms) r o t e = elim o [ ]

-- What the user reads to the end of the reader `k`, if the read does not wait.
unfoldable pub read_received : ℕ → Room → Option Chunk
read_received k r = elim (lookup k r.readers) [
  | none ↦ none
  | some reader ↦ (elim (read_all reader) [ none ↦ none | some (content, rest) ↦ some content ])
]

trailer_read :
    {told : List (ℕ × ℕ × String)} (id : String) (k : ℕ) (content : Chunk) (attrs : Attributes)
    (r : Room)
    → Collects told id k content r
    → (read_received k (on_stream_trailer id attrs r) ≡ some content)
      × ((on_stream_trailer id attrs r).called ≡ told)
unfolding on_stream_trailer read_received on_stream_close
trailer_read {told} id k content attrs r v =
    let r' : Room = record r { text_stream_readers = erase id r.text_stream_readers } in
    let closed_reader = on_stream_close attrs v.reader in
    rw (v.routed, on_stream_trailer)
      (subst (λ x. (read_received k x ≡ some content) × (x.called ≡ told))
        (sym (update_at k (on_stream_close attrs) v.reader r' v.stored))
        (
          rw (lookup-insert_self k closed_reader r.readers, read_received)
              (rw (read_all_closed closed_reader refl) (ap (λ c. some c) v.holds)),
          v.called,
        ))

-- If the messages of one text stream arrive in the order in which a writer sends them, a header, then
-- chunks under rising numbers, then the trailer, and its topic has a handler, then this handler is
-- called once, and no other is, with a new reader and the sender; and this reader reads, without
-- waiting, exactly the bytes that the chunks carry.
pub stream_received :
    (who id topic reason : String) (reply : Option String) (attrs : Attributes) (handler n : ℕ)
    (ms : List Message) (r : Room)
    → InOrder n ms
    → IsTextStream id topic reply ms
    → lookup topic r.text_stream_handlers ≡ some handler
    → let r' = deliver who (trailer id reason attrs ∷ ms) r in
      (read_received r.next_reader r' ≡ some (payload ms))
      × (r'.called ≡ (handler, r.next_reader, who) ∷ r.called)
unfolding read_received deliver on_stream_event
stream_received who id topic reason reply attrs handler n ms r o t e =
    trailer_read id r.next_reader (payload ms) attrs (deliver who ms r)
      (collected who id topic reply handler n ms r o t e)
