-- ===== src/DataStream/Writer/Payload.antt =====
-- Which bytes a write puts on the wire.
use mathlib.Core.Path.{fun_ext}
use client_sdk_cpp.Prelude.{
  ℕ, zero, suc, Bool, false, List, [], ◌∷◌, ◌++◌, if◌then◌else◌, sym, ◌∙◌, ap, concat, Bool-cases,
  inl, inr, ◌⊎◌, subst, ◌+◌, ◌-◌, length, min, take, drop, ltb, ◌≤◌, ◌≡◌, refl, ◌≢◌, arith,
  append_assoc, append-nil, drop_all, take-append-drop, drop-drop,
}
use client_sdk_cpp.DataStream.Split.{split_utf8}
use client_sdk_cpp.DataStream.Split.Chunks.{concat-split_utf8}
use client_sdk_cpp.DataStream.Reader.{Chunk}
use client_sdk_cpp.DataStream.Writer.{
  Message, header, chunk, trailer, Writer, Outcome, ok, throws, ◌then_do◌, send, ensure_header_sent,
  send_chunk, send_chunks, write_text, write_bytes_from, write_bytes, stream_chunk_size,
}

-- The bytes of the chunks on the wire, in the order in which they were sent.
abbrev pub payload : List Message → Chunk
payload [] = []
payload (header h ∷ ms) = payload ms
payload (chunk id i c ∷ ms) = payload ms ++ c
payload (trailer id reason attrs ∷ ms) = payload ms

-- A call on the writer `w` that was to send `content` has sent the part `before` and not the part
-- `after`, which is empty unless the call threw.
pub record Sends (w : Writer) (content : Chunk) (r : Outcome × Writer) : Type 0 where
  pub before : Chunk
  pub after : Chunk
  pub whole : content ≡ before ++ after
  pub wire : payload r.1.sent ≡ payload w.sent ++ before
  pub complete : (after ≡ []) ⊎ (r.0 ≢ ok)

-- The pieces of a byte array: `stream_chunk_size` bytes each, but for the last.
pieces : ℕ → Chunk → ℕ → List Chunk
pieces zero bytes offset = []
pieces (suc fuel) bytes offset =
    let n = min stream_chunk_size (length bytes - offset) in
    let rest = take n (drop offset bytes) ∷ pieces fuel bytes (offset + n) in
    if ltb offset (length bytes) then rest else []

concat-pieces :
    (fuel : ℕ) (bytes : Chunk) (offset : ℕ)
    → length bytes - offset ≤ fuel
    → concat (pieces fuel bytes offset) ≡ drop offset bytes
unfolding pieces
concat-pieces zero bytes offset h = sym (drop_all offset bytes (omega arith))
concat-pieces (suc fuel) bytes offset h = elim (Bool-cases (ltb offset (length bytes))) [
  | inl more ↦
      let n = min stream_chunk_size (length bytes - offset) in
      rw (more, concat-pieces fuel bytes (offset + n) (ground arith), ← drop-drop n offset bytes)
        (take-append-drop n (drop offset bytes))
  | inr none_left ↦ rw none_left (sym (drop_all offset bytes (ground arith)))
]

module _ (send_ok : List Message → Message → Bool) where
  send_chunk_cases :
      (c : Chunk) (w : Writer)
      → w.closed ≡ false
      → let (o, w') = send_chunk send_ok c w in
        (w'.closed ≡ false)
        × (((o ≡ ok) × (payload w'.sent ≡ payload w.sent ++ c))
            ⊎ ((o ≢ ok) × (payload w'.sent ≡ payload w.sent)))
  unfolding send_chunk ensure_header_sent send
  send_chunk_cases c w is_open = ground arith

  Sends-then_do :
      (w : Writer) (c more : Chunk) (r : Outcome × Writer) (k : Writer → Outcome × Writer)
      → ((r.0 ≡ ok) × (payload r.1.sent ≡ payload w.sent ++ c))
        ⊎ ((r.0 ≢ ok) × (payload r.1.sent ≡ payload w.sent))
      → Sends r.1 more (k r.1)
      → Sends w (c ++ more) (r then_do k)
  Sends-then_do w c more (ok, w') k (inl (_, p)) t = record {
    before = c ++ t.before;
    after = t.after;
    whole = ap (λ x. c ++ x) t.whole ∙ sym (append_assoc c t.before t.after);
    wire = t.wire ∙ ap (λ x. x ++ t.before) p ∙ append_assoc (payload w.sent) c t.before;
    complete = t.complete;
  }
  Sends-then_do w c more (ok, w') k (inr (n, _)) t = absurd (n refl)
  Sends-then_do w c more (throws e, w') k (inl (n, _)) t = cc
  Sends-then_do w c more (throws e, w') k (inr (_, p)) t = record {
    before = [];
    after = c ++ more;
    whole = refl;
    wire = p ∙ sym (append-nil (payload w.sent));
    complete = inr (λ q. cc);
  }

  send_chunks-Sends :
      (cs : List Chunk) (w : Writer)
      → w.closed ≡ false
      → Sends w (concat cs) (send_chunks send_ok cs w)
  unfolding send_chunks
  send_chunks-Sends [] w is_open = record {
    before = [];
    after = [];
    whole = refl;
    wire = sym (append-nil (payload w.sent));
    complete = inl refl;
  }
  send_chunks-Sends (c ∷ cs) w is_open =
      let (o, cases) = send_chunk_cases c w is_open in
      Sends-then_do w c (concat cs) (send_chunk send_ok c w) _ cases
        (send_chunks-Sends cs (send_chunk send_ok c w).1 o)

  -- A write of a text on an open writer puts the bytes of the text on the wire, behind those
  -- already there: all of them, or a first part of them if it throws.
  pub write_text-Sends :
      (content : Chunk) (w : Writer)
      → w.closed ≡ false
      → Sends w content (write_text send_ok content w)
  unfolding write_text
  write_text-Sends content w is_open = simp is_open (
      subst (λ x. Sends w x (send_chunks send_ok (split_utf8 content stream_chunk_size) w))
        (concat-split_utf8 content stream_chunk_size (omega arith))
        (send_chunks-Sends (split_utf8 content stream_chunk_size) w is_open))

  write_bytes_from-pieces :
      (fuel : ℕ) (bytes : Chunk) (offset : ℕ) (w : Writer)
      → write_bytes_from send_ok fuel bytes offset w
        ≡ send_chunks send_ok (pieces fuel bytes offset) w
  unfolding write_bytes_from pieces send_chunks
  write_bytes_from-pieces zero bytes offset w = refl
  write_bytes_from-pieces (suc fuel) bytes offset w =
      elim (Bool-cases (ltb offset (length bytes))) [
        | inl more ↦ rw more (
            ap
              (λ k.
                send_chunk send_ok
                  (take (min stream_chunk_size (length bytes - offset)) (drop offset bytes)) w
                then_do k)
              (fun_ext (
                write_bytes_from-pieces fuel bytes
                  (offset + min stream_chunk_size (length bytes - offset)))))
        | inr none_left ↦ rw none_left
      ]

  -- A write of a byte array on an open writer puts its bytes on the wire, behind those already there:
  -- all of them, or a first part of them if it throws; the loop ends within its fuel.
  write_bytes-Sends :
      (bytes : Chunk) (w : Writer) → w.closed ≡ false → Sends w bytes (write_bytes send_ok bytes w)
  unfolding write_bytes
  write_bytes-Sends bytes w is_open =
      simp (is_open, write_bytes_from-pieces (length bytes) bytes 0 w)
        (subst (λ x. Sends w x (send_chunks send_ok (pieces (length bytes) bytes 0) w))
          (concat-pieces (length bytes) bytes 0 (omega arith))
          (send_chunks-Sends (pieces (length bytes) bytes 0) w is_open))
