-- ===== src/DataStream/Writer/Protocol.antt =====
-- What a writer puts on the wire, whatever the native library refuses: a header, then chunks under
-- rising numbers, then at most one trailer.
use client_sdk_cpp.Prelude.{
  ℕ, suc, Bool, true, false, List, [], ◌∷◌, String, ◌+◌, ◌%◌, ◌^◌, length, ◌<◌, ◌≤◌, ◌≡◌, refl,
  arith, if_rule, sym, ◌∙◌,
}
use client_sdk_cpp.DataStream.Reader.{Attributes, Chunk}
use client_sdk_cpp.DataStream.Split.{split_utf8}
use client_sdk_cpp.DataStream.Split.Chunks.{split_utf8_count}
use client_sdk_cpp.DataStream.Writer.{
  Message, header, chunk, trailer, Writer, Outcome, ok, throws, ◌then_do◌, send, ensure_header_sent,
  send_chunk, send_trailer, close, send_chunks, write_text, stream_chunk_size,
}

-- The header alone at the start, and above it chunks whose numbers fall from `n` down the list.
abbrev pub InOrder : ℕ → List Message → Type 0
InOrder n [] = ⊥
InOrder n (header h ∷ []) = Unit
InOrder n (header h ∷ m ∷ ms) = ⊥
InOrder n (chunk id i c ∷ ms) = (i < n) × InOrder i ms
InOrder n (trailer id reason attrs ∷ ms) = ⊥

abbrev pub without_trailer : List Message → List Message
without_trailer (trailer id reason attrs ∷ ms) = ms
without_trailer ms = ms

abbrev pub WellSent : Bool → Bool → ℕ → List Message → Type 0
WellSent shut false n ms = ms ≡ []
WellSent false true n ms = InOrder n ms
WellSent true true n ms = InOrder n (without_trailer ms)

abbrev pub IsWellSent : Writer → Type 0
IsWellSent w = WellSent w.closed w.header_sent w.next_chunk_index w.sent

InOrder-mono : (m n : ℕ) (ms : List Message) → m ≤ n → InOrder m ms → InOrder n ms
InOrder-mono m n [] h o = o
InOrder-mono m n (header x ∷ []) h o = o
InOrder-mono m n (header x ∷ y ∷ ms) h o = o
InOrder-mono m n (chunk id i c ∷ ms) h o = (omega arith, o.1)
InOrder-mono m n (trailer id reason attrs ∷ ms) h o = o

InOrder-without_trailer :
    (n : ℕ) (ms : List Message) → InOrder n ms → InOrder n (without_trailer ms)
InOrder-without_trailer n [] o = o
InOrder-without_trailer n (header x ∷ ms) o = o
InOrder-without_trailer n (chunk id i c ∷ ms) o = o
InOrder-without_trailer n (trailer id reason attrs ∷ ms) o = elim o [ ]

-- What holds of the writer after a chain: shown where the first part returns, and where it throws.
pub then_do_rule {ℓ} :
    (P : Writer → Type ℓ) (r : Outcome × Writer) (k : Writer → Outcome × Writer)
    → (r.0 ≡ ok → P (k r.1).1)
    → P r.1
    → P (r then_do k).1
then_do_rule P (ok, w) k f g = f refl
then_do_rule P (throws e, w) k f g = g

abbrev Advanced : Writer → ℕ → Writer → Type 0
Advanced w n w' =
    IsWellSent w' × (w'.closed ≡ w.closed) × (w'.next_chunk_index ≤ w.next_chunk_index + n)

module _ (send_ok : List Message → Message → Bool) where
  ensure_header_sent-IsWellSent :
      (w : Writer)
      → w.closed ≡ false
      → IsWellSent w
      → let (o, w') = ensure_header_sent send_ok w in
        IsWellSent w'
        × (w'.closed ≡ false)
        × (w'.next_chunk_index ≡ w.next_chunk_index)
        × (o ≡ ok → w'.header_sent ≡ true)
  unfolding ensure_header_sent send
  ensure_header_sent-IsWellSent w is_open v = ground arith

  chunk_sent-Advanced :
      (c : Chunk) (w : Writer)
      → w.closed ≡ false
      → w.header_sent ≡ true
      → w.next_chunk_index + 1 < 2 ^ 64
      → IsWellSent w
      → Advanced w 1
          (send send_ok
            (chunk w.stream_id w.next_chunk_index c)
            (record w { next_chunk_index = (w.next_chunk_index + 1) % 2 ^ 64 })).1
  unfolding send
  chunk_sent-Advanced c w is_open sent h v =
      ground (arith, InOrder-mono w.next_chunk_index (w.next_chunk_index + 1) w.sent)

  -- One chunk keeps the order, and takes one number or none.
  send_chunk-Advanced :
      (c : Chunk) (w : Writer)
      → w.next_chunk_index + 1 < 2 ^ 64
      → IsWellSent w
      → Advanced w 1 (send_chunk send_ok c w).1
  unfolding send_chunk
  send_chunk-Advanced c w h v =
      if_rule {A = Outcome × Writer} (λ r. Advanced w 1 r.1) w.closed
        (λ shut. (v, refl, omega arith))
        λ is_open.
          let (v', o', n', s') = ensure_header_sent-IsWellSent w is_open v in
          then_do_rule (Advanced w 1) (ensure_header_sent send_ok w) _
            (λ e.
              let (a, b, c') =
                chunk_sent-Advanced c (ensure_header_sent send_ok w).1 o' (s' e) (omega arith) v' in
              (a, b ∙ o' ∙ sym is_open, omega arith))
            (v', o' ∙ sym is_open, omega arith)

  send_chunks-Advanced :
      (cs : List Chunk) (w : Writer)
      → w.next_chunk_index + length cs < 2 ^ 64
      → IsWellSent w
      → Advanced w (length cs) (send_chunks send_ok cs w).1
  unfolding send_chunks
  send_chunks-Advanced [] w h v = (v, refl, omega arith)
  send_chunks-Advanced (c ∷ cs) w h v =
      let (v', o', n') = send_chunk-Advanced c w (omega arith) v in
      then_do_rule (Advanced w (suc (length cs))) (send_chunk send_ok c w) _
        (λ e.
          let (a, b, n'') = send_chunks-Advanced cs (send_chunk send_ok c w).1 (omega arith) v' in
          (a, b ∙ o', omega arith))
        (v', o', omega arith)

  -- On a writer that sent in order, a text is written in order, whichever messages the native library
  -- refuses: the wire has the
  -- header first and then chunks under rising numbers. Assumed: the chunk numbers stay below 2^64
  -- (a text has no more chunks than bytes).
  pub write_text-IsWellSent :
      (content : Chunk) (w : Writer)
      → w.next_chunk_index + length content < 2 ^ 64
      → IsWellSent w
      → IsWellSent (write_text send_ok content w).1
  unfolding write_text
  write_text-IsWellSent content w h v =
      if_rule {A = Outcome × Writer} (λ r. IsWellSent r.1) w.closed (λ shut. v)
        λ is_open.
          (send_chunks-Advanced (split_utf8 content stream_chunk_size) w
            (omega (arith, split_utf8_count content stream_chunk_size (omega arith))) v).0

  -- Closing a writer that sent in order keeps the order, with at most one trailer above the rest,
  -- whichever messages the native library refuses, and leaves the writer closed.
  close-IsWellSent :
      (reason : String) (attrs : Attributes) (w : Writer)
      → IsWellSent w
      → IsWellSent (close send_ok reason attrs w).1
        × ((close send_ok reason attrs w).1.closed ≡ true)
  unfolding close send_trailer ensure_header_sent send
  close-IsWellSent reason attrs w v =
      ground (arith, InOrder-without_trailer w.next_chunk_index w.sent)
