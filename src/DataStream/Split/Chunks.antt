-- ===== src/DataStream/Split/Chunks.antt =====
-- The chunks of `splitUtf8` make up the text, and none is empty or too long.
use client_sdk_cpp.Prelude.{
  ℕ, zero, suc, ◌+◌, ◌-◌, ◌≤◌, ◌<◌, min, ◌≡◌, sym, ap, ◌∙◌, List, ◌++◌, arith, ltb, Bool-cases, inl,
  inr, length, drop, concat, All, drop_all, take-append-drop, drop-drop, length-take, length-append,
  [], ◌∷◌, length-drop,
}
use client_sdk_cpp.DataStream.Split.{
  back_to_lead, back_off_end, chunk_end, slice, split_from, split_utf8,
}

pub back_to_lead_bounds :
    (s : List ℕ) (i e : ℕ) → i ≤ e → (i ≤ back_to_lead s i e) × (back_to_lead s i e ≤ e)
unfolding back_to_lead
back_to_lead_bounds s i zero h = omega arith
back_to_lead_bounds s i (suc e) h = ground (arith, back_to_lead_bounds s i e)

pub back_off_end_bounds :
    (s : List ℕ) (i e : ℕ) → i ≤ e → (i ≤ back_off_end s i e) × (back_off_end s i e ≤ e)
unfolding back_off_end
back_off_end_bounds s i zero h = omega arith
back_off_end_bounds s i (suc e) h = ground (arith, back_off_end_bounds s i e)

pub chunk_end_bounds :
    (s : List ℕ) (m i : ℕ)
    → 0 < m
    → i < length s
    → (i < chunk_end s m i) × (chunk_end s m i ≤ i + m) × (chunk_end s m i ≤ length s)
unfolding chunk_end
chunk_end_bounds s m i hm hi =
    let limit = min (i + m) (length s) in
    ground (arith, back_to_lead_bounds s i limit, back_off_end_bounds s i (back_to_lead s i limit))

slice-append-drop : (s : List ℕ) (i j : ℕ) → i ≤ j → slice s i j ++ drop j s ≡ drop i s
slice-append-drop s i j h =
    let e : j ≡ i + (j - i) = omega arith in
    ap (◌++◌ (slice s i j)) (ap (λ k. drop k s) e ∙ sym (drop-drop (j - i) i s))
    ∙ take-append-drop (j - i) (drop i s)

concat-split_from :
    (fuel : ℕ) (s : List ℕ) (m i : ℕ)
    → 0 < m
    → length s - i ≤ fuel
    → concat (split_from fuel s m i) ≡ drop i s
unfolding split_from
concat-split_from zero s m i hm h = sym (drop_all i s (omega arith))
concat-split_from (suc fuel) s m i hm h = elim (Bool-cases (ltb i (length s))) [
  | inl more ↦
      let b = chunk_end_bounds s m i hm (ground arith) in
      rw (more, concat-split_from fuel s m (chunk_end s m i) hm (omega (arith, b)))
        (slice-append-drop s i (chunk_end s m i) (omega (arith, b)))
  | inr done ↦ rw done (sym (drop_all i s (ground arith)))
]

-- If a chunk may have a byte, the chunks, put together again, are the text: nothing is lost, repeated or reordered, and the
-- loop ends within its fuel, one round for each byte of the text.
pub concat-split_utf8 : (s : List ℕ) (m : ℕ) → 0 < m → concat (split_utf8 s m) ≡ s
unfolding split_utf8
concat-split_utf8 s m hm = concat-split_from (length s) s m 0 hm (omega arith)

length-slice : (s : List ℕ) (i j : ℕ) → j ≤ length s → length (slice s i j) ≡ j - i
length-slice s i j h = omega (arith, length-take (j - i) (drop i s), length-drop i s)

abbrev pub Fits : ℕ → List ℕ → Type 0
Fits m chunk = (0 < length chunk) × (length chunk ≤ m)

split_from-Fits : (fuel : ℕ) (s : List ℕ) (m i : ℕ) → 0 < m → All (Fits m) (split_from fuel s m i)
unfolding split_from
split_from-Fits zero s m i hm = tt
split_from-Fits (suc fuel) s m i hm = elim (Bool-cases (ltb i (length s))) [
  | inl more ↦
      let b = chunk_end_bounds s m i hm (ground arith) in
      let l = length-slice s i (chunk_end s m i) b.2 in
      rw more
        ((omega (arith, b, l), omega (arith, b, l)), split_from-Fits fuel s m (chunk_end s m i) hm)
  | inr done ↦ rw done tt
]

-- Every chunk of the text has at least one byte and at most `m`, if `m` is not 0.
split_utf8-Fits : (s : List ℕ) (m : ℕ) → 0 < m → All (Fits m) (split_utf8 s m)
unfolding split_utf8
split_utf8-Fits s m hm = split_from-Fits (length s) s m 0 hm

length-Fits :
    (m : ℕ) (chunks : List (List ℕ)) → All (Fits m) chunks → length chunks ≤ length (concat chunks)
length-Fits m [] h = omega arith
length-Fits m (c ∷ chunks) h =
    omega (arith, length-Fits m chunks h.1, h.0, length-append c (concat chunks))

pub split_utf8_count : (s : List ℕ) (m : ℕ) → 0 < m → length (split_utf8 s m) ≤ length s
split_utf8_count s m hm = omega (
  arith,
  length-Fits m (split_utf8 s m) (split_utf8-Fits s m hm),
  ap length (concat-split_utf8 s m hm),
)
