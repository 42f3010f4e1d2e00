-- ===== src/DataStream/Split/Boundaries.antt =====
-- `splitUtf8` and the code points of the text: where it keeps them whole.
use client_sdk_cpp.Prelude.{
  ℕ, zero, suc, ◌+◌, ◌-◌, ◌≤◌, ◌<◌, min, ◌≡◌, refl, ap, ◌∙◌, List, arith, ltb, Bool-cases, inl, inr,
  length, drop, All, subst, get_or-drop, length-drop, drop-drop,
}
use native.Mathlib.Decide.{ℕ_discrete, dec_lt}
use client_sdk_cpp.DataStream.Split.{
  byte_at, back_to_lead, back_off_end, chunk_end, split_from, split_utf8,
}
use client_sdk_cpp.DataStream.Split.Chunks.{chunk_end_bounds}
use client_sdk_cpp.DataStream.Split.Utf8.{IsLead, IsBoundary, Utf8, cut-Utf8, next-IsLead}

back_to_lead_at_lead : (s : List ℕ) (i e : ℕ) → IsLead (byte_at s e) → back_to_lead s i e ≡ e
unfolding back_to_lead
back_to_lead_at_lead s i zero l = refl
back_to_lead_at_lead s i (suc e) l = ground arith

back_to_lead_here :
    (s : List ℕ) (i e : ℕ)
    → IsLead (byte_at s e)
    → (e ≤ back_to_lead s i e) × IsLead (byte_at s (back_to_lead s i e))
back_to_lead_here s i e l = rw (back_to_lead_at_lead s i e l) (omega arith, l)

-- The walk back from `e` stops at the last lead byte up to `e`, if there is one after `i`.
back_to_lead_found :
    (s : List ℕ) (i e k : ℕ)
    → e < length s
    → i < k
    → k ≤ e
    → IsLead (byte_at s k)
    → (k ≤ back_to_lead s i e) × IsLead (byte_at s (back_to_lead s i e))
unfolding back_to_lead
back_to_lead_found s i zero k he hi hk l = absurd (omega arith)
back_to_lead_found s i (suc e) k he hi hk l = elim (ℕ_discrete k (suc e)) [
  | yes p ↦
      let (b, r) = back_to_lead_here s i (suc e) (subst (λ j. IsLead (byte_at s j)) p l) in
      (omega arith, r)
  | no p ↦ ground (arith, back_to_lead_found s i e k (omega arith) hi (omega arith) l)
]

pub back_to_lead_at_end : (s : List ℕ) (i e : ℕ) → length s ≤ e → back_to_lead s i e ≡ e
unfolding back_to_lead
back_to_lead_at_end s i zero h = refl
back_to_lead_at_end s i (suc e) h = ground arith

-- The text does not end within a code point of two bytes or more.
abbrev pub EndsInLead : List ℕ → Type 0
EndsInLead s = IsLead (byte_at s (length s - 1))

back_off_end_stays : (s : List ℕ) (i e : ℕ) → EndsInLead s → back_off_end s i e ≡ e
unfolding back_off_end
back_off_end_stays s i zero last = refl
back_off_end_stays s i (suc e) last = elim (ℕ_discrete (length s - 1) e) [
  | yes p ↦ let l : IsLead (byte_at s e) = subst (λ j. IsLead (byte_at s j)) p last in ground arith
  | no p ↦ ground arith
]

chunk_end_inner :
    (s : List ℕ) (m i : ℕ)
    → i + m < length s
    → EndsInLead s
    → i < back_to_lead s i (i + m)
    → chunk_end s m i ≡ back_to_lead s i (i + m)
unfolding chunk_end
chunk_end_inner s m i h last gt =
    let e : min (i + m) (length s) ≡ i + m = omega arith in
    rw (e, back_off_end_stays s i (back_to_lead s i (i + m)) last) (ground arith)

chunk_end_last :
    (s : List ℕ) (m i : ℕ) → length s ≤ i + m → EndsInLead s → chunk_end s m i ≡ length s
unfolding chunk_end
chunk_end_last s m i h last =
    let e : min (i + m) (length s) ≡ length s = omega arith in
    rw (e, back_to_lead_at_end s i (length s) (omega arith), back_off_end_stays s i (length s) last)
      (ground arith)

-- With a code point's start in reach of the limit, a chunk ends between two code points.
chunk_end-IsBoundary :
    (s : List ℕ) (m i : ℕ)
    → 3 < m
    → i < length s
    → EndsInLead s
    → Utf8 (drop i s)
    → IsBoundary s (chunk_end s m i)
chunk_end-IsBoundary s m i hm hi last w = elim (dec_lt (i + m) (length s)) [
  | yes more ↦
      let (k, pos, le, l) = next-IsLead w (omega (arith, length-drop i s)) in
      let l' : IsLead (byte_at s (i + k)) = subst (λ c. IsLead c) (get_or-drop i k s 0) l in
      let (b, r) = back_to_lead_found s i (i + m) (i + k) more (omega arith) (omega arith) l' in
      inr (rw (chunk_end_inner s m i more last (omega arith)) r)
  | no rest ↦ inl (omega (arith, chunk_end_last s m i (omega arith) last))
]

IsBoundary-drop : (s : List ℕ) (i j : ℕ) → i ≤ j → IsBoundary s j → IsBoundary (drop i s) (j - i)
IsBoundary-drop s i j h (inl e) = inl (omega (arith, length-drop i s))
IsBoundary-drop s i j h (inr l) =
    let e : j ≡ i + (j - i) = omega arith in
    inr (rw (get_or-drop i (j - i) s 0) (subst (λ c. IsLead (byte_at s c)) e l))

split_from-Utf8 :
    (fuel : ℕ) (s : List ℕ) (m i : ℕ)
    → 3 < m
    → EndsInLead s
    → Utf8 (drop i s)
    → All Utf8 (split_from fuel s m i)
unfolding split_from
split_from-Utf8 zero s m i hm last w = tt
split_from-Utf8 (suc fuel) s m i hm last w = elim (Bool-cases (ltb i (length s))) [
  | inl more ↦
      let stop = chunk_end s m i in
      let (lo, _, _) = chunk_end_bounds s m i (omega arith) (ground arith) in
      let bd = chunk_end-IsBoundary s m i hm (ground arith) last w in
      let (l, r) = cut-Utf8 w (stop - i) (IsBoundary-drop s i stop (omega arith) bd) in
      let e : i + (stop - i) ≡ stop = omega arith in
      let r' = subst Utf8 (drop-drop (stop - i) i s ∙ ap (λ k. drop k s) e) r in
      rw more (l, split_from-Utf8 fuel s m stop hm last r')
  | inr ended ↦ rw ended tt
]

-- A well-formed text whose last code point is a single byte, such as one that ends in ASCII, is
-- cut into well-formed texts, if a chunk has room for any code point (four bytes).
pub split_utf8-Utf8 :
    (s : List ℕ) (m : ℕ) → 3 < m → EndsInLead s → Utf8 s → All Utf8 (split_utf8 s m)
unfolding split_utf8
split_utf8-Utf8 s m hm last w = split_from-Utf8 (length s) s m 0 hm last w
