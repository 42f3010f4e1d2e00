-- ===== src/DataStream/Split/LastPoint.antt =====
-- `splitUtf8` on a text whose last code point has two bytes or more: the last byte is cut off.
use client_sdk_cpp.Prelude.{
  ℕ, zero, suc, ◌+◌, ◌-◌, ◌≤◌, ◌<◌, min, ◌≡◌, refl, ap, sym, subst, List, [], ◌∷◌, ◌++◌, arith,
  length, take, drop, get_or, length-append, lt→ltb,
}
use client_sdk_cpp.DataStream.Split.{
  byte_at, back_off_end, chunk_end, slice, split_from, split_utf8,
}
use client_sdk_cpp.DataStream.Split.Utf8.{IsTail}
use client_sdk_cpp.DataStream.Split.Boundaries.{back_to_lead_at_end}

take-append {ℓ} : {A : Type ℓ} (xs ys : List A) → take (length xs) (xs ++ ys) ≡ xs
take-append [] ys = refl
take-append (x ∷ xs) ys = ap (◌∷◌ x) (take-append xs ys)

drop-append {ℓ} : {A : Type ℓ} (xs ys : List A) → drop (length xs) (xs ++ ys) ≡ ys
drop-append [] ys = refl
drop-append (x ∷ xs) ys = drop-append xs ys

get_or-append {ℓ} : {A : Type ℓ} (xs : List A) (y d : A) → get_or (xs ++ y ∷ []) (length xs) d ≡ y
get_or-append [] y d = refl
get_or-append (x ∷ xs) y d = get_or-append xs y d

split_from_at_end : (fuel : ℕ) (s : List ℕ) (m i : ℕ) → length s ≤ i → split_from fuel s m i ≡ []
unfolding split_from
split_from_at_end zero s m i h = refl
split_from_at_end (suc fuel) s m i h = ground arith

split_from_two :
    (fuel : ℕ) (s : List ℕ) (m j : ℕ)
    → 0 < j
    → j < length s
    → chunk_end s m 0 ≡ j
    → chunk_end s m j ≡ length s
    → split_from (suc (suc fuel)) s m 0 ≡ slice s 0 j ∷ slice s j (length s) ∷ []
unfolding split_from
split_from_two fuel s m j hj hn e e' =
    rw (e, e', lt→ltb 0 (length s) (omega arith), lt→ltb j (length s) hn)
      (rw (split_from_at_end fuel s m (length s) (omega arith)))

back_off_end_short : (s : List ℕ) (i e : ℕ) → e < length s → back_off_end s i e ≡ e
unfolding back_off_end
back_off_end_short s i zero h = refl
back_off_end_short s i (suc e) h = ground arith

back_off_end_once :
    (s : List ℕ) (i e : ℕ)
    → i < suc e
    → suc e ≡ length s
    → IsTail (byte_at s e)
    → back_off_end s i (suc e) ≡ e
unfolding back_off_end
back_off_end_once s i e h q t = ground (arith, back_off_end_short s i e (omega arith))

chunk_end_first :
    (s : List ℕ) (m e : ℕ)
    → 0 < e
    → suc e ≡ length s
    → length s ≤ m
    → IsTail (byte_at s e)
    → chunk_end s m 0 ≡ e
unfolding chunk_end
chunk_end_first s m e pos n h t =
    let lim : min (0 + m) (length s) ≡ suc e = omega arith in
    rw
      (
        lim,
        back_to_lead_at_end s 0 (suc e) (omega arith),
        back_off_end_once s 0 e (omega arith) n t,
      )
      (ground arith)

chunk_end_second :
    (s : List ℕ) (m e : ℕ)
    → 0 < m
    → suc e ≡ length s
    → IsTail (byte_at s e)
    → chunk_end s m e ≡ length s
unfolding chunk_end
chunk_end_second s m e pos n t =
    let lim : min (e + m) (length s) ≡ suc e = omega arith in
    rw
      (
        lim,
        back_to_lead_at_end s e (suc e) (omega arith),
        back_off_end_once s e e (omega arith) n t,
      )
      (ground arith)

-- A text that fits one chunk and ends in a continuation byte, as every text does whose last
-- character is not ASCII, is sent as two chunks: the last byte is cut off from its code point.
pub split_utf8_cuts_last_byte :
    (a : ℕ) (rest : List ℕ) (c m : ℕ)
    → IsTail c
    → length (a ∷ rest) + 1 ≤ m
    → split_utf8 (a ∷ rest ++ c ∷ []) m ≡ (a ∷ rest) ∷ (c ∷ []) ∷ []
unfolding split_utf8
split_utf8_cuts_last_byte a rest c m t h =
    subst (λ k. split_from k s m 0 ≡ (a ∷ rest) ∷ (c ∷ []) ∷ []) (sym n)
      (rw two (rw (first, second)))
  where
    s : List ℕ
    s = a ∷ rest ++ c ∷ []

    n : length s ≡ suc (suc (length rest))
    n = omega (arith, length-append rest (c ∷ []))

    last : IsTail (byte_at s (suc (length rest)))
    last = rw (get_or-append rest c 0) t

    two :
        split_from (suc (suc (length rest))) s m 0
        ≡ slice s 0 (suc (length rest)) ∷ slice s (suc (length rest)) (length s) ∷ []
    two =
        split_from_two (length rest) s m (suc (length rest)) (omega arith) (omega (arith, n))
          (chunk_end_first s m (suc (length rest)) (omega arith) (sym n) (omega (arith, n)) last)
          (chunk_end_second s m (suc (length rest)) (omega arith) (sym n) last)

    first : slice s 0 (suc (length rest)) ≡ a ∷ rest
    first =
        let e : suc (length rest) - 0 ≡ suc (length rest) = omega arith in
        rw e (take-append (a ∷ rest) (c ∷ []))

    second : slice s (suc (length rest)) (length s) ≡ c ∷ []
    second =
        let e : length s - suc (length rest) ≡ 1 = omega (arith, n) in
        rw (e, drop-append rest (c ∷ []))
