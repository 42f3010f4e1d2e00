-- ===== src/FreshAudioStream/Fresh.antt =====
-- The frames that are delivered are fresh, and no gap between them is hidden.
use client_sdk_cpp.Prelude.{
  not, ◌||◌, if_rule, subst, ℕ, ◌+◌, ◌-◌, ◌%◌, ◌^◌, true, List, [], ◌∷◌, Option, none, some, ◌==◌,
  ltb, ◌≡◌, refl, arith, ◌⊎◌, ◌≤◌, ◌<◌, ◌*◌, ◌/◌, All, ap, ◌∙◌,
}
use client_sdk_cpp.FreshAudioStream.{
  FreshAudioFrame, FreshAudioReadResult, empty, invalid_input, NativeResult, negative, zero_frames,
  one_frame, FreshAudioStream, Read, stats_of, difference, microseconds, bridged_age, deliver,
  try_read, deliveries,
}

-- A frame that a read delivers after another one: it is not older than the read allows, nor younger
-- than the native library said, and it is marked unless it follows the one before.
abbrev pub IsFresh : ℕ → FreshAudioFrame → Read → Type 0
IsFresh before f r =
    (f.age_us ≤ r.maximum_age_us)
    × (r.maximum_age_us ≤ 1000000)
    × (r.info.age_us ≤ f.age_us)
    × ((f.discontinuity ≡ true) ⊎ (f.sequence ≡ (before + 1) % 2 ^ 64))

abbrev pub AllFresh : ℕ → List (FreshAudioFrame × Read) → Type 0
AllFresh before [] = Unit
AllFresh before ((f, r) ∷ rest) = IsFresh before f r × AllFresh f.sequence rest

-- The clock does not go back during a read, and the times of the read, with the age that the native
-- library gives, are below 2 ^ 63 nanoseconds.
abbrev pub IsSteady : Read → Type 0
IsSteady r =
    (r.started ≤ r.finished)
    × (r.finished < 2 ^ 63)
    × (r.finished + r.info.age_us * 1000 < r.started + 2 ^ 63)

difference_lem :
    (x y a : ℕ)
    → x ≤ y
    → y < 2 ^ 63
    → y + a < x + 2 ^ 63
    → difference y (difference x (a % 2 ^ 64)) ≡ y + a - x
difference_lem x y a h k m = omega arith

age_lem :
    (r : Read) → IsSteady r → bridged_age r ≡ (r.finished + r.info.age_us * 1000 - r.started) / 1000
age_lem r (h, k, m) =
    let e = difference_lem r.started r.finished (r.info.age_us * 1000) h k m in
    let small : ltb (r.finished + r.info.age_us * 1000 - r.started) (2 ^ 63) ≡ true =
      ground arith in
    ap microseconds e ∙ rw small

abbrev Answer : Type 0
Answer = (FreshAudioReadResult × Option FreshAudioFrame) × FreshAudioStream

-- What a read puts out is fresh, and the stream remembers it.
abbrev Told : ℕ → Read → Answer → Type 0
Told before r ((result, none), s) = s.delivered_sequence ≡ before
Told before r ((result, some f), s) = IsFresh before f r × (s.delivered_sequence ≡ f.sequence)

marked : (x y b : ℕ) → (((not (b == 0)) || not (x == y)) ≡ true) ⊎ (x ≡ y)
marked x y b = ground arith

deliver-Told :
    (r : Read) (s : FreshAudioStream)
    → IsSteady r
    → r.maximum_age_us ≤ 1000000
    → Told s.delivered_sequence r (deliver r s)
unfolding deliver
deliver-Told r s steady limit =
    if_rule {A = Answer} (Told s.delivered_sequence r) (ltb (2 ^ 63 - 1) r.info.age_us) (λ _. refl)
      (λ _.
        if_rule {A = Answer} (Told s.delivered_sequence r) (ltb r.maximum_age_us (bridged_age r))
          (λ _. refl)
          (λ young. (
            (
              ground arith,
              limit,
              omega (arith, age_lem r steady),
              marked r.info.sequence ((s.delivered_sequence + 1) % 2 ^ 64) r.info.discontinuity,
            ),
            refl,
          )))

result-Told :
    (result : NativeResult) (r : Read) (s : FreshAudioStream)
    → IsSteady r
    → r.maximum_age_us ≤ 1000000
    → Told s.delivered_sequence r (elim result as (λ _. Answer) [
      | negative ↦ ((invalid_input, none), s)
      | zero_frames ↦ ((empty, none), record s { stats = stats_of r.info s.bridge_stale })
      | one_frame ↦ deliver r (record s { stats = stats_of r.info s.bridge_stale })
    ])
result-Told negative r s steady limit = refl
result-Told zero_frames r s steady limit = refl
result-Told one_frame r s steady limit =
    deliver-Told r (record s { stats = stats_of r.info s.bridge_stale }) steady limit

read-Told :
    (r : Read) (s : FreshAudioStream) → IsSteady r → Told s.delivered_sequence r (try_read r s)
unfolding try_read
read-Told r s steady =
    if_rule {A = Answer} (Told s.delivered_sequence r) (not (r.thread == s.owner)) (λ _. refl)
      (λ _.
        if_rule {A = Answer} (Told s.delivered_sequence r)
          ((r.maximum_age_us == 0) || ltb 1000000 r.maximum_age_us) (λ _. refl)
          (λ limited. result-Told r.result r s steady (ground arith)))

deliveries_after :
    (r : Read) (before : ℕ) (answer : Answer) (rest : List (FreshAudioFrame × Read))
    → Told before r answer
    → AllFresh answer.1.delivered_sequence rest
    → AllFresh before (elim answer.0.1 as (λ _. List (FreshAudioFrame × Read)) [
      | none ↦ rest
      | some f ↦ (f, r) ∷ rest
    ])
deliveries_after r before ((result, none), s) rest told fresh =
    subst (λ n. AllFresh n rest) told fresh
deliveries_after r before ((result, some f), s) rest (now, e) fresh =
    (now, subst (λ n. AllFresh n rest) e fresh)

-- Whatever reads are made of a stream, from whatever threads and with whatever the native library
-- gives, while the clock does not go back during a read, its times are below 2^63 nanoseconds and so are
-- the ages that frames have when the reads end, so that none overflows: every frame that comes out is no
-- older than its read allows, which is a second at most, and no younger than the native library said;
-- and every one that does not follow the one delivered before it is marked as a discontinuity.
pub deliveries_fresh :
    (reads : List Read) (s : FreshAudioStream)
    → All IsSteady reads
    → AllFresh s.delivered_sequence (deliveries reads s)
unfolding deliveries
deliveries_fresh [] s h = tt
deliveries_fresh (r ∷ reads) s (steady, h) =
    deliveries_after r s.delivered_sequence (try_read r s) (deliveries reads (try_read r s).1)
      (read-Told r s steady) (deliveries_fresh reads (try_read r s).1 h)
