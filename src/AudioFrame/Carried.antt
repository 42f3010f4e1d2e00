-- ===== src/AudioFrame/Carried.antt =====
-- What the constructor lets through, and a frame on its way to the native library and back.
use client_sdk_cpp.Prelude.{
  ℕ, Bool, true, false, List, [], ◌∷◌, ◌≡◌, ◌≢◌, ◌*◌, ◌%◌, ◌≤◌, ◌<◌, ◌^◌, take, length, length-take,
  sym, arith, ◌==◌,
}
use native.Mathlib.Nat.{mod_self}
use client_sdk_cpp.AudioFrame.{
  AudioFrame, built, is_positive, to_size, sample_count, new_audio_frame, audio_to_proto,
  from_owned_audio,
}
use client_sdk_cpp.VideoFrame.Planes.{mul_bound}

positive_lem : (word : ℕ) → is_positive word ≡ true → (0 < word) × (word < 2 ^ 31)
unfolding is_positive
positive_lem word h = ground arith

wrap_lem : (n : ℕ) → n ≤ 2 ^ 31 * 2 ^ 31 → n % 2 ^ 64 ≡ n
wrap_lem n h = omega arith

-- The count of a frame's samples does not wrap.
count_lem :
    (c s : ℕ)
    → is_positive c ≡ true
    → is_positive s ≡ true
    → (sample_count c s ≡ c * s) × (1 ≤ c * s)
unfolding sample_count to_size
count_lem c s hc hs =
    let (c0, c1) = positive_lem c hc in
    let (s0, s1) = positive_lem s hs in
    let above = mul_bound c (2 ^ 31) s (2 ^ 31) (omega arith) (omega arith) in
    let below = mul_bound 1 c 1 s (omega arith) (omega arith) in
    (grind (arith, wrap_lem (c * s) above), below)

-- What the constructor's success says of its arguments.
built_lem :
    (samples : List ℕ) (rate c s : ℕ) (f : AudioFrame)
    → new_audio_frame samples rate c s ≡ built f
    → (is_positive c ≡ true)
      × ((is_positive s ≡ true)
          × ((sample_count c s ≤ length samples) × (length samples % sample_count c s ≡ 0)))
unfolding new_audio_frame
built_lem samples rate c s f h = ground arith

exact_lem :
    (samples : List ℕ) (rate c s : ℕ)
    → is_positive c ≡ true
    → is_positive s ≡ true
    → length samples ≡ c * s
    → new_audio_frame samples rate c s
      ≡ built (record {
        samples = samples;
        sample_rate = rate;
        num_channels = c;
        samples_per_channel = s;
      })
unfolding new_audio_frame
exact_lem samples rate c s hc hs h =
    let (count, some_samples) = count_lem c s hc hs in
    let whole : length samples % sample_count c s ≡ 0 = rw count (rw h (mod_self (c * s))) in
    ground arith

-- A frame that the constructor makes is sent with its format and its address, and what is made of
-- that on the other side, where the samples are found at the address, is the frame with those samples
-- that its format accounts for: all of them where the constructor got no more. The handle is dropped.
pub from_owned_audio-audio_to_proto :
    (allocates : ℕ → Bool) (samples_at : ℕ → ℕ → List ℕ) (handle address : ℕ) (f : AudioFrame)
    → new_audio_frame f.samples f.sample_rate f.num_channels f.samples_per_channel ≡ built f
    → handle ≢ 0
    → address ≢ 0
    → allocates (f.num_channels * f.samples_per_channel) ≡ true
    → ((n : ℕ) → n ≤ length f.samples → samples_at address n ≡ take n f.samples)
    → from_owned_audio allocates samples_at handle (audio_to_proto address f) ≡ (
      handle ∷ [],
      built (record f { samples = take (f.num_channels * f.samples_per_channel) f.samples }),
    )
unfolding from_owned_audio audio_to_proto
from_owned_audio-audio_to_proto allocates samples_at handle address f hf hh ha room lies =
    let (hc, (hs, (fits, whole))) =
      built_lem f.samples f.sample_rate f.num_channels f.samples_per_channel f hf in
    let (count, positive) = count_lem f.num_channels f.samples_per_channel hc hs in
    let found = lies (f.num_channels * f.samples_per_channel) (rw (sym count) fits) in
    let made =
      exact_lem (take (f.num_channels * f.samples_per_channel) f.samples) f.sample_rate
        f.num_channels f.samples_per_channel hc hs
        (omega
          (arith, length-take (f.num_channels * f.samples_per_channel) f.samples, count, fits)) in
    let empty : (length f.samples == 0) ≡ false = ground arith in
    let zero_handle : (handle == 0) ≡ false = ground arith in
    let zero_address : (address == 0) ≡ false = ground arith in
    let counted : ((f.num_channels * f.samples_per_channel) == 0) ≡ false = ground arith in
    rw empty
      (rw zero_address (rw count (rw counted (rw room (rw found (rw zero_handle (rw made)))))))
