-- ===== src/AudioFrame.antt =====
-- Audio frames (src/audio_frame.cpp). An `int` is its 32-bit word, and so is a sample its 16-bit word.
-- The duration, a `double`, is an exact fraction.
pub mod Carried
use client_sdk_cpp.Prelude.{
  ℕ, zero, suc, Bool, List, [], ◌∷◌, if◌then◌else◌, ◌||◌, ◌&&◌, not, ltb, ◌==◌, ◌+◌, ◌*◌, ◌-◌, ◌%◌,
  ◌^◌, length,
}

pub record AudioFrame : Type 0 where
  pub samples : List ℕ
  pub sample_rate : ℕ
  pub num_channels : ℕ
  pub samples_per_channel : ℕ

-- What a constructor comes to: one of its exceptions, or the frame.
pub data Built : Type 0 where
  not_positive too_few_samples not_a_multiple null_data out_of_memory : Built
  built : AudioFrame → Built

unfoldable pub is_positive : ℕ → Bool
is_positive word = ltb 0 word && ltb word (2 ^ 31)

-- `static_cast<std::size_t>` of an `int`, which extends its sign.
unfoldable pub to_size : ℕ → ℕ
to_size word = if ltb word (2 ^ 31) then word else word + (2 ^ 64 - 2 ^ 32)

unfoldable pub sample_count : ℕ → ℕ → ℕ
sample_count num_channels samples_per_channel =
    (to_size num_channels * to_size samples_per_channel) % 2 ^ 64

unfoldable pub new_audio_frame : List ℕ → ℕ → ℕ → ℕ → Built
new_audio_frame samples sample_rate num_channels samples_per_channel =
    let expected = sample_count num_channels samples_per_channel in
    if not (is_positive num_channels) || not (is_positive samples_per_channel)
    then not_positive
    else (if ltb (length samples) expected
        then too_few_samples
        else (if not (length samples % expected == 0)
            then not_a_multiple
            else built (record {
              samples = samples;
              sample_rate = sample_rate;
              num_channels = num_channels;
              samples_per_channel = samples_per_channel;
            })))

abbrev pub silence : ℕ → List ℕ
silence zero = []
silence (suc n) = 0 ∷ silence n

-- `allocates n`: whether a vector of `n` samples can be had.
unfoldable pub create_audio_frame : (ℕ → Bool) → ℕ → ℕ → ℕ → Built
create_audio_frame allocates sample_rate num_channels samples_per_channel =
    let count = sample_count num_channels samples_per_channel in
    if allocates count
    then new_audio_frame (silence count) sample_rate num_channels samples_per_channel
    else out_of_memory

-- `proto::AudioFrameBufferInfo`
pub record BufferInfo : Type 0 where
  pub data_ptr : ℕ
  pub sample_rate : ℕ
  pub num_channels : ℕ
  pub samples_per_channel : ℕ

-- `samples_at address n`: the `n` samples at an address. The handles that are dropped come with the
-- result.
unfoldable pub from_owned_audio : (ℕ → Bool) → (ℕ → ℕ → List ℕ) → ℕ → BufferInfo → List ℕ × Built
from_owned_audio allocates samples_at handle info =
    let count = sample_count info.num_channels info.samples_per_channel in
    let samples = if count == 0 then [] else samples_at info.data_ptr count in
    if (info.data_ptr == 0) && ltb 0 count
    then ([], null_data)
    else (if not (allocates count) then ([], out_of_memory) else (
      if handle == 0 then [] else handle ∷ [],
      new_audio_frame samples info.sample_rate info.num_channels info.samples_per_channel,
    ))

-- `toProto` of a frame whose samples lie at the address.
unfoldable pub audio_to_proto : ℕ → AudioFrame → BufferInfo
audio_to_proto address frame = record {
  data_ptr = if length frame.samples == 0 then 0 else address;
  sample_rate = frame.sample_rate;
  num_channels = frame.num_channels;
  samples_per_channel = frame.samples_per_channel;
}

-- Seconds, as a fraction.
unfoldable pub duration : AudioFrame → ℕ × ℕ
duration frame =
    if is_positive frame.sample_rate then (frame.samples_per_channel, frame.sample_rate) else (0, 1)
