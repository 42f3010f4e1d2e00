-- ===== src/FreshAudioStream.antt =====
-- `FreshAudioStream` of src/fresh_audio_stream.cpp: reads of decoded audio that is not too old. The
-- native library's answer and the clock, in nanoseconds, are arguments of a read; samples are left
-- out. The source's times are signed 64-bit nanoseconds; where they overflow, which C++ leaves
-- undefined, they wrap around here.
pub mod Fresh
use client_sdk_cpp.Prelude.{
  ℕ, ◌+◌, ◌-◌, ◌*◌, ◌/◌, ◌%◌, ◌^◌, Bool, true, false, ◌||◌, not, List, [], ◌∷◌, Option, none, some,
  if◌then◌else◌, ◌==◌, ltb,
}

pub record FreshAudioFrame : Type 0 where
  pub sequence : ℕ
  pub age_us : ℕ
  pub discontinuity : Bool

pub record FreshAudioStreamStats : Type 0 where
  pub received : ℕ
  pub dropped : ℕ
  pub stale : ℕ
  pub invalid : ℕ
  pub queued : ℕ

pub data FreshAudioReadResult : Type 0 where
  frame empty invalid_input wrong_thread : FreshAudioReadResult

-- `NativeFreshAudioInfo`
pub record NativeFreshAudioInfo : Type 0 where
  pub sequence : ℕ
  pub age_us : ℕ
  pub received : ℕ
  pub dropped : ℕ
  pub stale : ℕ
  pub invalid : ℕ
  pub queued : ℕ
  pub discontinuity : ℕ

-- The sign of the native call's result.
pub data NativeResult : Type 0 where
  negative zero_frames one_frame : NativeResult

pub record FreshAudioStream : Type 0 where
  pub owner : ℕ
  pub stats : FreshAudioStreamStats
  pub bridge_stale : ℕ
  pub delivered_sequence : ℕ

abbrev pub new_stream : ℕ → FreshAudioStream
new_stream thread = record {
  owner = thread;
  stats = record { received = 0; dropped = 0; stale = 0; invalid = 0; queued = 0 };
  bridge_stale = 0;
  delivered_sequence = 0;
}

-- What a read meets: its thread, the limit, the native call's result, and the time before the call and
-- after it.
pub record Read : Type 0 where
  pub thread : ℕ
  pub maximum_age_us : ℕ
  pub result : NativeResult
  pub info : NativeFreshAudioInfo
  pub started : ℕ
  pub finished : ℕ

abbrev pub stats_of : NativeFreshAudioInfo → ℕ → FreshAudioStreamStats
stats_of info bridge_stale = record {
  received = info.received;
  dropped = info.dropped;
  stale = (info.stale + bridge_stale) % 2 ^ 64;
  invalid = info.invalid;
  queued = info.queued;
}

-- A difference of 64-bit numbers.
abbrev pub difference : ℕ → ℕ → ℕ
difference x y = (x + (2 ^ 64 - y)) % 2 ^ 64

-- Signed nanoseconds, cut to microseconds towards 0, as a `std::uint64_t`.
abbrev pub microseconds : ℕ → ℕ
microseconds ns = if ltb ns (2 ^ 63) then ns / 1000 else (2 ^ 64 - (2 ^ 64 - ns) / 1000) % 2 ^ 64

abbrev pub decoded_at : Read → ℕ
decoded_at r = difference r.started (r.info.age_us * 1000 % 2 ^ 64)

-- The frame's age at the end of the read.
abbrev pub bridged_age : Read → ℕ
bridged_age r = microseconds (difference r.finished (decoded_at r))

-- A read after the native call gave a frame.
unfoldable pub deliver :
    Read → FreshAudioStream → (FreshAudioReadResult × Option FreshAudioFrame) × FreshAudioStream
deliver r s =
    if ltb (2 ^ 63 - 1) r.info.age_us
    then ((invalid_input, none), s)
    else (if ltb r.maximum_age_us (bridged_age r)
        then (
          (empty, none),
          record s {
            bridge_stale = (s.bridge_stale + 1) % 2 ^ 64;
            stats = record s.stats { stale = (s.stats.stale + 1) % 2 ^ 64 };
          },
        )
        else (
          (
            frame,
            some (record {
              sequence = r.info.sequence;
              age_us = bridged_age r;
              discontinuity =
                  not (r.info.discontinuity == 0)
                  || not (r.info.sequence == (s.delivered_sequence + 1) % 2 ^ 64);
            }),
          ),
          record s { delivered_sequence = r.info.sequence },
        ))

-- `tryRead`: the result, the frame that it puts out, and the stream.
unfoldable pub try_read :
    Read → FreshAudioStream → (FreshAudioReadResult × Option FreshAudioFrame) × FreshAudioStream
try_read r s =
    if not (r.thread == s.owner)
    then ((wrong_thread, none), s)
    else (if (r.maximum_age_us == 0) || ltb 1000000 r.maximum_age_us
        then ((invalid_input, none), s)
        else (elim r.result [
          | negative ↦ ((invalid_input, none), s)
          | zero_frames ↦ ((empty, none), record s { stats = stats_of r.info s.bridge_stale })
          | one_frame ↦ deliver r (record s { stats = stats_of r.info s.bridge_stale })
        ]))

-- The frames that the reads put out, each with its read.
unfoldable pub deliveries : List Read → FreshAudioStream → List (FreshAudioFrame × Read)
deliveries [] s = []
deliveries (r ∷ reads) s =
    let ((result, output), s') = try_read r s in
    let rest = deliveries reads s' in elim output [ none ↦ rest | some f ↦ (f, r) ∷ rest ]
