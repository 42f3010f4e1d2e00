-- ===== src/AudioSource.antt =====
-- `AudioSource` of src/audio_source.cpp: the captures of frames and what it tells of the queue. Seconds
-- are multiples of a unit in which a sample lasts a whole number of units, without the rounding of a
-- `double`; the clock is steady, so that it never goes back.
pub mod Queue
use client_sdk_cpp.Prelude.{
  ℕ, zero, suc, List, [], ◌∷◌, Option, none, some, String, if◌then◌else◌, ◌==◌, ◌+◌, ◌-◌, ◌*◌,
}

pub record AudioSource : Type 0 where
  pub handle : Option ℕ
  pub queue_size_ms : ℕ
  -- How long one sample of a channel lasts: `1 / sample_rate_`.
  pub sample_time : ℕ
  pub last_capture : ℕ
  pub q_size : ℕ

pub data Timeout : Type 0 where
  negative : Timeout
  millis : ℕ → Timeout

pub data Request : Type 0 where
  clear_audio_buffer : ℕ → Request
  -- The flag is `synchronous`.
  capture_synchronous capture_async : ℕ → Request

-- What becomes of a request: it or its future throws, the response lacks its part, it is complete, or
-- the future is not ready by the deadline.
pub data Reply : Type 0 where
  fails : String → Reply
  lacks_part complete late : Reply

pub data Done : Type 0 where
  returned : Done
  invalid_argument runtime_error system_error : String → Done
  -- `fut.get` waits for a future that is never ready.
  waits_forever : Done

abbrev pub Outcome : Type 0
Outcome = Done × List Request × AudioSource

unfoldable pub queued_duration : AudioSource → ℕ → ℕ
queued_duration s now = if s.last_capture == 0 then 0 else s.q_size - (now - s.last_capture)

unfoldable pub reset_queue_tracking : AudioSource → AudioSource
reset_queue_tracking s = record s { last_capture = 0; q_size = 0 }

abbrev pub cleared : ℕ → AudioSource → Reply → Outcome
cleared h s (fails e) = (runtime_error e, clear_audio_buffer h ∷ [], s)
cleared h s _ = (returned, clear_audio_buffer h ∷ [], reset_queue_tracking s)

abbrev pub clear_from : Option ℕ → AudioSource → Reply → Outcome
clear_from none s r = (returned, [], reset_queue_tracking s)
clear_from (some h) s r = cleared h s r

unfoldable pub clear_queue : AudioSource → Reply → Outcome
clear_queue s r = clear_from s.handle s r

-- `q_size_ += frame_duration - elapsed`, and no less than 0.
unfoldable pub track_queue : ℕ → ℕ → AudioSource → AudioSource
track_queue now samples s =
    let elapsed = if s.last_capture == 0 then 0 else now - s.last_capture in
    record s { q_size = (s.q_size + samples * s.sample_time) - elapsed; last_capture = now }

abbrev pub synchronous : Reply → Done
synchronous (fails e) = runtime_error e
synchronous lacks_part =
    runtime_error "AudioSource::captureFrame: FFI response missing capture result"
synchronous _ = returned

-- The future of the request, waited for without a deadline or with one.
abbrev pub awaited : ℕ → Reply → Done
awaited ms (fails e) = runtime_error e
awaited zero late = waits_forever
awaited (suc ms) late = system_error "Audio capture callback deadline exceeded"
awaited ms _ = returned

abbrev pub submit : ℕ → ℕ → AudioSource → Reply → Outcome
submit h ms s r =
    if s.queue_size_ms == 0
    then (synchronous r, capture_synchronous h ∷ [], s)
    else (awaited ms r, capture_async h ∷ [], s)

abbrev pub capture_from : Option ℕ → ℕ → ℕ → ℕ → AudioSource → Reply → Outcome
capture_from none now samples ms s r = (returned, [], s)
capture_from (some h) now samples ms s r =
    if samples == 0 then (returned, [], s) else submit h ms (track_queue now samples s) r

-- The capture of a frame with this many samples per channel.
unfoldable pub capture_frame : ℕ → ℕ → Timeout → AudioSource → Reply → Outcome
capture_frame now samples negative s r =
    (invalid_argument "Audio capture timeout must be non-negative", [], s)
capture_frame now samples (millis ms) s r = capture_from s.handle now samples ms s r
