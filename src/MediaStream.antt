-- ===== src/MediaStream.antt =====
-- `VideoStream` and `AudioStream` of src/video_stream.cpp and src/audio_stream.cpp. The two classes
-- run the same code over different frames, so the frame type is a parameter; only the request that
-- creates the native stream differs (`from_track` here is the video one).
-- `read`, `push_frame` and `push_eos` hold the mutex for their whole body. A wait on the condition
-- variable that does not end at once is the outcome `waiting`. Calls out of the object are listed
-- as effects, in order.
pub mod Ring
pub mod Release
use client_sdk_cpp.Prelude.{
  ℕ, zero, suc, Bool, true, false, ◌&&◌, ◌||◌, List, [], ◌∷◌, ◌++◌, Option, none, some,
  if◌then◌else◌, ltb, leb, ◌==◌, not, length,
}

-- `FfiClient::addListener`, `removeListener`, the disposal of an FFI handle, and the wake-ups.
pub data Effect : Type 0 where
  adds_listener removes_listener drops_handle : ℕ → Effect
  notifies_one notifies_all : Effect

-- The oldest frame stands first in the queue. A handle or a listener id 0 stands for none.
pub record MediaStream {ℓ} (A : Type ℓ) : Type ℓ where
  pub queue : List A
  pub capacity : ℕ
  pub eof : Bool
  pub closed : Bool
  pub stream_handle : ℕ
  pub listener_id : ℕ

-- The part of an `FfiEvent` that the handler looks at.
pub data Payload {ℓ} (A : Type ℓ) : Type ℓ where
  frame_received : A → Payload A
  eos : Payload A
  not_set : Payload A

pub data FfiEvent {ℓ} (A : Type ℓ) : Type ℓ where
  stream_event : ℕ → Payload A → FfiEvent A
  other_event : FfiEvent A

pub data Read {ℓ} (A : Type ℓ) : Type ℓ where
  waiting : Read A
  delivered : A → Read A
  ended : Read A

-- What the native library's thread and the user call.
pub data Call {ℓ} (A : Type ℓ) : Type ℓ where
  event : FfiEvent A → Call A
  reads : Call A
  closes : Call A

module _ {ℓ} {A : Type ℓ} where
  abbrev pub pop_front : List A → List A
  pop_front [] = []
  pop_front (x ∷ xs) = xs

  -- `queue_.front()` is read only where the queue is not empty.
  unfoldable pub read_front : List A → MediaStream A → Read A × MediaStream A
  read_front [] s = (if s.eof || s.closed then ended else waiting, s)
  read_front (x ∷ xs) s = if s.closed then (ended, s) else (delivered x, record s { queue = xs })

  unfoldable pub read : MediaStream A → Read A × MediaStream A
  unfolding read_front
  read s = read_front s.queue s

  unfoldable pub push_frame : A → MediaStream A → MediaStream A × List Effect
  push_frame ev s = if s.closed || s.eof then (s, []) else (
    record s {
      queue =
          (if ltb 0 s.capacity && leb s.capacity (length s.queue)
            then pop_front s.queue
            else s.queue)
          ++ ev ∷ [];
    },
    notifies_one ∷ [],
  )

  unfoldable pub push_eos : MediaStream A → MediaStream A × List Effect
  push_eos s = if s.eof then (s, []) else (record s { eof = true }, notifies_all ∷ [])

  unfoldable pub close : MediaStream A → MediaStream A × List Effect
  close s = if s.closed then (s, []) else (
    record s { closed = true; stream_handle = 0; listener_id = 0 },
    (if s.stream_handle == 0 then [] else drops_handle s.stream_handle ∷ [])
        ++ ((if s.listener_id == 0 then [] else removes_listener s.listener_id ∷ [])
            ++ notifies_all ∷ []),
  )

  unfoldable pub on_ffi_event : FfiEvent A → MediaStream A → MediaStream A × List Effect
  on_ffi_event other_event s = (s, [])
  on_ffi_event (stream_event handle (frame_received ev)) s =
      if handle == s.stream_handle then push_frame ev s else (s, [])
  on_ffi_event (stream_event handle eos) s =
      if handle == s.stream_handle then push_eos s else (s, [])
  on_ffi_event (stream_event handle not_set) s = (s, [])

  fresh : ℕ → MediaStream A
  fresh capacity = record {
    queue = [];
    capacity = capacity;
    eof = false;
    closed = false;
    stream_handle = 0;
    listener_id = 0;
  }

  -- `fromTrack`: a listener is added, then the native stream is requested. `listener` is the id
  -- that `addListener` returns, `none` if it throws. `response` is what `sendRequest` returns: none
  -- if it throws, otherwise the handle of the stream, if the response has one. A throw destroys the
  -- stream, and its destructor closes it.
  unfoldable pub from_track :
      ℕ → Option ℕ → Option (Option ℕ) → Option (MediaStream A) × List Effect
  unfolding fresh
  from_track capacity none response = (none, (close (fresh capacity)).1)
  from_track capacity (some id) (some (some handle)) = (
    some (record (fresh capacity) { listener_id = id; stream_handle = handle }),
    adds_listener id ∷ [],
  )
  from_track capacity (some id) _ =
      (none, adds_listener id ∷ (close (record (fresh capacity) { listener_id = id })).1)

  -- The move constructor: the stream that is made, and what is left of the other.
  unfoldable pub move : MediaStream A → MediaStream A × MediaStream A
  move s = (s, record s { queue = []; stream_handle = 0; listener_id = 0; closed = true })

  abbrev pub handed : Read A → List A
  handed (delivered x) = x ∷ []
  handed _ = []

  unfoldable pub step : MediaStream A → Call A → List A × MediaStream A × List Effect
  step s (event e) = let (s', fx) = on_ffi_event e s in ([], s', fx)
  step s reads = let (out, s') = read s in (handed out, s', [])
  step s closes = let (s', fx) = close s in ([], s', fx)

  -- The frames that are handed out, the stream that is left and the effects, over a sequence.
  unfoldable pub run : MediaStream A → List (Call A) → List A × MediaStream A × List Effect
  run s [] = ([], s, [])
  run s (c ∷ calls) =
      let (out, s', fx) = step s c in
      let (out', s'', fx') = run s' calls in (out ++ out', s'', fx ++ fx')
