-- ===== src/DataTrackStream/Demand.antt =====
-- The demand-driven protocol between `read` and the native library: one reader asks for a frame, and
-- the native library sends one frame at most for each request. It decides whether the single frame slot is
-- overwritten. (Comments in `DataTrackStream::read` and `pushFrame` rely on this.) That no two
-- calls of `read` overlap is assumed here: neither the code nor its documentation forbids it.
use client_sdk_cpp.Prelude.{
  ℕ, suc, Bool, true, false, List, [], ◌∷◌, Option, none, some, if◌then◌else◌, ◌≡◌, ◌≢◌, ◌⊎◌, ◌+◌,
}
use client_sdk_cpp.DataTrackStream.{
  Error, Effect, asserts, notifies_one, notifies_all, drops_handle, removes_listener,
  DataTrackStream, FfiEvent, stream_event, frame_received, eos, ReadResponse, Request, pending,
  Taken, waiting, close, read_request, read_take, on_ffi_event,
}

-- Whether an assert failed.
abbrev pub asserted : List Effect → Bool
asserted [] = false
asserted (asserts ∷ fx) = true
asserted (drops_handle h ∷ fx) = asserted fx
asserted (removes_listener l ∷ fx) = asserted fx
asserted (notifies_one ∷ fx) = asserted fx
asserted (notifies_all ∷ fx) = asserted fx

-- Whether the reader stands between its request and its wait's end, and how many frames the native
-- library still owes.
pub record Session {ℓ} (A : Type ℓ) : Type ℓ where
  pub stream : DataTrackStream A
  pub reading : Bool
  pub demand : ℕ

abbrev is_pending : Request → Bool
is_pending pending = true
is_pending _ = false

abbrev is_waiting {ℓ} : {A : Type ℓ} → Taken A → Bool
is_waiting waiting = true
is_waiting _ = false

module _ {ℓ} {A : Type ℓ} where
  abbrev pub requested : ReadResponse → Session A → Session A
  requested response t =
      let (out, s, fx) = read_request response t.stream in
      record t {
        stream = s;
        reading = is_pending out;
        demand = if is_pending out then t.demand + 1 else t.demand;
      }

  abbrev pub taken : Session A → Session A
  taken t = let (out, s) = read_take t.stream in record t { stream = s; reading = is_waiting out }

  abbrev pub received : FfiEvent A → Session A → Session A
  received e t = record t { stream = (on_ffi_event e t.stream).0 }

-- The steps of the reader, of another thread that closes, and of the native library. It sends a
-- frame of this stream only against a request, and frames of other streams and the end at any time.
pub data Step {ℓ} {A : Type ℓ} : Session A → Session A → Type ℓ where
  request :
      (t : Session A) (response : ReadResponse) → t.reading ≡ false → Step t (requested response t)
  takes : (t : Session A) → t.reading ≡ true → Step t (taken t)
  closes : (t : Session A) → Step t (record t { stream = (close t.stream).0 })
  sends :
      (t : Session A) (f : A) (n : ℕ)
      → t.demand ≡ suc n
      → Step t (record (received (stream_event t.stream.subscription_handle (frame_received f)) t) {
        demand = n;
      })
  sends_other :
      (t : Session A) (handle : ℕ) (f : A)
      → handle ≢ t.stream.subscription_handle
      → Step t (received (stream_event handle (frame_received f)) t)
  ends :
      (t : Session A) (handle : ℕ) (error : Option Error)
      → Step t (received (stream_event handle (eos error)) t)

pub data Reach {ℓ} {A : Type ℓ} (s : Session A) : Session A → Type ℓ where
  here : Reach s s
  next : {t u : Session A} → Reach s t → Step t u → Reach s u

abbrev occupied {ℓ} : {A : Type ℓ} → Option A → ℕ
occupied none = 0
occupied (some f) = 1

module _ {ℓ} {A : Type ℓ} where
  -- While the stream runs, an outstanding frame or one in the slot belongs to the reader's request.
  abbrev pub IsDemanded : Session A → Type 0
  IsDemanded t =
      (t.stream.closed ≡ true)
      ⊎ ((t.stream.eof ≡ true)
          ⊎ (t.demand + occupied t.stream.frame ≡ (if t.reading then 1 else 0)))
