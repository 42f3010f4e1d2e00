-- ===== src/DataTrackStream/Ending.antt =====
-- How a data track stream ends: the terminal error, the close and the reader that waits.
use client_sdk_cpp.Prelude.{
  true, false, List, [], ◌∷◌, Option, none, some, ◌≡◌, ◌≢◌, refl, arith, ◌⊎◌, ◌∙◌,
}
use client_sdk_cpp.DataTrackStream.{
  Error, notifies_all, DataTrackStream, FfiEvent, stream_event, other_event, frame_received, eos,
  not_set, ReadResponse, throws, missing, accepted, waiting, delivered, ended, push_frame, push_eos,
  close, fail_protocol_error, handle_read_response, read_request, read_take, on_payload,
  on_ffi_event, take_frame, missing_read_response,
}

-- Every call that changes the stream, from any thread.
pub data Call {ℓ} (A : Type ℓ) : Type ℓ where
  event : FfiEvent A → Call A
  requests : ReadResponse → Call A
  takes closes : Call A

module _ {ℓ} {A : Type ℓ} where
  unfoldable pub step : DataTrackStream A → Call A → DataTrackStream A
  step s (event e) = (on_ffi_event e s).0
  step s (requests response) = (read_request response s).1
  step s takes = (read_take s).1
  step s closes = (close s).0

  unfoldable pub run : DataTrackStream A → List (Call A) → DataTrackStream A
  run s [] = s
  run s (c ∷ calls) = run (step s c) calls

  take-fields :
      (o : Option A) (s : DataTrackStream A)
      → let s' = (take_frame o s).1 in
        (s'.eof ≡ s.eof) × (s'.closed ≡ s.closed) × (s'.terminal_error ≡ s.terminal_error)
  unfolding take_frame
  take-fields none s = (refl, refl, refl)
  take-fields (some f) s = ground arith

  -- The stream has ended or is closed: its outcome is fixed.
  abbrev pub IsOver : DataTrackStream A → Type 0
  IsOver s = (s.eof ≡ true) ⊎ ((s.closed ≡ true) × (s.terminal_error ≡ none))

  step-IsOver :
      (s : DataTrackStream A) (c : Call A)
      → IsOver s
      → IsOver (step s c) × ((step s c).terminal_error ≡ s.terminal_error)
  unfolding step read_request read_take close on_ffi_event on_payload push_frame push_eos
      fail_protocol_error handle_read_response
  step-IsOver s (event other_event) v = (v, refl)
  step-IsOver s (event (stream_event h (frame_received f))) v = ground arith
  step-IsOver s (event (stream_event h (eos e))) v = ground arith
  step-IsOver s (event (stream_event h not_set)) v = ground arith
  step-IsOver s (requests throws) v = ground arith
  step-IsOver s (requests missing) v = ground arith
  step-IsOver s (requests (accepted none)) v = ground arith
  step-IsOver s (requests (accepted (some e))) v = ground arith
  step-IsOver s takes v = ground (arith, take-fields s.frame s)
  step-IsOver s closes v = ground arith

  -- Once the stream has ended, with or without an error, or was closed before that, no later call or
  -- event changes the terminal error that the user reads.
  run-terminal_error :
      (s : DataTrackStream A) (calls : List (Call A))
      → IsOver s
      → (run s calls).terminal_error ≡ s.terminal_error
  unfolding run
  run-terminal_error s [] v = refl
  run-terminal_error s (c ∷ calls) v =
      let (v', e) = step-IsOver s c v in run-terminal_error (step s c) calls v' ∙ e

  -- What ends a running stream: the error that an EOS reports, from an event or in the response to a
  -- read; a response without its read part, as a protocol error, which also closes the stream; and a
  -- local close, without an error.
  endings :
      (s : DataTrackStream A) (error : Option Error)
      → s.eof ≡ false
      → s.closed ≡ false
      → s.terminal_error ≡ none
      → let ended_by =
          λ (e : Option Error) (t : DataTrackStream A). IsOver t × (t.terminal_error ≡ e) in
        ended_by error (on_ffi_event (stream_event s.subscription_handle (eos error)) s).0
        × ended_by error (read_request (accepted (some error)) s).1
        × (ended_by (some missing_read_response) (read_request missing s).1
            × ((read_request missing s).1.closed ≡ true))
        × ended_by none (close s).0
  unfolding read_request close on_ffi_event on_payload push_eos fail_protocol_error
      handle_read_response
  endings s error n c t = ground arith

  take_cases :
      (o : Option A) (s : DataTrackStream A)
      → (s.closed ≡ true → (take_frame o s).0 ≡ ended)
        × (s.eof ≡ true → (take_frame o s).0 ≢ waiting)
        × ((f : A) → o ≡ some f → s.closed ≡ false → (take_frame o s).0 ≡ delivered f)
  unfolding take_frame
  take_cases none s = (λ c. ground arith, λ e. ground arith, λ f e c. ground arith)
  take_cases (some x) s = (λ c. ground arith, λ e. ground arith, λ f e c. ground arith)

  pushed :
      (s : DataTrackStream A) (f : A)
      → s.eof ≡ false
      → s.closed ≡ false
      → ((push_frame f s).0.frame ≡ some f) × ((push_frame f s).0.closed ≡ false)
  unfolding push_frame
  pushed s f n c = ground arith

  ended_fields :
      (s : DataTrackStream A) (error : Option Error)
      → s.eof ≡ false
      → s.closed ≡ false
      → ((push_eos error s).0.eof ≡ true) × ((push_eos error s).1 ≡ notifies_all ∷ [])
  unfolding push_eos
  ended_fields s error n c = ground arith

  closed_field : (s : DataTrackStream A) → (close s).0.closed ≡ true
  unfolding close
  closed_field s = ground arith

  -- A reader is woken by each way out: a frame, an end and a close notify it, and after any of them
  -- the wait is over.
  wakes :
      (s : DataTrackStream A) (f : A) (error : Option Error)
      → s.eof ≡ false
      → s.closed ≡ false
      → ((read_take (push_frame f s).0).0 ≡ delivered f)
        × ((read_take (push_eos error s).0).0 ≢ waiting)
        × ((read_take (close s).0).0 ≡ ended)
        × ((push_eos error s).1 ≡ notifies_all ∷ [])
  unfolding read_take
  wakes s f error n c =
      let p = pushed s f n c in
      let e = ended_fields s error n c in
      (
        (take_cases (push_frame f s).0.frame (push_frame f s).0).2 f p.0 p.1,
        (take_cases (push_eos error s).0.frame (push_eos error s).0).1 e.0,
        (take_cases (close s).0.frame (close s).0).0 (closed_field s),
        e.1,
      )
