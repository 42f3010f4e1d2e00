-- ===== src/DataTrack/Ends/Carried.antt =====
-- What a push sends.
use client_sdk_cpp.Prelude.{
  if_rule, inl, inr, ap, subst, false, ℕ, List, [], ◌∷◌, Option, none, some, ◌≡◌, ◌≢◌, ◌⊎◌, ◌↔◌,
  refl, arith, length, ◌==◌,
}
use client_sdk_cpp.DataTrack.Ends.{
  DataTrackFrame, ProtoFrame, from_owned_info, Request, try_push_request, PushReply, throws,
  answers, PushResult, push_result, bytes, push_buffer, try_push_buffer, try_push,
}

success_answers : (r : PushReply) → push_result r ≡ PushResult.success → r ≡ answers none
success_answers (throws what) h = absurd (ground arith)
success_answers (answers none) h = refl
success_answers (answers (some (code, message))) h = absurd (ground arith)

-- What a push says and sends, of a frame with this payload and timestamp.
Carries : ℕ → DataTrackFrame → PushReply → PushResult × List Request → Type 0
Carries handle frame r (result, sent) =
    ((frame.payload ≡ []) × (sent ≡ []) × (result ≡ PushResult.success))
    ⊎ ((m : ProtoFrame) × (frame.payload ≢ [])
        × (sent ≡ try_push_request handle m ∷ [])
        × (from_owned_info m ≡ frame)
        × ((result ≡ PushResult.success) ↔ (r ≡ answers none)))

push-Carries :
    (handle : ℕ) (payload : List ℕ) (timestamp : Option ℕ) (r : PushReply)
    → Carries handle
        (record { payload = payload; user_timestamp = timestamp })
        r
        (push_buffer handle (bytes payload) timestamp r)
unfolding Carries from_owned_info
push-Carries handle [] timestamp r = inl (refl, refl, refl)
push-Carries handle (b ∷ payload) timestamp r =
    let frame : DataTrackFrame = record { payload = b ∷ payload; user_timestamp = timestamp } in
    if_rule (Carries handle frame r) (length (b ∷ payload) == 0) (λ t. absurd (ground arith))
      (λ _. inr (
        record { payload = b ∷ payload; user_timestamp = timestamp },
        (λ e. cc),
        refl,
        refl,
        (success_answers r, λ e. ap push_result e),
      ))

not_zero : (n : ℕ) → n ≢ 0 → (n == 0) ≡ false
not_zero n h = ground arith

pushed :
    (handle : ℕ) (frame : DataTrackFrame) (r : PushReply)
    → handle ≢ 0
    → push_buffer handle (bytes frame.payload) frame.user_timestamp r ≡ try_push handle frame r
unfolding try_push try_push_buffer
pushed handle frame r h = rw (not_zero handle h) refl

-- A push over a valid handle asks the native library once if the frame has a payload, with a message
-- from which the receiving end reads the same frame, and succeeds exactly if the answer has no error.
-- A frame without a payload succeeds without a request.
pub try_push_carries :
    (handle : ℕ) (frame : DataTrackFrame) (r : PushReply)
    → handle ≢ 0
    → let (result, sent) = try_push handle frame r in
      ((frame.payload ≡ []) × (sent ≡ []) × (result ≡ PushResult.success))
      ⊎ ((m : ProtoFrame) × (frame.payload ≢ [])
          × (sent ≡ try_push_request handle m ∷ [])
          × (from_owned_info m ≡ frame)
          × ((result ≡ PushResult.success) ↔ (r ≡ answers none)))
unfolding Carries
try_push_carries handle frame r h =
    subst (Carries handle frame r) (pushed handle frame r h)
      (push-Carries handle frame.payload frame.user_timestamp r)
