-- ===== src/AudioProcessing/Reports.antt =====
-- No failure of the audio processing is silent.
use client_sdk_cpp.Prelude.{ℕ, Option, none, some, String, ◌≡◌, ◌≢◌, ◌⊎◌, ◌↔◌, refl, arith}
use client_sdk_cpp.Native.{Reply, fails, lacks_part, answers, returns}
use client_sdk_cpp.AudioProcessing.{AudioFrame, outcome, process_stream, process_reverse_stream}

outcome_returns :
    (function : String) (r : Reply (Option String))
    → (outcome function r ≡ returns tt) ↔ (r ≡ answers none)
outcome_returns function (fails e) = ((λ h. absurd (ground arith)), (λ h. absurd (ground arith)))
outcome_returns function lacks_part = ((λ h. absurd (ground arith)), (λ h. absurd (ground arith)))
outcome_returns function (answers none) = ((λ h. refl), (λ h. refl))
outcome_returns function (answers (some e)) =
    ((λ h. absurd (ground arith)), (λ h. absurd (ground arith)))

-- Processing a frame, forwards or in reverse, returns exactly if the module has its handle and either
-- the frame is empty, of which the native library hears nothing, or the native library answers without
-- an error. In every other case it throws.
pub processing_reports :
    (handle : ℕ) (frame : AudioFrame) (r : Reply (Option String))
    → (((process_stream handle frame r).0 ≡ returns tt)
        ↔ ((handle ≢ 0) × ((frame.samples ≡ 0) ⊎ (r ≡ answers none))))
      × (((process_reverse_stream handle frame r).0 ≡ returns tt)
          ↔ ((handle ≢ 0) × ((frame.samples ≡ 0) ⊎ (r ≡ answers none))))
unfolding process_stream process_reverse_stream
processing_reports handle frame r =
    let a = outcome_returns "AudioProcessingModule::processStream" r in
    let b = outcome_returns "AudioProcessingModule::processReverseStream" r in
    (((λ h. ground arith), (λ h. ground arith)), ((λ h. ground arith), (λ h. ground arith)))
