-- ===== src/RemotePublication/Settings.antt =====
-- A setting of a remote track is asked for once, and kept only if the native library took it.
use client_sdk_cpp.Prelude.{ℕ, Bool, [], ◌∷◌, ◌≡◌, ◌≢◌, arith, ◌⊎◌}
use client_sdk_cpp.RemotePublication.{
  VideoQuality, by_quality, by_dimensions, RemoteTrackPublication, Request, enable_request,
  quality_request, dimensions_request, Reply, no, yes, Outcome, set_enabled, set_video_quality,
  set_video_dimensions,
}

pub data Setting : Type 0 where
  enables : Bool → Setting
  prefers : VideoQuality → Setting
  scales : ℕ → ℕ → Setting

abbrev pub apply : Setting → Reply → RemoteTrackPublication → Outcome
apply (enables enabled) reply p = set_enabled enabled reply p
apply (prefers quality) reply p = set_video_quality quality reply p
apply (scales width height) reply p = set_video_dimensions width height reply p

abbrev pub request_for : Setting → RemoteTrackPublication → Request
request_for (enables enabled) p = enable_request p.handle enabled
request_for (prefers quality) p = quality_request p.handle quality
request_for (scales width height) p = dimensions_request p.handle width height

-- The publication has the setting.
abbrev pub Has : Setting → RemoteTrackPublication → Type 0
Has (enables enabled) p = p.enabled ≡ enabled
Has (prefers quality) p = (p.video_preference ≡ by_quality) × (p.video_quality ≡ quality)
Has (scales width height) p =
    (p.video_preference ≡ by_dimensions)
    × (p.requested_width ≡ width)
    × (p.requested_height ≡ height)

-- A setting that the setter says yes to was asked of the native library in one request, and the
-- publication has it: to the same setting it then says no, without a request. Otherwise, whatever
-- the setter says or throws, the publication is unchanged.
settings_once :
    (setting : Setting) (reply again : Reply) (p : RemoteTrackPublication)
    → let (done, requests, p') = apply setting reply p in
      ((done ≡ yes)
        × (requests ≡ request_for setting p ∷ [])
        × Has setting p'
        × (apply setting again p' ≡ (no, [], p')))
      ⊎ ((done ≢ yes) × (p' ≡ p))
unfolding set_enabled set_video_quality set_video_dimensions
settings_once (enables enabled) reply again p = ground arith
settings_once (prefers quality) reply again p = ground arith
settings_once (scales width height) reply again p = ground arith
