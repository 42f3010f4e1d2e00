-- ===== src/RemotePublication.antt =====
-- `RemoteTrackPublication` of src/remote_track_publication.cpp: what the user asks of a track that
-- another participant publishes.
pub mod Settings
use client_sdk_cpp.Prelude.{
  ℕ, Bool, true, false, ◌&&◌, ◌||◌, not, List, [], ◌∷◌, Option, none, some, String, if◌then◌else◌,
  ◌==◌,
}
use client_sdk_cpp.Dispatcher.{TrackKind, kind_unknown, kind_audio, kind_video, kind_unsupported}

-- The last one stands for a number that is no enumerator.
pub data VideoQuality : Type 0 where
  low medium high invalid : VideoQuality

pub data VideoPreference : Type 0 where
  by_default by_quality by_dimensions : VideoPreference

pub record RemoteTrackPublication : Type 0 where
  pub handle : ℕ
  pub kind : TrackKind
  pub simulcasted : Bool
  pub has_track : Bool
  pub subscribed : Bool
  pub enabled : Bool
  pub video_preference : VideoPreference
  pub video_quality : VideoQuality
  pub requested_width : ℕ
  pub requested_height : ℕ

-- The requests to the native library, with the publication's handle.
pub data Request : Type 0 where
  set_subscribed_request : ℕ → Bool → Request
  enable_request : ℕ → Bool → Request
  quality_request : ℕ → VideoQuality → Request
  dimensions_request : ℕ → ℕ → ℕ → Request

-- What becomes of a request: `sendRequest` throws, the response lacks its part, or it has it.
pub data Reply : Type 0 where
  fails : String → Reply
  lacks_part : Reply
  complete : Reply

pub data Done : Type 0 where
  no yes : Done
  throws : String → Done

abbrev pub Outcome : Type 0
Outcome = Done × List Request × RemoteTrackPublication

abbrev pub is_video : TrackKind → Bool
is_video kind_video = true
is_video _ = false

abbrev pub same_quality : VideoQuality → VideoQuality → Bool
same_quality low low = true
same_quality medium medium = true
same_quality high high = true
same_quality invalid invalid = true
same_quality _ _ = false

abbrev pub is_valid : VideoQuality → Bool
is_valid invalid = false
is_valid _ = true

abbrev pub same_bool : Bool → Bool → Bool
same_bool true b = b
same_bool false b = not b

abbrev pub prefers_quality : VideoPreference → Bool
prefers_quality by_quality = true
prefers_quality _ = false

abbrev pub prefers_dimensions : VideoPreference → Bool
prefers_dimensions by_dimensions = true
prefers_dimensions _ = false

-- `setSubscribed`, whose response is not looked at.
unfoldable pub set_subscribed : Bool → Reply → RemoteTrackPublication → Outcome
set_subscribed subscribed reply p =
    if p.handle == 0
    then (throws "RemoteTrackPublication::setSubscribed: invalid FFI handle", [], p)
    else (elim reply [
      | fails text ↦ (throws text, set_subscribed_request p.handle subscribed ∷ [], p)
      | lacks_part ↦ (
        yes,
        set_subscribed_request p.handle subscribed ∷ [],
        record p { subscribed = subscribed },
      )
      | complete ↦ (
        yes,
        set_subscribed_request p.handle subscribed ∷ [],
        record p { subscribed = subscribed },
      )
    ])

-- The end of the three setters below: the request, and the change if it is answered.
abbrev pub request :
    String → String → Request → RemoteTrackPublication → Reply → RemoteTrackPublication → Outcome
request no_handle missing r changed reply p =
    if p.handle == 0 then (throws no_handle, [], p) else (elim reply [
      | fails text ↦ (throws text, r ∷ [], p)
      | lacks_part ↦ (throws missing, r ∷ [], p)
      | complete ↦ (yes, r ∷ [], changed)
    ])

abbrev pub ignored : RemoteTrackPublication → Outcome
ignored p = (no, [], p)

unfoldable pub set_enabled : Bool → Reply → RemoteTrackPublication → Outcome
set_enabled enabled reply p =
    if not p.subscribed || not p.has_track
    then ignored p
    else (if same_bool p.enabled enabled
        then ignored p
        else request "RemoteTrackPublication::setEnabled: invalid FFI handle"
            "RemoteTrackPublication::setEnabled: FFI response missing enabled update result"
            (enable_request p.handle enabled) (record p { enabled = enabled }) reply p)

unfoldable pub set_video_quality : VideoQuality → Reply → RemoteTrackPublication → Outcome
set_video_quality quality reply p =
    if not (is_video p.kind) || not p.simulcasted || (not p.subscribed || not p.has_track)
    then ignored p
    else (if prefers_quality p.video_preference && same_quality p.video_quality quality
        then ignored p
        else (if not (is_valid quality)
            then ignored p
            else request "RemoteTrackPublication::setVideoQuality: invalid FFI handle"
                "RemoteTrackPublication::setVideoQuality: FFI response missing quality update result"
                (quality_request p.handle quality)
                (record p { video_preference = by_quality; video_quality = quality }) reply p))

unfoldable pub set_video_dimensions : ℕ → ℕ → Reply → RemoteTrackPublication → Outcome
set_video_dimensions width height reply p =
    if not (is_video p.kind) || (width == 0 || height == 0) || (not p.subscribed || not p.has_track)
    then ignored p
    else (if prefers_dimensions p.video_preference
          && (p.requested_width == width)
          && (p.requested_height == height)
        then ignored p
        else request "RemoteTrackPublication::setVideoDimensions: invalid FFI handle"
            "RemoteTrackPublication::setVideoDimensions: FFI response missing dimension update result"
            (dimensions_request p.handle width height)
            (record p {
              requested_width = width;
              requested_height = height;
              video_preference = by_dimensions;
              video_quality = high;
            })
            reply p)
