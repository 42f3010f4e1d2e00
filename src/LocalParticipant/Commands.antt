-- ===== src/LocalParticipant/Commands.antt =====
-- The requests of `LocalParticipant` (src/local_participant.cpp) that keep no state: each asks the
-- native library by the participant's handle, where 0 is not valid, and waits. What the future or the
-- request comes to is an argument.
use client_sdk_cpp.Prelude.{
  ℕ, Bool, true, false, List, [], ◌∷◌, Option, none, some, String, if◌then◌else◌, ◌==◌, length,
}
use client_sdk_cpp.Native.{Done, returns, throws}
use client_sdk_cpp.DataTrack.Schema.{DataTrackSchemaId, Encoding, FrameFormat}
use client_sdk_cpp.DataTrack.Ends

-- `ParticipantTrackPermission`
pub record TrackPermission : Type 0 where
  pub participant_identity : String
  pub allow_all : Option Bool
  pub allowed_track_sids : List String

pub record DataTrackPublishOptions : Type 0 where
  pub name : String
  pub schema : Option DataTrackSchemaId
  pub frame_encoding : Option (Encoding FrameFormat)

-- The requests, with the participant's handle. An `int` is given by its pattern of 32 bits.
pub data Request : Type 0 where
  publish_data_request : ℕ → List ℕ → Bool → List String → String → Request
  publish_dtmf_request : ℕ → ℕ → String → List String → Request
  set_metadata_request set_name_request : ℕ → String → Request
  set_attributes_request : ℕ → List (String × String) → Request
  set_permissions_request : ℕ → Bool → List TrackPermission → Request
  publish_data_track_request : ℕ → DataTrackPublishOptions → Request
  define_schema_request : ℕ → DataTrackSchemaId → String → Request
  get_schema_request : ℕ → DataTrackSchemaId → String → Request
  perform_rpc_request : ℕ → String → String → String → Option ℕ → Request

-- What a function of these says and sends.
abbrev pub Outcome : Type 0 → Type 0
Outcome A = Done A × List Request

-- `if (handle_id == 0) throw`
abbrev pub with_handle : {A : Type 0} → ℕ → String → (ℕ → Request) → Done A → Outcome A
with_handle handle error request r =
    if handle == 0 then (throws error, []) else (r, request handle ∷ [])

unfoldable pub publish_data :
    ℕ → List ℕ → Bool → List String → String → Done (Unit {0}) → Outcome (Unit {0})
publish_data handle payload reliable destinations topic r =
    if length payload == 0
    then (returns tt, [])
    else with_handle handle "LocalParticipant::publishData: invalid FFI handle"
        (λ h. publish_data_request h payload reliable destinations topic) r

unfoldable pub publish_dtmf : ℕ → ℕ → String → Done (Unit {0}) → Outcome (Unit {0})
publish_dtmf handle code digit r =
    with_handle handle "LocalParticipant::publishDtmf: invalid FFI handle"
      (λ h. publish_dtmf_request h code digit []) r

unfoldable pub set_metadata : ℕ → String → Done (Unit {0}) → Outcome (Unit {0})
set_metadata handle metadata r =
    with_handle handle "LocalParticipant::setMetadata: invalid FFI handle"
      (λ h. set_metadata_request h metadata) r

unfoldable pub set_name : ℕ → String → Done (Unit {0}) → Outcome (Unit {0})
set_name handle name r =
    with_handle handle "LocalParticipant::setName: invalid FFI handle"
      (λ h. set_name_request h name) r

unfoldable pub set_attributes : ℕ → List (String × String) → Done (Unit {0}) → Outcome (Unit {0})
set_attributes handle attributes r =
    with_handle handle "LocalParticipant::setAttributes: invalid FFI handle"
      (λ h. set_attributes_request h attributes) r

unfoldable pub set_track_subscription_permissions :
    ℕ → Bool → List TrackPermission → Done (Unit {0}) → Outcome (Unit {0})
set_track_subscription_permissions handle allow_all permissions r =
    with_handle handle "LocalParticipant::setTrackSubscriptionPermissions: invalid FFI handle"
      (λ h. set_permissions_request h allow_all permissions) r

-- The timeout is in whole milliseconds.
unfoldable pub perform_rpc : ℕ → String → String → String → Option ℕ → Done String → Outcome String
perform_rpc handle destination method payload timeout_ms r =
    with_handle handle "LocalParticipant::performRpc: invalid FFI handle"
      (λ h. perform_rpc_request h destination method payload timeout_ms) r

-- `PublishDataTrackErrorCode`, with `code` for one that the native library or `FfiClient` gives.
pub data PublishErrorCode : Type 0 where
  invalid_handle : PublishErrorCode
  code : ℕ → PublishErrorCode

-- `Result` of a data track, which is its handle, or of an error.
pub data PublishResult : Type 0 where
  published : ℕ → PublishResult
  failed : PublishErrorCode → String → PublishResult

unfoldable pub publish_data_track :
    ℕ → DataTrackPublishOptions → Done PublishResult → Outcome PublishResult
publish_data_track handle options r =
    if handle == 0
    then (
      returns (failed invalid_handle "LocalParticipant::publishDataTrack: invalid FFI handle"),
      [],
    )
    else (r, publish_data_track_request handle options ∷ [])

unfoldable pub publish_data_track_by_name : ℕ → String → Done PublishResult → Outcome PublishResult
unfolding publish_data_track
publish_data_track_by_name handle name r =
    publish_data_track handle (record { name = name; schema = none; frame_encoding = none }) r

-- A track that is null is ignored.
unfoldable pub unpublish_data_track : Option ℕ → List Ends.Request
unpublish_data_track none = []
unpublish_data_track (some handle) = Ends.unpublish_data_track handle

-- The `Result` of a schema: the value, or the error that is logged.
pub data SchemaResult {ℓ} (A : Type ℓ) : Type ℓ where
  found : A → SchemaResult A
  missing : String → SchemaResult A

abbrev pub was_defined : Done (SchemaResult (Unit {0})) → Done Bool
was_defined (returns (found _)) = returns true
was_defined (returns (missing e)) = returns false
was_defined (throws e) = throws e

abbrev pub if_found : Done (SchemaResult String) → Done (Option String)
if_found (returns (found text)) = returns (some text)
if_found (returns (missing e)) = returns none
if_found (throws e) = throws e

unfoldable pub define_schema :
    ℕ → DataTrackSchemaId → String → Done (SchemaResult (Unit {0})) → Outcome Bool
define_schema handle id definition r =
    if handle == 0
    then (returns false, [])
    else (was_defined r, define_schema_request handle id definition ∷ [])

unfoldable pub get_schema :
    ℕ → DataTrackSchemaId → String → Done (SchemaResult String) → Outcome (Option String)
get_schema handle id participant_identity r =
    if handle == 0
    then (returns none, [])
    else (if_found r, get_schema_request handle id participant_identity ∷ [])
