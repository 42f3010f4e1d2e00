-- ===== src/PlatformAudio.antt =====
-- `PlatformAudio` of src/platform_audio.cpp: the devices of the platform. A handle 0 is not valid.
use client_sdk_cpp.Prelude.{
  ℕ, Bool, List, [], ◌∷◌, map, length, Option, none, some, String, if◌then◌else◌, ◌==◌,
}
use client_sdk_cpp.Native.{Reply, fails, lacks_part, answers, Done, returns, throws, has_text}

pub record AudioDeviceInfo : Type 0 where
  pub index : ℕ
  pub name : String
  pub id : String

-- A device of the response; its `guid` may be missing.
pub record ProtoDevice : Type 0 where
  pub index : ℕ
  pub name : String
  pub guid : Option String

pub record PlatformAudioOptions : Type 0 where
  pub echo_cancellation : Bool
  pub noise_suppression : Bool
  pub auto_gain_control : Bool
  pub prefer_hardware : Bool

pub data Request : Type 0 where
  new_platform_audio : Request
  get_audio_devices_request : ℕ → Request
  set_recording_device_request set_playout_device_request : ℕ → String → Request
  new_audio_source_request : ℕ → PlatformAudioOptions → Request

abbrev pub or_empty : Option String → String
or_empty none = ""
or_empty (some text) = text

unfoldable pub device_of : ProtoDevice → AudioDeviceInfo
device_of device = record { index = device.index; name = device.name; id = or_empty device.guid }

unfoldable pub convert_devices : List ProtoDevice → List AudioDeviceInfo
convert_devices devices = map device_of devices

-- `requireHandle`: there is a state and its handle is valid.
unfoldable pub require_handle : Option ℕ → Option ℕ
require_handle none = none
require_handle (some handle) = if handle == 0 then none else some handle

-- The response to the constructor's request.
pub record NewPlatformAudio : Type 0 where
  pub error : Option String
  pub platform_audio : Option ℕ

abbrev pub handle_in : Option String → Option ℕ → Done (Option ℕ)
handle_in (some e) handle = throws e
handle_in none none =
    throws "Failed to construct PlatformAudio: NewPlatformAudioResponse missing platform_audio"
handle_in none (some handle) = returns (some handle)

-- The constructor gives the state, which has the handle.
unfoldable pub construct : Reply NewPlatformAudio → Done (Option ℕ) × Request
construct (fails e) = (throws e, new_platform_audio)
construct lacks_part = (
  throws "Failed to construct PlatformAudio: FfiResponse missing new_platform_audio",
  new_platform_audio,
)
construct (answers r) = (handle_in r.error r.platform_audio, new_platform_audio)

pub record Devices : Type 0 where
  pub error : Option String
  pub recording_devices : List ProtoDevice
  pub playout_devices : List ProtoDevice

abbrev pub no_handle : String
no_handle = "PlatformAudio has no valid FFI handle"

abbrev pub devices_in : Reply Devices → Done Devices
devices_in (fails e) = throws e
devices_in lacks_part = throws "FfiResponse missing get_audio_devices"
devices_in (answers devices) =
    if has_text devices.error then throws (or_empty devices.error) else returns devices

abbrev pub get_from : Option ℕ → Reply Devices → Done Devices × List Request
get_from none r = (throws no_handle, [])
get_from (some handle) r = (devices_in r, get_audio_devices_request handle ∷ [])

unfoldable pub get_audio_devices : Option ℕ → Reply Devices → Done Devices × List Request
unfolding require_handle
get_audio_devices state r = get_from (require_handle state) r

abbrev pub with_devices :
    {A : Type 0} → (Devices → A) → Done Devices × List Request → Done A × List Request
with_devices f (returns devices, sent) = (returns (f devices), sent)
with_devices f (throws e, sent) = (throws e, sent)

unfoldable pub recording_device_count : Option ℕ → Reply Devices → Done ℕ × List Request
recording_device_count state r =
    with_devices (λ d. length d.recording_devices) (get_audio_devices state r)

unfoldable pub playout_device_count : Option ℕ → Reply Devices → Done ℕ × List Request
playout_device_count state r =
    with_devices (λ d. length d.playout_devices) (get_audio_devices state r)

unfoldable pub recording_devices :
    Option ℕ → Reply Devices → Done (List AudioDeviceInfo) × List Request
recording_devices state r =
    with_devices (λ d. convert_devices d.recording_devices) (get_audio_devices state r)

unfoldable pub playout_devices :
    Option ℕ → Reply Devices → Done (List AudioDeviceInfo) × List Request
playout_devices state r =
    with_devices (λ d. convert_devices d.playout_devices) (get_audio_devices state r)

-- The response to the choice of a device, with the text for one that lacks its part.
abbrev pub chosen : String → Reply (Option String) → Done (Unit {0})
chosen missing (fails e) = throws e
chosen missing lacks_part = throws missing
chosen missing (answers error) = if has_text error then throws (or_empty error) else returns tt

abbrev pub choose :
    (ℕ → Request) → String → Option ℕ → Reply (Option String) → Done (Unit {0}) × List Request
choose request missing none r = (throws no_handle, [])
choose request missing (some handle) r = (chosen missing r, request handle ∷ [])

unfoldable pub set_recording_device :
    Option ℕ → String → Reply (Option String) → Done (Unit {0}) × List Request
set_recording_device state device_id r =
    choose (λ handle. set_recording_device_request handle device_id)
      "FfiResponse missing set_recording_device" (require_handle state) r

unfoldable pub set_playout_device :
    Option ℕ → String → Reply (Option String) → Done (Unit {0}) × List Request
set_playout_device state device_id r =
    choose (λ handle. set_playout_device_request handle device_id)
      "FfiResponse missing set_playout_device" (require_handle state) r

-- `PlatformAudioSource`: its handle, and the state that it keeps alive.
pub record PlatformAudioSource : Type 0 where
  pub handle : ℕ
  pub platform_audio : Option ℕ

-- The response may lack the source's handle.
abbrev pub source_in : Option ℕ → Reply (Option ℕ) → Done PlatformAudioSource
source_in state (fails e) = throws e
source_in state lacks_part = throws "FfiResponse missing new_audio_source"
source_in state (answers none) = throws "NewAudioSourceResponse missing source handle"
source_in state (answers (some handle)) =
    if handle == 0
    then throws "NewAudioSourceResponse returned an invalid (null) source handle"
    else returns (record { handle = handle; platform_audio = state })

abbrev pub create_from :
    Option ℕ
    → Option ℕ
    → PlatformAudioOptions
    → Reply (Option ℕ)
    → Done PlatformAudioSource × List Request
create_from none state options r = (throws no_handle, [])
create_from (some handle) state options r =
    (source_in state r, new_audio_source_request handle options ∷ [])

unfoldable pub create_audio_source :
    Option ℕ → PlatformAudioOptions → Reply (Option ℕ) → Done PlatformAudioSource × List Request
create_audio_source state options r = create_from (require_handle state) state options r
