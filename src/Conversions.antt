-- ===== src/Conversions.antt =====
-- Enumerations and their counterparts in the protocol (src/room_proto_converter.cpp and
-- src/track_proto_converter.cpp). Each of the protocol has `unlisted` for any other number.
pub mod Media
pub mod Back
pub mod Rooms
use client_sdk_cpp.Prelude.{Bool, List, [], ◌∷◌, map, Option, String}
use client_sdk_cpp.LocalParticipant.Commands.{TrackPermission}

pub data ConnectionQuality : Type 0 where
  poor good excellent lost : ConnectionQuality

pub data ProtoConnectionQuality : Type 0 where
  poor good excellent lost unlisted : ProtoConnectionQuality

abbrev pub to_connection_quality : ProtoConnectionQuality → ConnectionQuality
to_connection_quality ProtoConnectionQuality.poor = ConnectionQuality.poor
to_connection_quality ProtoConnectionQuality.good = ConnectionQuality.good
to_connection_quality ProtoConnectionQuality.excellent = ConnectionQuality.excellent
to_connection_quality ProtoConnectionQuality.lost = ConnectionQuality.lost
to_connection_quality ProtoConnectionQuality.unlisted = ConnectionQuality.good

pub data ConnectionState : Type 0 where
  disconnected connected reconnecting : ConnectionState

pub data ProtoConnectionState : Type 0 where
  disconnected connected reconnecting unlisted : ProtoConnectionState

abbrev pub to_connection_state : ProtoConnectionState → ConnectionState
to_connection_state ProtoConnectionState.disconnected = ConnectionState.disconnected
to_connection_state ProtoConnectionState.connected = ConnectionState.connected
to_connection_state ProtoConnectionState.reconnecting = ConnectionState.reconnecting
to_connection_state ProtoConnectionState.unlisted = ConnectionState.disconnected

pub data DataPacketKind : Type 0 where
  lossy reliable : DataPacketKind

pub data ProtoDataPacketKind : Type 0 where
  lossy reliable unlisted : ProtoDataPacketKind

abbrev pub to_data_packet_kind : ProtoDataPacketKind → DataPacketKind
to_data_packet_kind ProtoDataPacketKind.lossy = DataPacketKind.lossy
to_data_packet_kind ProtoDataPacketKind.reliable = DataPacketKind.reliable
to_data_packet_kind ProtoDataPacketKind.unlisted = DataPacketKind.reliable

pub data DisconnectReason : Type 0 where
  unknown client_initiated duplicate_identity server_shutdown participant_removed room_deleted
        state_mismatch join_failure migration signal_close room_closed user_unavailable
        user_rejected sip_trunk_failure connection_timeout media_failure agent_error :
      DisconnectReason

pub data ProtoDisconnectReason : Type 0 where
  unknown client_initiated duplicate_identity server_shutdown participant_removed room_deleted
        state_mismatch join_failure migration signal_close room_closed user_unavailable
        user_rejected sip_trunk_failure connection_timeout media_failure agent_error unlisted :
      ProtoDisconnectReason

abbrev pub to_disconnect_reason : ProtoDisconnectReason → DisconnectReason
to_disconnect_reason ProtoDisconnectReason.unknown = DisconnectReason.unknown
to_disconnect_reason ProtoDisconnectReason.client_initiated = DisconnectReason.client_initiated
to_disconnect_reason ProtoDisconnectReason.duplicate_identity = DisconnectReason.duplicate_identity
to_disconnect_reason ProtoDisconnectReason.server_shutdown = DisconnectReason.server_shutdown
to_disconnect_reason ProtoDisconnectReason.participant_removed =
    DisconnectReason.participant_removed
to_disconnect_reason ProtoDisconnectReason.room_deleted = DisconnectReason.room_deleted
to_disconnect_reason ProtoDisconnectReason.state_mismatch = DisconnectReason.state_mismatch
to_disconnect_reason ProtoDisconnectReason.join_failure = DisconnectReason.join_failure
to_disconnect_reason ProtoDisconnectReason.migration = DisconnectReason.migration
to_disconnect_reason ProtoDisconnectReason.signal_close = DisconnectReason.signal_close
to_disconnect_reason ProtoDisconnectReason.room_closed = DisconnectReason.room_closed
to_disconnect_reason ProtoDisconnectReason.user_unavailable = DisconnectReason.user_unavailable
to_disconnect_reason ProtoDisconnectReason.user_rejected = DisconnectReason.user_rejected
to_disconnect_reason ProtoDisconnectReason.sip_trunk_failure = DisconnectReason.sip_trunk_failure
to_disconnect_reason ProtoDisconnectReason.connection_timeout = DisconnectReason.connection_timeout
to_disconnect_reason ProtoDisconnectReason.media_failure = DisconnectReason.media_failure
to_disconnect_reason ProtoDisconnectReason.agent_error = DisconnectReason.agent_error
to_disconnect_reason ProtoDisconnectReason.unlisted = DisconnectReason.unknown

abbrev pub disconnect_reason_to_proto : DisconnectReason → ProtoDisconnectReason
disconnect_reason_to_proto DisconnectReason.unknown = ProtoDisconnectReason.unknown
disconnect_reason_to_proto DisconnectReason.client_initiated =
    ProtoDisconnectReason.client_initiated
disconnect_reason_to_proto DisconnectReason.duplicate_identity =
    ProtoDisconnectReason.duplicate_identity
disconnect_reason_to_proto DisconnectReason.server_shutdown = ProtoDisconnectReason.server_shutdown
disconnect_reason_to_proto DisconnectReason.participant_removed =
    ProtoDisconnectReason.participant_removed
disconnect_reason_to_proto DisconnectReason.room_deleted = ProtoDisconnectReason.room_deleted
disconnect_reason_to_proto DisconnectReason.state_mismatch = ProtoDisconnectReason.state_mismatch
disconnect_reason_to_proto DisconnectReason.join_failure = ProtoDisconnectReason.join_failure
disconnect_reason_to_proto DisconnectReason.migration = ProtoDisconnectReason.migration
disconnect_reason_to_proto DisconnectReason.signal_close = ProtoDisconnectReason.signal_close
disconnect_reason_to_proto DisconnectReason.room_closed = ProtoDisconnectReason.room_closed
disconnect_reason_to_proto DisconnectReason.user_unavailable =
    ProtoDisconnectReason.user_unavailable
disconnect_reason_to_proto DisconnectReason.user_rejected = ProtoDisconnectReason.user_rejected
disconnect_reason_to_proto DisconnectReason.sip_trunk_failure =
    ProtoDisconnectReason.sip_trunk_failure
disconnect_reason_to_proto DisconnectReason.connection_timeout =
    ProtoDisconnectReason.connection_timeout
disconnect_reason_to_proto DisconnectReason.media_failure = ProtoDisconnectReason.media_failure
disconnect_reason_to_proto DisconnectReason.agent_error = ProtoDisconnectReason.agent_error

pub data TrackKind : Type 0 where
  unknown audio video : TrackKind

pub data ProtoTrackKind : Type 0 where
  unknown audio video unlisted : ProtoTrackKind

abbrev pub track_kind_from_proto : ProtoTrackKind → TrackKind
track_kind_from_proto ProtoTrackKind.unknown = TrackKind.unknown
track_kind_from_proto ProtoTrackKind.audio = TrackKind.audio
track_kind_from_proto ProtoTrackKind.video = TrackKind.video
track_kind_from_proto ProtoTrackKind.unlisted = TrackKind.unknown

pub data StreamState : Type 0 where
  unknown active paused : StreamState

pub data ProtoStreamState : Type 0 where
  unknown active paused unlisted : ProtoStreamState

abbrev pub stream_state_from_proto : ProtoStreamState → StreamState
stream_state_from_proto ProtoStreamState.unknown = StreamState.unknown
stream_state_from_proto ProtoStreamState.active = StreamState.active
stream_state_from_proto ProtoStreamState.paused = StreamState.paused
stream_state_from_proto ProtoStreamState.unlisted = StreamState.unknown

pub data TrackSource : Type 0 where
  unknown camera microphone screenshare screenshare_audio : TrackSource

pub data ProtoTrackSource : Type 0 where
  unknown camera microphone screenshare screenshare_audio unlisted : ProtoTrackSource

abbrev pub track_source_from_proto : ProtoTrackSource → TrackSource
track_source_from_proto ProtoTrackSource.unknown = TrackSource.unknown
track_source_from_proto ProtoTrackSource.camera = TrackSource.camera
track_source_from_proto ProtoTrackSource.microphone = TrackSource.microphone
track_source_from_proto ProtoTrackSource.screenshare = TrackSource.screenshare
track_source_from_proto ProtoTrackSource.screenshare_audio = TrackSource.screenshare_audio
track_source_from_proto ProtoTrackSource.unlisted = TrackSource.unknown

pub data AudioTrackFeature : Type 0 where
  stereo no_dtx auto_gain_control echo_cancellation noise_suppression enhanced_noise_cancellation
        preconnect_buffer :
      AudioTrackFeature

pub data ProtoAudioTrackFeature : Type 0 where
  stereo no_dtx auto_gain_control echo_cancellation noise_suppression enhanced_noise_cancellation
        preconnect_buffer unlisted :
      ProtoAudioTrackFeature

abbrev pub audio_track_feature_from_proto : ProtoAudioTrackFeature → AudioTrackFeature
audio_track_feature_from_proto ProtoAudioTrackFeature.stereo = AudioTrackFeature.stereo
audio_track_feature_from_proto ProtoAudioTrackFeature.no_dtx = AudioTrackFeature.no_dtx
audio_track_feature_from_proto ProtoAudioTrackFeature.auto_gain_control =
    AudioTrackFeature.auto_gain_control
audio_track_feature_from_proto ProtoAudioTrackFeature.echo_cancellation =
    AudioTrackFeature.echo_cancellation
audio_track_feature_from_proto ProtoAudioTrackFeature.noise_suppression =
    AudioTrackFeature.noise_suppression
audio_track_feature_from_proto ProtoAudioTrackFeature.enhanced_noise_cancellation =
    AudioTrackFeature.enhanced_noise_cancellation
audio_track_feature_from_proto ProtoAudioTrackFeature.preconnect_buffer =
    AudioTrackFeature.preconnect_buffer
audio_track_feature_from_proto ProtoAudioTrackFeature.unlisted = AudioTrackFeature.stereo

unfoldable pub convert_audio_features : List ProtoAudioTrackFeature → List AudioTrackFeature
convert_audio_features features = map audio_track_feature_from_proto features

pub data ParticipantKind : Type 0 where
  standard ingress egress sip agent : ParticipantKind

pub data ProtoParticipantKind : Type 0 where
  standard ingress egress sip agent unlisted : ProtoParticipantKind

abbrev pub participant_kind_from_proto : ProtoParticipantKind → ParticipantKind
participant_kind_from_proto ProtoParticipantKind.standard = ParticipantKind.standard
participant_kind_from_proto ProtoParticipantKind.ingress = ParticipantKind.ingress
participant_kind_from_proto ProtoParticipantKind.egress = ParticipantKind.egress
participant_kind_from_proto ProtoParticipantKind.sip = ParticipantKind.sip
participant_kind_from_proto ProtoParticipantKind.agent = ParticipantKind.agent
participant_kind_from_proto ProtoParticipantKind.unlisted = ParticipantKind.standard

-- `proto::ParticipantTrackPermission`
pub record ProtoTrackPermission : Type 0 where
  pub participant_identity : String
  pub allow_all : Option Bool
  pub allowed_track_sids : List String

unfoldable pub permission_to_proto : TrackPermission → ProtoTrackPermission
permission_to_proto p = record {
  participant_identity = p.participant_identity;
  allow_all = p.allow_all;
  allowed_track_sids = p.allowed_track_sids;
}

unfoldable pub permission_from_proto : ProtoTrackPermission → TrackPermission
permission_from_proto m = record {
  participant_identity = m.participant_identity;
  allow_all = m.allow_all;
  allowed_track_sids = m.allowed_track_sids;
}
