-- ===== src/PublishOptions.antt =====
-- The options of a publication and their message (src/room_proto_converter.cpp). Enumerators, bitrates
-- and the frame rate, a `double` there, are only copied: they are natural numbers here.
pub mod RoundTrip
use client_sdk_cpp.Prelude.{
  ℕ, Bool, true, false, ◌||◌, List, [], ◌∷◌, ◌++◌, Option, none, some, String, if◌then◌else◌,
}

pub record FrameMetadataFeatures : Type 0 where
  pub user_timestamp : Bool
  pub frame_id : Bool
  pub user_data : Bool

-- The protocol's enumerators; the last one stands for any other number.
pub data FrameMetadataFeature : Type 0 where
  fmf_user_timestamp fmf_frame_id fmf_user_data fmf_other : FrameMetadataFeature

pub record VideoEncodingOptions : Type 0 where
  pub max_bitrate : ℕ
  pub max_framerate : ℕ

pub record TrackPublishOptions : Type 0 where
  pub video_encoding : Option VideoEncodingOptions
  -- The bitrate, its only field.
  pub audio_encoding : Option ℕ
  pub video_codec : Option ℕ
  pub dtx : Option Bool
  pub red : Option Bool
  pub simulcast : Option Bool
  pub source : Option ℕ
  pub stream : Option String
  pub preconnect_buffer : Option Bool
  pub frame_metadata_features : Option FrameMetadataFeatures
  pub packet_trailer_features : FrameMetadataFeatures
  pub video_encoder : Option ℕ
  pub degradation_preference : Option ℕ
  pub stereo : Option Bool

-- `proto::TrackPublishOptions`, with the fields that are set.
pub record ProtoOptions : Type 0 where
  pub video_encoding : Option VideoEncodingOptions
  pub audio_encoding : Option ℕ
  pub video_codec : Option ℕ
  pub dtx : Option Bool
  pub red : Option Bool
  pub simulcast : Option Bool
  pub source : Option ℕ
  pub stream : Option String
  pub preconnect_buffer : Option Bool
  pub frame_metadata_features : List FrameMetadataFeature
  pub video_encoder : Option ℕ
  pub degradation_preference : Option ℕ
  pub stereo : Option Bool

-- `if (b) out.push_back(feature)`
abbrev pub push_if :
    Bool → FrameMetadataFeature → List FrameMetadataFeature → List FrameMetadataFeature
push_if true feature rest = feature ∷ rest
push_if false feature rest = rest

unfoldable pub features_to_proto : FrameMetadataFeatures → List FrameMetadataFeature
features_to_proto f =
    push_if f.user_timestamp fmf_user_timestamp
      (push_if f.frame_id fmf_frame_id (push_if f.user_data fmf_user_data []))

abbrev pub no_features : FrameMetadataFeatures
no_features = record { user_timestamp = false; frame_id = false; user_data = false }

-- One round of the loop.
abbrev pub mark_feature : FrameMetadataFeature → FrameMetadataFeatures → FrameMetadataFeatures
mark_feature fmf_user_timestamp out = record out { user_timestamp = true }
mark_feature fmf_frame_id out = record out { frame_id = true }
mark_feature fmf_user_data out = record out { user_data = true }
mark_feature fmf_other out = out

abbrev pub mark_features : List FrameMetadataFeature → FrameMetadataFeatures → FrameMetadataFeatures
mark_features [] out = out
mark_features (feature ∷ rest) out = mark_features rest (mark_feature feature out)

unfoldable pub features_from_proto : List FrameMetadataFeature → FrameMetadataFeatures
features_from_proto features = mark_features features no_features

abbrev pub features_or_none : Option FrameMetadataFeatures → FrameMetadataFeatures
features_or_none none = no_features
features_or_none (some f) = f

unfoldable pub merged_frame_metadata_features : TrackPublishOptions → FrameMetadataFeatures
merged_frame_metadata_features o =
    let out = features_or_none o.frame_metadata_features in
    record {
      user_timestamp = out.user_timestamp || o.packet_trailer_features.user_timestamp;
      frame_id = out.frame_id || o.packet_trailer_features.frame_id;
      user_data = out.user_data || o.packet_trailer_features.user_data;
    }

unfoldable pub options_to_proto : TrackPublishOptions → ProtoOptions
options_to_proto o = record {
  video_encoding = o.video_encoding;
  audio_encoding = o.audio_encoding;
  video_codec = o.video_codec;
  dtx = o.dtx;
  red = o.red;
  simulcast = o.simulcast;
  source = o.source;
  stream = o.stream;
  preconnect_buffer = o.preconnect_buffer;
  frame_metadata_features = features_to_proto (merged_frame_metadata_features o);
  video_encoder = o.video_encoder;
  degradation_preference = o.degradation_preference;
  stereo = o.stereo;
}

-- `if (in.frame_metadata_features_size() > 0)`
abbrev pub features_if_any :
    List FrameMetadataFeature → FrameMetadataFeatures → Option FrameMetadataFeatures
features_if_any [] f = none
features_if_any (feature ∷ rest) f = some f

unfoldable pub options_from_proto : ProtoOptions → TrackPublishOptions
options_from_proto m =
    let features = features_from_proto m.frame_metadata_features in
    record {
      video_encoding = m.video_encoding;
      audio_encoding = m.audio_encoding;
      video_codec = m.video_codec;
      dtx = m.dtx;
      red = m.red;
      simulcast = m.simulcast;
      source = m.source;
      stream = m.stream;
      preconnect_buffer = m.preconnect_buffer;
      frame_metadata_features = features_if_any m.frame_metadata_features features;
      packet_trailer_features = features;
      video_encoder = m.video_encoder;
      degradation_preference = m.degradation_preference;
      stereo = m.stereo;
    }
