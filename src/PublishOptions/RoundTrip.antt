-- ===== src/PublishOptions/RoundTrip.antt =====
-- The options of a publication survive their message.
use client_sdk_cpp.Prelude.{Bool, true, false, ◌≡◌, refl, ap, ◌∙◌, arith}
use client_sdk_cpp.PublishOptions.{
  FrameMetadataFeatures, TrackPublishOptions, features_to_proto, features_from_proto,
  features_if_any, merged_frame_metadata_features, options_to_proto, options_from_proto,
}

abbrev features : Bool → Bool → Bool → FrameMetadataFeatures
features a b c = record { user_timestamp = a; frame_id = b; user_data = c }

bits_round_trip :
    (a b c : Bool) → features_from_proto (features_to_proto (features a b c)) ≡ features a b c
unfolding features_from_proto features_to_proto
bits_round_trip true true true = refl
bits_round_trip true true false = refl
bits_round_trip true false true = refl
bits_round_trip true false false = refl
bits_round_trip false true true = refl
bits_round_trip false true false = refl
bits_round_trip false false true = refl
bits_round_trip false false false = refl

features_round_trip : (f : FrameMetadataFeatures) → features_from_proto (features_to_proto f) ≡ f
features_round_trip f = bits_round_trip f.user_timestamp f.frame_id f.user_data

-- What the two fields of features say together, once they came from a message, is what one says.
merged_again :
    (f : FrameMetadataFeatures) (o : TrackPublishOptions)
    → merged_frame_metadata_features (record o {
      frame_metadata_features = features_if_any (features_to_proto f) f;
      packet_trailer_features = f;
    })
      ≡ f
unfolding merged_frame_metadata_features features_to_proto
merged_again f o = ground arith

-- The options that come out of their own message are the options but for the features: both fields of
-- features have those that the options had in either, the first one only if there are any. They are
-- sent as the same message again.
options_round_trip :
    (o : TrackPublishOptions)
    → let merged = merged_frame_metadata_features o in
      let o' = options_from_proto (options_to_proto o) in
      (o' ≡ record o {
        frame_metadata_features = features_if_any (features_to_proto merged) merged;
        packet_trailer_features = merged;
      })
      × (options_to_proto o' ≡ options_to_proto o)
unfolding options_from_proto options_to_proto
options_round_trip o =
    let merged = merged_frame_metadata_features o in
    let same =
      ap
        (λ g. record o {
          frame_metadata_features = features_if_any (features_to_proto merged) g;
          packet_trailer_features = g;
        })
        (features_round_trip merged) in
    (
      same,
      ap options_to_proto same
          ∙ ap (λ g. record (options_to_proto o) { frame_metadata_features = features_to_proto g })
              (merged_again merged o),
    )
