-- ===== src/DataTrack/Schema/Identity.antt =====
-- The message of a schema id stands for it.
use client_sdk_cpp.Prelude.{true, ◌≡◌, ◌↔◌, arith}
use client_sdk_cpp.Prelude.Assoc.{string_eq}
use client_sdk_cpp.DataTrack.Schema.{
  SchemaFormat, Encoding, schema_number, same_encoding, schema_format_to_proto,
  schema_format_from_proto, encoding_to_proto, encoding_from_proto, schema_encoding_to_proto,
  schema_encoding_from_proto, DataTrackSchemaId, same_schema_id, schema_id_to_proto,
  schema_id_from_proto,
}

number_injective : (f g : SchemaFormat) → schema_number f ≡ schema_number g → f ≡ g
number_injective f g h = ground arith

format_back : (f : SchemaFormat) → schema_format_from_proto (schema_format_to_proto f) ≡ f
format_back f = ground arith

-- The messages of two encodings are equal if the encodings count as equal, and only then.
to_proto_same :
    (a b : Encoding SchemaFormat)
    → same_encoding schema_number a b ≡ true
    → schema_encoding_to_proto a ≡ schema_encoding_to_proto b
unfolding same_encoding schema_encoding_to_proto encoding_to_proto
to_proto_same a b h = ground (
  arith,
  string_eq.same_iff a.custom b.custom,
  string_eq.same_iff a.custom "",
  string_eq.same_iff b.custom "",
  number_injective a.well_known b.well_known,
)

same_to_proto :
    (a b : Encoding SchemaFormat)
    → schema_encoding_to_proto a ≡ schema_encoding_to_proto b
    → same_encoding schema_number a b ≡ true
unfolding same_encoding schema_encoding_to_proto encoding_to_proto
same_to_proto a b h = ground (
  arith,
  string_eq.same_iff a.custom b.custom,
  string_eq.same_iff a.custom "",
  string_eq.same_iff b.custom "",
  format_back a.well_known,
  format_back b.well_known,
)

from_proto_same :
    (a : Encoding SchemaFormat)
    → same_encoding schema_number (schema_encoding_from_proto (schema_encoding_to_proto a)) a ≡ true
unfolding same_encoding schema_encoding_from_proto encoding_from_proto schema_encoding_to_proto
    encoding_to_proto
from_proto_same a = ground (
  arith,
  string_eq.same_iff a.custom a.custom,
  string_eq.same_iff "" a.custom,
  string_eq.same_iff a.custom "",
  format_back a.well_known,
)

-- Two schema ids count as equal exactly if their messages are equal, and the id that is read from an
-- id's message counts as equal to it.
pub schema_id_identity :
    (a b : DataTrackSchemaId)
    → ((same_schema_id a b ≡ true) ↔ (schema_id_to_proto a ≡ schema_id_to_proto b))
      × (same_schema_id (schema_id_from_proto (schema_id_to_proto a)) a ≡ true)
unfolding same_schema_id schema_id_to_proto schema_id_from_proto
schema_id_identity a b = (
  (
    (λ h. ground (arith, string_eq.same_iff a.name b.name, to_proto_same a.encoding b.encoding)),
    (λ h. ground (arith, string_eq.same_iff a.name b.name, same_to_proto a.encoding b.encoding)),
  ),
  ground (arith, string_eq.same_iff a.name a.name, from_proto_same a.encoding),
)
