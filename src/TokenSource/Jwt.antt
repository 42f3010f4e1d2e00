-- ===== src/TokenSource/Jwt.antt =====
-- The validity of a participant's token (src/token_source_jwt.cpp). The time is an argument, in seconds.
use client_sdk_cpp.Prelude.{
  ℕ, ◌+◌, Bool, true, false, [], ◌∷◌, ◌++◌, Option, none, some, String, if◌then◌else◌, ◌==◌, ltb,
  All, ◌≤◌, ◌<◌, ◌≡◌, ◌≢◌, ◌↔◌, refl, subst, arith,
}
use client_sdk_cpp.Prelude.Assoc.{lookup, string_eq}
use client_sdk_cpp.TokenSource.{Bytes}
use client_sdk_cpp.TokenSource.Json.{ℤ, pos, negsuc, Json, number, string, other, Members}
use client_sdk_cpp.TokenSource.Base64.{base64_url_decode}
use client_sdk_cpp.TokenSource.Base64.RoundTrip.{
  encode, IsByte, base64_url_decode-encode, encode_no_dot,
}

-- `find('.')`: what is before the first dot, and after it.
unfoldable pub split_at_dot : Bytes → Option (Bytes × Bytes)
split_at_dot [] = none
split_at_dot (c ∷ cs) =
    if c == 46
    then some ([], cs)
    else (elim (split_at_dot cs) [ none ↦ none | some (a, b) ↦ some (c ∷ a, b) ])

unfoldable pub extract_jwt_payload_json : Bytes → Option Bytes
extract_jwt_payload_json token = elim (split_at_dot token) [
  | none ↦ none
  | some (first, rest) ↦ (elim (split_at_dot rest) [
    | none ↦ none
    | some (payload_segment, _) ↦ (elim (base64_url_decode payload_segment) [
      | some (b ∷ bs) ↦ some (b ∷ bs)
      | _ ↦ none
    ])
  ])
]

-- `get<std::int64_t>()` of the claim that `find` gives, if it is a number.
abbrev pub numeric : Option Json → Option ℤ
numeric (some (number n)) = some n
numeric _ = none

unfoldable pub read_numeric_claim : Members → String → Option ℤ
read_numeric_claim payload key = numeric (lookup key payload)

-- `claim > seconds`
abbrev pub exceeds : ℤ → ℕ → Bool
exceeds (pos n) seconds = ltb seconds n
exceeds (negsuc n) seconds = false

-- The tests of the claims `nbf` and `exp`. The sum of the time and the buffer stays below 2 ^ 63.
abbrev pub claims_valid : Option ℤ → Option ℤ → ℕ → Bool
claims_valid nbf exp now_seconds =
    let exp_ok : Bool = elim exp [ some e ↦ exceeds e (now_seconds + 60) | none ↦ true ] in
    (elim nbf [ some b ↦ (if exceeds b now_seconds then false else exp_ok) | none ↦ exp_ok ])

unfoldable pub is_participant_token_valid : (Bytes → Option Members) → ℕ → Bytes → Bool
is_participant_token_valid parse now_seconds participant_token =
    elim (extract_jwt_payload_json participant_token) [
      | none ↦ false
      | some payload_json ↦ (elim (parse payload_json) [
        | none ↦ false
        | some payload ↦
            claims_valid (read_numeric_claim payload "nbf") (read_numeric_claim payload "exp")
              now_seconds
      ])
    ]

-- The claim `nbf`, if it is a number, is not later than now.
abbrev pub Begun : Option Json → ℕ → Type 0
Begun (some (number (pos n))) now_seconds = n ≤ now_seconds
Begun _ now_seconds = Unit

-- The claim `exp`, if it is a number, is more than a minute later than now.
abbrev pub Lasting : Option Json → ℕ → Type 0
Lasting (some (number (pos n))) now_seconds = now_seconds + 60 < n
Lasting (some (number (negsuc n))) now_seconds = ⊥
Lasting _ now_seconds = Unit

abbrev pub InForce : Members → ℕ → Type 0
InForce payload now_seconds =
    Begun (lookup "nbf" payload) now_seconds × Lasting (lookup "exp" payload) now_seconds

abbrev pub NoDot : Bytes → Type 0
NoDot cs = All (λ c. c ≢ 46) cs

split_at_dot-append :
    (before after : Bytes)
    → NoDot before
    → split_at_dot (before ++ 46 ∷ after) ≡ some (before, after)
unfolding split_at_dot
split_at_dot-append [] after h = refl
split_at_dot-append (c ∷ cs) after (ne, h) = ground (arith, split_at_dot-append cs after h)

claims_valid_iff :
    (nbf exp : Option Json) (now : ℕ)
    → (claims_valid (numeric nbf) (numeric exp) now ≡ true) ↔ (Begun nbf now × Lasting exp now)
claims_valid_iff nbf none now = ground arith
claims_valid_iff nbf (some (number (pos n))) now = ground arith
claims_valid_iff nbf (some (number (negsuc n))) now = ground arith
claims_valid_iff nbf (some (string v)) now = ground arith
claims_valid_iff nbf (some other) now = ground arith

extract_issued :
    (header signature : Bytes) (b : ℕ) (payload : Bytes)
    → NoDot header
    → All IsByte (b ∷ payload)
    → extract_jwt_payload_json (header ++ 46 ∷ (encode (b ∷ payload) ++ 46 ∷ signature))
      ≡ some (b ∷ payload)
unfolding extract_jwt_payload_json
extract_issued header signature b payload no_dot bytes =
    let segment = encode (b ∷ payload) in
    rw (split_at_dot-append header (segment ++ 46 ∷ signature) no_dot, extract_jwt_payload_json)
      (rw
        (
          split_at_dot-append segment signature (encode_no_dot (b ∷ payload)),
          extract_jwt_payload_json,
        )
        (rw (base64_url_decode-encode (b ∷ payload) bytes)))

parsed_valid :
    (o : Option Members) (valid : Members → Bool) (P : Members → Type 0)
    → ((m : Members) → (valid m ≡ true) ↔ P m)
    → ((elim o as (λ _. Bool) [ none ↦ false | some m ↦ valid m ]) ≡ true)
      ↔ ((m : Members) × (o ≡ some m) × P m)
parsed_valid none valid P h = ((λ e. absurd cc), (λ (m, e, _). absurd cc))
parsed_valid (some m) valid P h =
    ((λ e. (m, refl, (h m).0 e)), (λ (k, e, p). let same : k ≡ m = cc in (h m).1 (subst P same p)))

-- A token made of a header without a dot, of a payload in base64 and of a signature is valid exactly
-- if the payload is an object in force: it says of no later time that it begins then, and does not
-- end within a minute.
pub is_participant_token_valid-InForce :
    (parse : Bytes → Option Members) (now : ℕ) (header signature : Bytes) (b : ℕ) (payload : Bytes)
    → NoDot header
    → All IsByte (b ∷ payload)
    → (is_participant_token_valid parse now
          (header ++ 46 ∷ (encode (b ∷ payload) ++ 46 ∷ signature))
        ≡ true)
      ↔ ((members : Members) × (parse (b ∷ payload) ≡ some members) × InForce members now)
unfolding is_participant_token_valid read_numeric_claim
is_participant_token_valid-InForce parse now header signature b payload no_dot bytes =
    rw (extract_issued header signature b payload no_dot bytes, is_participant_token_valid)
      (parsed_valid (parse (b ∷ payload)) _ (λ m. InForce m now)
        (λ m. claims_valid_iff (lookup "nbf" m) (lookup "exp" m) now))
