-- ===== src/Tests/TokenSources.antt =====
-- Examples for the token sources.
use client_sdk_cpp.Prelude.{true, List, [], ◌∷◌, ◌++◌, Option, none, some, ◌≡◌, ◌↔◌, arith}
use client_sdk_cpp.TokenSource.{Bytes, TokenSourceResponse, TokenRequestOptions, success}
use client_sdk_cpp.TokenSource.Json.{Members, number, pos}
use client_sdk_cpp.TokenSource.Base64.RoundTrip.{encode}
use client_sdk_cpp.TokenSource.Jwt.{
  is_participant_token_valid, InForce, is_participant_token_valid-InForce,
}
use client_sdk_cpp.TokenSource.Sources.{Work, returns}
use client_sdk_cpp.TokenSource.Cache.{new_cache, caching_fetch, cached_response}
use client_sdk_cpp.TokenSource.Cache.Refines.{
  Call, fetches, invalidates, run, last_success, Given, caching_fetch_refines,
}
use mathlib.Core.Option.{map}

abbrev parse_expiring : Bytes → Option Members
parse_expiring text = some (("exp", number (pos 2000)) ∷ [])

-- The payload is `{}`.
is_participant_token_valid-InForce_example :
    (is_participant_token_valid parse_expiring 1000
        ((104 ∷ []) ++ 46 ∷ (encode (123 ∷ 125 ∷ []) ++ 46 ∷ 115 ∷ []))
      ≡ true)
    ↔ ((members : Members) × (parse_expiring (123 ∷ 125 ∷ []) ≡ some members)
        × InForce members 1000)
is_participant_token_valid-InForce_example =
    is_participant_token_valid-InForce parse_expiring 1000 (104 ∷ []) (115 ∷ []) 123 (125 ∷ [])
      ((λ e. omega arith), tt) (omega arith, (omega arith, tt))

abbrev asked : TokenRequestOptions
asked = record {
  room_name = some (114 ∷ []);
  participant_name = none;
  participant_identity = none;
  participant_metadata = none;
  participant_attributes = [];
  agent_name = none;
  agent_metadata = none;
  agent_deployment = none;
}

abbrev given : TokenSourceResponse
given = record {
  server_url = 117 ∷ [];
  participant_token = 116 ∷ [];
  participant_name = none;
  room_name = none;
}

abbrev gives : TokenRequestOptions → Work
gives options = returns (success given)

abbrev calls : List Call
calls = fetches (λ token. true) gives asked ∷ invalidates ∷ fetches (λ token. true) gives asked ∷ []

caching_fetch_refines_example :
    let (c, seen) = run calls (new_cache, []) in
    (cached_response c ≡ map (λ m. m.1) (last_success seen))
    × Given
        (λ token. true)
        gives
        asked
        (last_success seen)
        (caching_fetch (λ token. true) gives asked c).0
caching_fetch_refines_example = caching_fetch_refines calls (λ token. true) gives asked
