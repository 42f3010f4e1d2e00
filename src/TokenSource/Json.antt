-- ===== src/TokenSource/Json.antt =====
-- The JSON of a token server (src/token_source_json.cpp). Parsing is the JSON library's: `parse` gives
-- the members of an object, and `none` for a text that is malformed or is not an object.
use client_sdk_cpp.Prelude.{
  ℕ, Bool, true, false, ◌||◌, List, [], ◌∷◌, Option, none, some, String, if◌then◌else◌, is_some,
}
use client_sdk_cpp.Prelude.Assoc.{lookup, insert, string_eq}
use client_sdk_cpp.TokenSource.{
  Bytes, bytes_eq, TokenSourceResponse, TokenRequestOptions, TokenSourceResult, success, failure,
}

-- A number is given as the code reads it, with `get<std::int64_t>()`.
pub data ℤ : Type 0 where
  pos : ℕ → ℤ
  negsuc : ℕ → ℤ

-- A member's value, as far as the code tells it apart.
pub data Json : Type 0 where
  number : ℤ → Json
  string : Bytes → Json
  other : Json

abbrev pub Members : Type 0
Members = List (String × Json)

abbrev pub is_empty : Bytes → Bool
is_empty [] = true
is_empty _ = false

-- One round of `readStringField`'s loop.
abbrev pub string_member : Members → String → Option Bytes
string_member obj key = elim (lookup key obj) [
  | some (string v) ↦ (if is_empty v then none else some v)
  | _ ↦ none
]

unfoldable pub read_string_field : Members → String → String → Option Bytes
read_string_field obj snake_key camel_key = elim (string_member obj snake_key) [
  | some v ↦ some v
  | none ↦ string_member obj camel_key
]

abbrev pub text_of : Option Bytes → Bytes
text_of o = elim o [ some v ↦ v | none ↦ [] ]

-- The response before its checks, which for another value than an object is empty.
abbrev pub details_of : Option Members → TokenSourceResponse
details_of none = record {
  server_url = [];
  participant_token = [];
  participant_name = none;
  room_name = none;
}
details_of (some obj) = record {
  server_url = text_of (read_string_field obj "server_url" "serverUrl");
  participant_token = text_of (read_string_field obj "participant_token" "participantToken");
  participant_name = read_string_field obj "participant_name" "participantName";
  room_name = read_string_field obj "room_name" "roomName";
}

unfoldable pub parse_token_source_response_json :
    (Bytes → Option Members) → Bytes → TokenSourceResult
parse_token_source_response_json parse json_text =
    let details = details_of (parse json_text) in
    if is_empty details.server_url
    then failure "token server response missing server_url"
    else (if is_empty details.participant_token
        then failure "token server response missing participant_token"
        else success details)

-- The values of a request's body: a string, the attributes, and `{"agents": [agent]}`.
pub data RequestValue : Type 0 where
  field : Bytes → RequestValue
  attributes : List (Bytes × Bytes) → RequestValue
  agents : List (String × Bytes) → RequestValue

abbrev pub Body : Type 0
Body = List (String × RequestValue)

-- `set_optional`
abbrev pub set_optional : String → Option Bytes → Body → Body
set_optional key none body = body
set_optional key (some v) body = if is_empty v then body else insert key (field v) body

-- The loop over the attributes: an empty key is left out.
unfoldable pub request_attributes :
    List (Bytes × Bytes) → List (Bytes × Bytes) → List (Bytes × Bytes)
request_attributes [] made = made
request_attributes ((key, v) ∷ rest) made =
    if is_empty key
    then request_attributes rest made
    else request_attributes rest (insert key v made)

abbrev pub set_agent : String → Option Bytes → List (String × Bytes) → List (String × Bytes)
set_agent key none agent = agent
set_agent key (some v) agent = if is_empty v then agent else insert key v agent

-- The body, which the JSON library writes out.
unfoldable pub build_token_source_request_json : TokenRequestOptions → Body
build_token_source_request_json options =
    let texts : Body = set_optional "participant_metadata" options.participant_metadata (
      set_optional "participant_identity" options.participant_identity (
        set_optional "participant_name" options.participant_name
          (set_optional "room_name" options.room_name []))) in
    let body : Body = (elim options.participant_attributes [
      | [] ↦ texts
      | e ∷ es ↦ insert "participant_attributes" (attributes (request_attributes (e ∷ es) [])) texts
    ]) in
    if is_some options.agent_name
      || is_some options.agent_metadata
      || is_some options.agent_deployment
    then insert "room_config"
        (agents (
          set_agent "deployment" options.agent_deployment (
            set_agent "metadata" options.agent_metadata
              (set_agent "agent_name" options.agent_name []))))
        body
    else body
