-- ===== src/TokenSource/Url.antt =====
-- The address of a development server (src/token_source.cpp).
use client_sdk_cpp.Prelude.{
  ℕ, ◌+◌, ◌-◌, Bool, false, ◌||◌, ◌&&◌, [], ◌∷◌, ◌++◌, if◌then◌else◌, ◌==◌, leb, length, take, drop,
  ◌≡◌, ◌≢◌, refl, arith,
}
use client_sdk_cpp.Prelude.Assoc.{insert, string_eq}
use client_sdk_cpp.TokenSource.{Bytes}
use client_sdk_cpp.TokenSource.Json.{is_empty}
use client_sdk_cpp.TokenSource.Sources.{TokenEndpointOptions}

-- `std::isspace` in the C locale.
abbrev pub is_space : ℕ → Bool
is_space c = (c == 32) || (leb 9 c && leb c 13)

-- How many spaces a text begins with.
unfoldable pub leading : Bytes → ℕ
leading [] = 0
leading (c ∷ cs) = let rest = leading cs in if is_space c then 1 + rest else 0

abbrev pub reverse_onto : Bytes → Bytes → Bytes
reverse_onto [] done = done
reverse_onto (c ∷ cs) done = reverse_onto cs (c ∷ done)

-- The ends are counted from both sides, as the two searches find them.
unfoldable pub trim_token_server_id : Bytes → Bytes
trim_token_server_id token_server_id =
    let begin = leading token_server_id in
    let end = length token_server_id - leading (reverse_onto token_server_id []) in
    if leb end begin then [] else take (end - begin) (drop begin token_server_id)

-- `back() == '/'`
abbrev pub ends_with_slash : Bytes → Bool
ends_with_slash [] = false
ends_with_slash (c ∷ []) = c == 47
ends_with_slash (c ∷ d ∷ cs) = ends_with_slash (d ∷ cs)

-- `front() == '/'`
abbrev pub starts_with_slash : Bytes → Bool
starts_with_slash [] = false
starts_with_slash (c ∷ cs) = c == 47

unfoldable pub join_url_path : Bytes → Bytes → Bytes
join_url_path base_url path =
    if is_empty base_url
    then path
    else (if ends_with_slash base_url
        then (if is_empty path
            then base_url
            else (if starts_with_slash path then base_url ++ drop 1 path else base_url ++ path))
        else (if is_empty path
            then base_url
            else (if starts_with_slash path then base_url ++ path else base_url ++ 47 ∷ path)))

-- "https://cloud-api.livekit.io"
abbrev pub default_development_server_base_url : Bytes
default_development_server_base_url =
    104 ∷ 116 ∷ 116 ∷ 112 ∷ 115 ∷ 58 ∷ 47 ∷ 47 ∷ 99 ∷ 108 ∷ 111 ∷ 117 ∷ 100 ∷ 45 ∷ 97 ∷ 112 ∷ 105
    ∷ 46 ∷ 108 ∷ 105 ∷ 118 ∷ 101 ∷ 107 ∷ 105 ∷ 116 ∷ 46 ∷ 105 ∷ 111 ∷ []

-- "/api/v2/sandbox/connection-details"
abbrev pub connection_details_path : Bytes
connection_details_path =
    47 ∷ 97 ∷ 112 ∷ 105 ∷ 47 ∷ 118 ∷ 50 ∷ 47 ∷ 115 ∷ 97 ∷ 110 ∷ 100 ∷ 98 ∷ 111 ∷ 120 ∷ 47 ∷ 99 ∷ 111
    ∷ 110 ∷ 110 ∷ 101 ∷ 99 ∷ 116 ∷ 105 ∷ 111 ∷ 110 ∷ 45 ∷ 100 ∷ 101 ∷ 116 ∷ 97 ∷ 105 ∷ 108 ∷ 115
    ∷ []

unfoldable pub resolve_development_server_endpoint :
    Bytes → TokenEndpointOptions → Bytes → Bytes × TokenEndpointOptions
resolve_development_server_endpoint token_server_id options base_url =
    let id = trim_token_server_id token_server_id in
    let resolved_base_url =
      if is_empty base_url then default_development_server_base_url else base_url in
    (
      join_url_path resolved_base_url connection_details_path,
      record options { headers = insert "X-Sandbox-ID" id options.headers },
    )

-- A path without the slash that it begins with, if any.
abbrev pub without_leading : Bytes → Bytes
without_leading path = if starts_with_slash path then drop 1 path else path

-- An address without the slash that it ends with, if any.
abbrev pub without_trailing : Bytes → Bytes
without_trailing [] = []
without_trailing (c ∷ []) = if c == 47 then [] else c ∷ []
without_trailing (c ∷ d ∷ cs) = c ∷ without_trailing (d ∷ cs)

-- What an address and more make, by its last character.
trailing_split :
    (c : ℕ) (cs more : Bytes)
    → (c ∷ cs) ++ more ≡ (
        if ends_with_slash (c ∷ cs)
        then without_trailing (c ∷ cs) ++ 47 ∷ more
        else without_trailing (c ∷ cs) ++ more)
trailing_split c [] more = ground arith
trailing_split c (d ∷ cs) more = ground (arith, trailing_split d cs more)

-- An address and a path, neither of them empty, are joined by one slash, whichever of the two brings
-- one along.
join_url_path_one_slash :
    (base_url path : Bytes)
    → base_url ≢ []
    → path ≢ []
    → join_url_path base_url path ≡ without_trailing base_url ++ 47 ∷ without_leading path
unfolding join_url_path
join_url_path_one_slash [] path h k = absurd (h refl)
join_url_path_one_slash (c ∷ cs) [] h k = absurd (k refl)
join_url_path_one_slash (c ∷ cs) (d ∷ ds) h k =
    ground (
      arith,
      trailing_split c cs ds,
      trailing_split c cs (d ∷ ds),
      trailing_split c cs (47 ∷ d ∷ ds),
    )
