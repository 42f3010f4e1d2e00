-- ===== src/TokenSource/Base64.antt =====
-- `base64UrlDecode` of src/token_source_jwt.cpp, on lists of bytes.
pub mod RoundTrip
use client_sdk_cpp.Prelude.{
  ℕ, zero, suc, Bool, true, false, ◌&&◌, List, [], ◌∷◌, ◌++◌, Option, none, some, if◌then◌else◌,
  ◌==◌, ltb, leb, length, ◌+◌, ◌-◌, ◌*◌, ◌/◌, ◌%◌, ◌^◌,
}

-- `-` and `_` of the URL alphabet stand for `+` and `/`.
unfoldable pub normalised_char : ℕ → ℕ
normalised_char c = if c == 45 then 43 else (if c == 95 then 47 else c)

unfoldable pub normalised : List ℕ → List ℕ
normalised [] = []
normalised (c ∷ cs) = normalised_char c ∷ normalised cs

-- `while (normalized.size() % 4 != 0) normalized += '='`: three rounds at most, and one to see the end.
unfoldable pub pad_loop : ℕ → List ℕ → List ℕ
pad_loop zero cs = cs
pad_loop (suc fuel) cs =
    let more = pad_loop fuel (cs ++ 61 ∷ []) in if length cs % 4 == 0 then cs else more

abbrev pub in_range : ℕ → ℕ → ℕ → Bool
in_range low high c = leb low c && leb c high

-- `kDecodeTable`: `none` for -1.
unfoldable pub decode_table : ℕ → Option ℕ
decode_table c =
    if in_range 65 90 c
    then some (c - 65)
    else (if in_range 97 122 c
        then some (c - 71)
        else (if in_range 48 57 c
            then some (c + 4)
            else (if c == 43 then some 62 else (if c == 47 then some 63 else none))))

-- The byte that a further character completes, if it does.
abbrev pub push : ℕ → ℕ → List ℕ → List ℕ
push buffer bits rest = if leb 8 bits then (buffer / 2 ^ (bits - 8)) % 256 ∷ rest else rest

-- The loop over the characters; `buffer` is 32 bits wide. `(buffer << 6) | value` is a sum, since the
-- six low bits of the shifted buffer are zero.
unfoldable pub decode_loop : List ℕ → ℕ → ℕ → Option (List ℕ)
decode_loop [] buffer bits = some []
decode_loop (c ∷ cs) buffer bits = if c == 61 then some [] else (elim (decode_table c) [
  | none ↦ none
  | some value ↦
      let buffer' = buffer * 64 % 2 ^ 32 + value in
      let bits' = bits + 6 in
      (elim (decode_loop cs buffer' (if leb 8 bits' then bits' - 8 else bits')) [
        | none ↦ none
        | some rest ↦ some (push buffer' bits' rest)
      ])
])

unfoldable pub base64_url_decode : List ℕ → Option (List ℕ)
base64_url_decode input = decode_loop (pad_loop 4 (normalised input)) 0 0
