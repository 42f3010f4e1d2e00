-- ===== src/TokenSource/Base64/RoundTrip.antt =====
-- The decoder undoes the encoding of RFC 4648, section 5, which issuers of tokens use.
use client_sdk_cpp.Prelude.{
  ◌≢◌, ℕ, zero, suc, false, List, [], ◌∷◌, ◌++◌, some, if◌then◌else◌, ◌==◌, ltb, leb, length, All,
  ◌+◌, ◌-◌, ◌*◌, ◌/◌, ◌%◌, ◌^◌, ◌<◌, ◌≡◌, refl, sym, ◌∙◌, arith, append_assoc, append-nil, if_rule,
}
use client_sdk_cpp.TokenSource.Base64.{
  normalised_char, normalised, pad_loop, decode_table, push, decode_loop, base64_url_decode,
}

-- The character for six bits, in the URL alphabet.
encode_char : ℕ → ℕ
encode_char v =
    if ltb v 26
    then v + 65
    else (if ltb v 52 then v + 71 else (if ltb v 62 then v - 4 else (if v == 62 then 45 else 95)))

-- Base64 without padding: three bytes give four characters, and the end is shorter.
unfoldable pub encode : List ℕ → List ℕ
unfolding encode_char
encode [] = []
encode (a ∷ []) = encode_char (a / 4) ∷ encode_char (a % 4 * 16) ∷ []
encode (a ∷ b ∷ []) =
    encode_char (a / 4) ∷ encode_char (a % 4 * 16 + b / 16) ∷ encode_char (b % 16 * 4) ∷ []
encode (a ∷ b ∷ c ∷ rest) =
    encode_char (a / 4)
    ∷ encode_char (a % 4 * 16 + b / 16)
    ∷ encode_char (b % 16 * 4 + c / 64)
    ∷ encode_char (c % 64)
    ∷ encode rest

abbrev pub IsByte : ℕ → Type 0
IsByte b = b < 256

-- The padding.
equals : ℕ → List ℕ
equals zero = []
equals (suc k) = 61 ∷ equals k

decode_equals : (k buffer bits : ℕ) → decode_loop (equals k) buffer bits ≡ some []
unfolding equals decode_loop
decode_equals zero buffer bits = refl
decode_equals (suc k) buffer bits = refl

char_decodes :
    (v : ℕ)
    → v < 64
    → ((normalised_char (encode_char v) == 61) ≡ false)
      × (decode_table (normalised_char (encode_char v)) ≡ some v)
unfolding normalised_char encode_char decode_table
char_decodes v h = ground arith

-- One character, which stands for `v`.
step :
    (v buffer bits : ℕ) (cs rest : List ℕ)
    → v < 64
    → (let buffer' = buffer * 64 % 2 ^ 32 + v in
        decode_loop cs buffer' (if leb 8 (bits + 6) then bits + 6 - 8 else bits + 6) ≡ some rest)
    → decode_loop (normalised_char (encode_char v) ∷ cs) buffer bits
      ≡ some (push (buffer * 64 % 2 ^ 32 + v) (bits + 6) rest)
unfolding decode_loop
step v buffer bits cs rest h e =
    let (a, b) = char_decodes v h in rw (a, decode_loop) (rw (b, decode_loop) (rw e))

-- The bytes that come out of the buffer, whatever stands above them in it.
first_byte :
    (buffer a low : ℕ)
    → a < 256
    → low < 16
    → ((buffer * 64 % 2 ^ 32 + a / 4) * 64 % 2 ^ 32 + (a % 4 * 16 + low)) / 2 ^ 4 % 256 ≡ a
first_byte buffer a low h k = omega arith

second_byte :
    (buffer high b low : ℕ)
    → b < 256
    → low < 4
    → ((buffer * 64 % 2 ^ 32 + (high * 16 + b / 16)) * 64 % 2 ^ 32 + (b % 16 * 4 + low))
        / 2 ^ 2
        % 256
      ≡ b
second_byte buffer high b low h k = omega arith

third_byte :
    (buffer high c : ℕ)
    → c < 256
    → ((buffer * 64 % 2 ^ 32 + (high * 4 + c / 64)) * 64 % 2 ^ 32 + c % 64) / 2 ^ 0 % 256 ≡ c
third_byte buffer high c h = omega arith

-- One round of the encoder.
decode_triple :
    (a b c buffer : ℕ) (cs rest : List ℕ)
    → IsByte a
    → IsByte b
    → IsByte c
    → ((buffer' : ℕ) → decode_loop cs buffer' 0 ≡ some rest)
    → decode_loop
        (normalised_char (encode_char (a / 4))
          ∷ normalised_char (encode_char (a % 4 * 16 + b / 16))
          ∷ normalised_char (encode_char (b % 16 * 4 + c / 64))
          ∷ normalised_char (encode_char (c % 64))
          ∷ cs)
        buffer
        0
      ≡ some (a ∷ b ∷ c ∷ rest)
decode_triple a b c buffer cs rest ha hb hc ih =
    let b1 = buffer * 64 % 2 ^ 32 + a / 4 in
    let b2 = b1 * 64 % 2 ^ 32 + (a % 4 * 16 + b / 16) in
    let b3 = b2 * 64 % 2 ^ 32 + (b % 16 * 4 + c / 64) in
    let four = step (c % 64) b3 2 cs rest (omega arith) (ih (b3 * 64 % 2 ^ 32 + c % 64)) in
    let three = step (b % 16 * 4 + c / 64) b2 4 _ _ (omega arith) four in
    let two = step (a % 4 * 16 + b / 16) b1 6 _ _ (omega arith) three in
    let one = step (a / 4) buffer 0 _ _ (omega arith) two in
    let fa = first_byte buffer a (b / 16) ha (omega arith) in
    let fb = second_byte b1 (a % 4) b (c / 64) hb (omega arith) in
    let fc = third_byte b2 (b % 16) c hc in one ∙ rw (fa, fb, fc)

decode-encode :
    (bs : List ℕ) (k buffer : ℕ)
    → All IsByte bs
    → decode_loop (normalised (encode bs) ++ equals k) buffer 0 ≡ some bs
unfolding encode normalised
decode-encode [] k buffer h = decode_equals k buffer 0
decode-encode (a ∷ []) k buffer (h, _) =
    let b1 = buffer * 64 % 2 ^ 32 + a / 4 in
    let two = step (a % 4 * 16) b1 6 (equals k) [] (omega arith) (decode_equals k _ 4) in
    let fa : (b1 * 64 % 2 ^ 32 + a % 4 * 16) / 2 ^ 4 % 256 ≡ a = omega arith in
    step (a / 4) buffer 0 _ _ (omega arith) two ∙ rw fa
decode-encode (a ∷ b ∷ []) k buffer (ha, (hb, _)) =
    let b1 = buffer * 64 % 2 ^ 32 + a / 4 in
    let b2 = b1 * 64 % 2 ^ 32 + (a % 4 * 16 + b / 16) in
    let three = step (b % 16 * 4) b2 4 (equals k) [] (omega arith) (decode_equals k _ 2) in
    let two = step (a % 4 * 16 + b / 16) b1 6 _ _ (omega arith) three in
    let fa = first_byte buffer a (b / 16) ha (omega arith) in
    let fb : (b2 * 64 % 2 ^ 32 + b % 16 * 4) / 2 ^ 2 % 256 ≡ b = omega arith in
    step (a / 4) buffer 0 _ _ (omega arith) two ∙ rw (fa, fb)
decode-encode (a ∷ b ∷ c ∷ rest) k buffer (ha, (hb, (hc, h))) =
    decode_triple a b c buffer _ rest ha hb hc (λ buffer'. decode-encode rest k buffer' h)

pad_loop-equals : (fuel : ℕ) (cs : List ℕ) → (k : ℕ) × (pad_loop fuel cs ≡ cs ++ equals k)
unfolding pad_loop equals
pad_loop-equals zero cs = (0, sym (append-nil cs))
pad_loop-equals (suc fuel) cs =
    if_rule {A = List ℕ} (λ ds. (k : ℕ) × (ds ≡ cs ++ equals k)) (length cs % 4 == 0)
      (λ _. (0, sym (append-nil cs)))
      (λ _.
        let (k, e) = pad_loop-equals fuel (cs ++ 61 ∷ []) in
        (suc k, e ∙ append_assoc cs (61 ∷ []) (equals k)))

-- Decoding the unpadded encoding of bytes, in the URL alphabet, gives the bytes.
pub base64_url_decode-encode :
    (bs : List ℕ) → All IsByte bs → base64_url_decode (encode bs) ≡ some bs
unfolding base64_url_decode
base64_url_decode-encode bs h =
    let (k, e) = pad_loop-equals 4 (normalised (encode bs)) in rw e (decode-encode bs k 0 h)

encode_char_no_dot : (v : ℕ) → encode_char v ≢ 46
unfolding encode_char
encode_char_no_dot v = ground arith

-- No character of the encoding is a dot.
pub encode_no_dot : (bs : List ℕ) → All (λ c. c ≢ 46) (encode bs)
unfolding encode
encode_no_dot [] = tt
encode_no_dot (a ∷ []) = (encode_char_no_dot (a / 4), (encode_char_no_dot (a % 4 * 16), tt))
encode_no_dot (a ∷ b ∷ []) = (
  encode_char_no_dot (a / 4),
  (encode_char_no_dot (a % 4 * 16 + b / 16), (encode_char_no_dot (b % 16 * 4), tt)),
)
encode_no_dot (a ∷ b ∷ c ∷ bs) = (
  encode_char_no_dot (a / 4),
  (
    encode_char_no_dot (a % 4 * 16 + b / 16),
    (encode_char_no_dot (b % 16 * 4 + c / 64), (encode_char_no_dot (c % 64), encode_no_dot bs)),
  ),
)
