-- ===== src/Tracer/Json/Reading.antt =====
-- A reader of JSON strings, as RFC 8259 describes them, gets back what was escaped.
use client_sdk_cpp.Prelude.{
  ℕ, zero, suc, ◌&&◌, List, [], ◌∷◌, ◌++◌, Option, none, some, if◌then◌else◌, ◌==◌, ltb, leb, ◌+◌,
  ◌-◌, ◌*◌, ◌/◌, ◌%◌, ◌<◌, ◌≡◌, refl, arith, append_assoc, ap, ◌∙◌,
}
use client_sdk_cpp.Prelude.Bytes.{hexadecimal, pad_zeros, digit}
use client_sdk_cpp.Tracer.Json.{escape_char, json_escape}

-- Where the reader is: in the text, behind a backslash, or in an escape by number with this many
-- digits to come.
pub data Mode : Type 0 where
  plain escaped : Mode
  number : ℕ → ℕ → Mode

data Move : Type 0 where
  goes : Mode → Move
  gives : ℕ → Move
  ends refuses : Move

hex_value : ℕ → Option ℕ
hex_value c =
    if leb 48 c && leb c 57
    then some (c - 48)
    else (if leb 97 c && leb c 102
        then some (c - 87)
        else (if leb 65 c && leb c 70 then some (c - 55) else none))

-- What a character after a backslash stands for.
escape_of : ℕ → Move
escape_of c =
    if c == 34
    then gives 34
    else (if c == 92
        then gives 92
        else (if c == 47
            then gives 47
            else (if c == b'b'
                then gives 8
                else (if c == b'f'
                    then gives 12
                    else (if c == b'n'
                        then gives 10
                        else (if c == b'r'
                            then gives 13
                            else (if c == b't'
                                then gives 9
                                else (if c == b'u' then goes (number 3 0) else refuses))))))))

move : Mode → ℕ → Move
unfolding escape_of
move plain c =
    if c == 34
    then ends
    else (if c == 92 then goes escaped else (if ltb c 32 then refuses else gives c))
move escaped c = escape_of c
move (number zero n) c = elim (hex_value c) [ none ↦ refuses | some d ↦ gives (n * 16 + d) ]
move (number (suc k) n) c = elim (hex_value c) [
  | none ↦ refuses
  | some d ↦ goes (number k (n * 16 + d))
]

abbrev push : ℕ → Option (List ℕ × List ℕ) → Option (List ℕ × List ℕ)
push c none = none
push c (some (text, rest)) = some (c ∷ text, rest)

-- The text up to the quote that ends it, and what follows. Control characters are refused.
pub read_string : Mode → List ℕ → Option (List ℕ × List ℕ)
unfolding move
read_string m [] = none
read_string m (c ∷ cs) = elim (move m c) [
  | goes m' ↦ read_string m' cs
  | gives b ↦ push b (read_string plain cs)
  | ends ↦ some ([], cs)
  | refuses ↦ none
]

-- The digits of a control character.
hexadecimal_control :
    (c : ℕ) → c < 32 → hexadecimal c ≡ (if ltb c 16 then digit c ∷ [] else 49 ∷ digit (c % 16) ∷ [])
unfolding hexadecimal
hexadecimal_control c h = ground arith

padded_control :
    (c : ℕ) → c < 32 → pad_zeros 4 (hexadecimal c) ≡ 48 ∷ 48 ∷ digit (c / 16) ∷ digit (c % 16) ∷ []
unfolding pad_zeros
padded_control c h = ground (arith, hexadecimal_control c h)

hex_value-digit : (d : ℕ) → d < 16 → hex_value (digit d) ≡ some d
unfolding hex_value
hex_value-digit d h = ground arith

hex_value-zero : hex_value 48 ≡ some 0
unfolding hex_value
hex_value-zero = refl

read_digit :
    (k n c : ℕ) {d : ℕ} (cs : List ℕ)
    → hex_value c ≡ some d
    → read_string (number (suc k) n) (c ∷ cs) ≡ read_string (number k (n * 16 + d)) cs
unfolding read_string
read_digit k n c cs e = ground arith

read_last_digit :
    (n c : ℕ) {d : ℕ} (cs : List ℕ)
    → hex_value c ≡ some d
    → read_string (number zero n) (c ∷ cs) ≡ push (n * 16 + d) (read_string plain cs)
unfolding read_string
read_last_digit n c cs e = ground arith

read_number :
    (c : ℕ) (cs : List ℕ)
    → c < 32
    → read_string escaped (b'u' ∷ (pad_zeros 4 (hexadecimal c) ++ cs))
      ≡ push c (read_string plain cs)
unfolding read_string
read_number c cs h =
    let high = hex_value-digit (c / 16) (omega arith) in
    let low = hex_value-digit (c % 16) (omega arith) in
    let value : (((0 * 16 + 0) * 16 + 0) * 16 + c / 16) * 16 + c % 16 ≡ c = omega arith in
    let two = digit (c / 16) ∷ digit (c % 16) ∷ cs in
    ap (λ digits. read_string (number 3 0) (digits ++ cs)) (padded_control c h)
    ∙ read_digit 2 0 48 (48 ∷ two) hex_value-zero
    ∙ read_digit 1 0 48 two hex_value-zero
    ∙ read_digit 0 0 (digit (c / 16)) (digit (c % 16) ∷ cs) high
    ∙ read_last_digit _ _ cs low
    ∙ ap (λ b. push b (read_string plain cs)) value

read_string-escape_char :
    (c : ℕ) (cs : List ℕ) → read_string plain (escape_char c ++ cs) ≡ push c (read_string plain cs)
unfolding escape_char read_string
read_string-escape_char c cs = ground (arith, read_number c cs)

-- Whatever the text, a reader of JSON strings that starts behind the opening quote reads the escaped
-- text up to the closing quote, gets the text back, and has the rest before it.
pub read_string-json_escape :
    (text rest : List ℕ) → read_string plain (json_escape text ++ (34 ∷ rest)) ≡ some (text, rest)
unfolding json_escape read_string
read_string-json_escape [] rest = refl
read_string-json_escape (c ∷ text) rest =
    ap (read_string plain) (append_assoc (escape_char c) (json_escape text) (34 ∷ rest))
    ∙ read_string-escape_char c (json_escape text ++ (34 ∷ rest))
    ∙ ap (push c) (read_string-json_escape text rest)
