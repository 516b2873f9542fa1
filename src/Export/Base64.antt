-- ===== src/Export/Base64.antt =====
-- `_b64` and `_unb64` of src/dsh_api/export_service.py, on base64.urlsafe_b64encode and
-- urlsafe_b64decode, which skips what is no digit.
use Prim.Native.Char.{Char, code}
use dsh_api.Prelude.{
  ℕ, zero, suc, ◌+◌, ◌-◌, ◌*◌, ◌/◌, ◌%◌, String, Bool, ◌||◌, ◌&&◌, Option, none, some, List, [],
  ◌∷◌, ◌++◌, any, length, leb, if◌then◌else◌,
}
use dsh_api.Prelude.Chars.{chars, text, is_char}
use dsh_api.Prelude.Splitting.{rstrip}

abbrev pub Bytes : Type 0
Bytes = List ℕ

abbrev pub is_pad : Char → Bool
is_pad = is_char b'='

-- The digit of a number below 64.
unfoldable pub nth : List Char → ℕ → Char
nth [] n = "="
nth (c ∷ cs) zero = c
nth (c ∷ cs) (suc n) = nth cs n

abbrev pub alphabet : String
alphabet = "ABCDEFGHIJKLMNOPQRSTUVWXYZabcdefghijklmnopqrstuvwxyz0123456789-_"

unfoldable pub digit : ℕ → Char
unfolding nth chars
digit n = nth (chars alphabet) n

-- Of three bytes four digits; the last group is padded.
unfoldable pub encode : Bytes → List Char
unfolding digit
encode [] = []
encode (a ∷ []) = digit (a / 4) ∷ digit (a % 4 * 16) ∷ "=" ∷ "=" ∷ []
encode (a ∷ b ∷ []) = digit (a / 4) ∷ digit (a % 4 * 16 + b / 16) ∷ digit (b % 16 * 4) ∷ "=" ∷ []
encode (a ∷ b ∷ c ∷ more) =
    digit (a / 4)
    ∷ digit (a % 4 * 16 + b / 16)
    ∷ digit (b % 16 * 4 + c / 64)
    ∷ digit (c % 64)
    ∷ encode more

-- `_b64`
unfoldable pub b64 : Bytes → String
unfolding encode text rstrip
b64 bytes = rstrip is_pad (text (encode bytes))

-- The number of a digit; both alphabets are read.
abbrev pub value_of : ℕ → Option ℕ
value_of c =
    if leb b'A' c && leb c b'Z'
    then some (c - b'A')
    else if leb b'a' c && leb c b'z'
    then some (c - b'a' + 26)
    else if leb b'0' c && leb c b'9'
    then some (c - b'0' + 52)
    else if leb b'-' c && leb c b'-' || leb b'+' c && leb c b'+'
    then some 62
    else if leb b'_' c && leb c b'_' || leb b'/' c && leb c b'/'
    then some 63
    else none

-- What is left of the digits read so far, in a group of four.
pub data Quad : Type 0 where
  none_read : Quad
  one_read two_read three_read : (left : ℕ) → Quad

abbrev pub with_byte : ℕ → Option Bytes → Option Bytes
with_byte b none = none
with_byte b (some bs) = some (b ∷ bs)

-- A digit.
abbrev pub on_value : ℕ → Quad → (Quad → Option Bytes) → Option Bytes
on_value v none_read rest = rest (one_read v)
on_value v (one_read left) rest = with_byte (left * 4 + v / 16) (rest (two_read (v % 16)))
on_value v (two_read left) rest = with_byte (left * 16 + v / 4) (rest (three_read (v % 4)))
on_value v (three_read left) rest = with_byte (left * 64 + v) (rest none_read)

-- A pad: enough of them end the data.
abbrev pub on_pad : Quad → (pads : ℕ) → (ℕ → Option Bytes) → Option Bytes
on_pad none_read pads rest = rest pads
on_pad (one_read left) pads rest = rest pads
on_pad (two_read left) pads rest = if leb 1 pads then some [] else rest (suc pads)
on_pad (three_read left) pads rest = some []

-- What is no digit is skipped.
abbrev pub on_char : Option ℕ → (quad : Quad) (pads : ℕ) → (Quad → ℕ → Option Bytes) → Option Bytes
on_char none quad pads rest = rest quad pads
on_char (some v) quad pads rest = on_value v quad (λ q. rest q 0)

abbrev pub at_end : Quad → Option Bytes
at_end none_read = some []
at_end _ = none

unfoldable pub decode : List Char → (quad : Quad) (pads : ℕ) → Option Bytes
decode [] quad pads = at_end quad
decode (c ∷ cs) quad pads =
    if is_pad c
    then on_pad quad pads (decode cs quad)
    else on_char (value_of (code c)) quad pads (decode cs)

unfoldable pub pads : ℕ → List Char
pads zero = []
pads (suc n) = "=" ∷ pads n

-- `-len(text) % 4`
abbrev pub missing : ℕ → ℕ
missing n = (4 - n % 4) % 4

-- `_unb64`: a character that is not ASCII is a ValueError, as missing digits are.
unfoldable pub unb64 : String → Option Bytes
unfolding decode pads chars
unb64 s =
    if any (λ c. leb 128 (code c)) (chars s)
    then none
    else decode (chars s ++ pads (missing (length (chars s)))) none_read 0
