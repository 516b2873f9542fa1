-- ===== src/Export/Unpadded.antt =====
-- `_unb64` reads what `_b64` writes (src/dsh_api/export_service.py).
use Prim.Native.Char.{Char, code}
use mathlib.Core.List.{reverse-append, reverse-reverse}
use dsh_api.Prelude.{
  ℕ, zero, suc, ◌+◌, ◌*◌, ◌/◌, ◌%◌, ◌<◌, ◌≡◌, refl, ap, ◌∙◌, Bool, true, false, ◌&&◌, not, Option,
  none, some, List, [], ◌∷◌, ◌++◌, All, any, any-reverse, length, leb, eqb, reverse, arith,
}
use dsh_api.Prelude.Chars.{chars, text, is_char, chars-text}
use dsh_api.Prelude.Splitting.{rstrip, strip_front}
use dsh_api.Export.Base64.{
  Bytes, is_pad, nth, digit, encode, b64, value_of, Quad, none_read, one_read, two_read, three_read,
  with_byte, on_value, decode, pads, missing, unb64,
}

-- Every number below 64.
all_below : ℕ → (ℕ → Bool) → Bool
all_below zero p = true
all_below (suc n) p = p n && all_below n p

below : (n : ℕ) (p : ℕ → Bool) (x : ℕ) → all_below n p ≡ true → x < n → p x ≡ true
unfolding all_below
below zero p x h lt = absurd (omega arith)
below (suc n) p x h lt = ground (arith, below n p x)

abbrev is_number : ℕ → Option ℕ → Bool
is_number n none = false
is_number n (some m) = eqb m n

-- A digit is ASCII, no pad and no dot, and stands for its number.
abbrev is_dot : Char → Bool
is_dot = is_char b'.'

abbrev fits : ℕ → Bool
fits n =
    not (is_pad (digit n))
    && (not (is_dot (digit n))
        && (not (leb 128 (code (digit n))) && is_number n (value_of (code (digit n)))))

table : all_below 64 fits ≡ true
unfolding all_below digit nth chars
table = refl

record IsDigit (c : Char) (n : ℕ) : Type 0 where
  no_pad : is_pad c ≡ false
  no_dot : is_dot c ≡ false
  ascii : leb 128 (code c) ≡ false
  value : value_of (code c) ≡ some n

number : (n : ℕ) (o : Option ℕ) → is_number n o ≡ true → o ≡ some n
number n none h = absurd (ground (arith, h))
number n (some m) h = ap some (ground arith)

digit-IsDigit : (n : ℕ) → n < 64 → IsDigit (digit n) n
digit-IsDigit n lt =
    let all : fits n ≡ true = below 64 fits n table lt in
    record {
      no_pad = ground (arith, all);
      no_dot = ground (arith, all);
      ascii = ground (arith, all);
      value = number n (value_of (code (digit n))) (ground (arith, all));
    }

abbrev pub IsByte : ℕ → Type 0
IsByte b = b < 256

-- The digits without the pads, and how many pads there were.
unfoldable digits : Bytes → List Char
digits [] = []
digits (a ∷ []) = digit (a / 4) ∷ digit (a % 4 * 16) ∷ []
digits (a ∷ b ∷ []) = digit (a / 4) ∷ digit (a % 4 * 16 + b / 16) ∷ digit (b % 16 * 4) ∷ []
digits (a ∷ b ∷ c ∷ more) =
    digit (a / 4)
    ∷ digit (a % 4 * 16 + b / 16)
    ∷ digit (b % 16 * 4 + c / 64)
    ∷ digit (c % 64)
    ∷ digits more

unfoldable padded : Bytes → ℕ
padded [] = 0
padded (a ∷ []) = 2
padded (a ∷ b ∷ []) = 1
padded (a ∷ b ∷ c ∷ more) = padded more

encode-digits : (bs : Bytes) → encode bs ≡ digits bs ++ pads (padded bs)
unfolding encode digits padded pads
encode-digits [] = refl
encode-digits (a ∷ []) = refl
encode-digits (a ∷ b ∷ []) = refl
encode-digits (a ∷ b ∷ c ∷ more) =
    ap
      (λ (t : List Char).
        digit (a / 4)
        ∷ digit (a % 4 * 16 + b / 16)
        ∷ digit (b % 16 * 4 + c / 64)
        ∷ digit (c % 64)
        ∷ t)
      (encode-digits more)

-- A test that no digit passes.
none_pass :
    (p : Char → Bool)
    → ((n : ℕ) → n < 64 → p (digit n) ≡ false)
    → (bs : Bytes) → All IsByte bs
    → any p (digits bs) ≡ false
unfolding digits
none_pass p free [] h = refl
none_pass p free (a ∷ []) (ha, _) =
    ground (arith, free (a / 4) (omega arith), free (a % 4 * 16) (omega arith))
none_pass p free (a ∷ b ∷ []) (ha, rest) =
    let hb : b < 256 = rest.0 in
    ground (
      arith,
      free (a / 4) (omega arith),
      free (a % 4 * 16 + b / 16) (omega arith),
      free (b % 16 * 4) (omega arith),
    )
none_pass p free (a ∷ b ∷ c ∷ more) (ha, rest) =
    let hb : b < 256 = rest.0 in
    let rest' : IsByte c × All IsByte more = rest.1 in
    let hc : c < 256 = rest'.0 in
    let h : All IsByte more = rest'.1 in
    ground (
      arith,
      free (a / 4) (omega arith),
      free (a % 4 * 16 + b / 16) (omega arith),
      free (b % 16 * 4 + c / 64) (omega arith),
      free (c % 64) (omega arith),
      none_pass p free more h,
    )

-- The length tells how many pads there were.
length-digits : (bs : Bytes) → missing (length (digits bs)) ≡ padded bs
unfolding digits padded
length-digits [] = refl
length-digits (a ∷ []) = refl
length-digits (a ∷ b ∷ []) = refl
length-digits (a ∷ b ∷ c ∷ more) = omega (arith, length-digits more)

-- What is stripped in front, and what is left.
strip_skip :
    (xs cs : List Char)
    → any (λ c. not (is_pad c)) xs ≡ false
    → strip_front is_pad (xs ++ cs) ≡ strip_front is_pad cs
strip_skip [] cs h = refl
strip_skip (x ∷ xs) cs h = ground (arith, strip_skip xs cs)

strip_none : (xs : List Char) → any is_pad xs ≡ false → strip_front is_pad xs ≡ xs
strip_none [] h = refl
strip_none (x ∷ xs) h = ground (arith, h)

only_pads : (n : ℕ) → any (λ c. not (is_pad c)) (pads n) ≡ false
unfolding pads
only_pads zero = refl
only_pads (suc n) = only_pads n

b64-digits : (bs : Bytes) → All IsByte bs → b64 bs ≡ text (digits bs)
unfolding b64 rstrip
b64-digits bs h =
    rw
      (
        chars-text (encode bs),
        encode-digits bs,
        reverse-append (digits bs) (pads (padded bs)),
        strip_skip (reverse (pads (padded bs))) (reverse (digits bs))
            (any-reverse (λ c. not (is_pad c)) (pads (padded bs)) ∙ only_pads (padded bs)),
        strip_none (reverse (digits bs)) (
            any-reverse is_pad (digits bs)
            ∙ none_pass is_pad (λ n lt. (digit-IsDigit n lt).no_pad) bs h),
        reverse-reverse (digits bs),
      )
      refl

-- One digit.
step :
    (n : ℕ) (cs : List Char) (quad : Quad) (seen : ℕ)
    → n < 64
    → decode (digit n ∷ cs) quad seen ≡ on_value n quad (λ q. decode cs q 0)
unfolding decode
step n cs quad seen lt = let is = digit-IsDigit n lt in rw (is.no_pad, is.value) refl

two :
    (n m : ℕ) (cs : List Char)
    → n < 64
    → m < 64
    → decode (digit n ∷ digit m ∷ cs) none_read 0
      ≡ with_byte (n * 4 + m / 16) (decode cs (two_read (m % 16)) 0)
two n m cs ln lm = step n (digit m ∷ cs) none_read 0 ln ∙ step m cs (one_read n) 0 lm

three :
    (n m k : ℕ) (cs : List Char)
    → n < 64
    → m < 64
    → k < 64
    → decode (digit n ∷ digit m ∷ digit k ∷ cs) none_read 0
      ≡ with_byte
          (n * 4 + m / 16)
          (with_byte (m % 16 * 16 + k / 4) (decode cs (three_read (k % 4)) 0))
three n m k cs ln lm lk =
    two n m (digit k ∷ cs) ln lm
    ∙ ap (with_byte (n * 4 + m / 16)) (step k cs (two_read (m % 16)) 0 lk)

four :
    (n m k v : ℕ) (cs : List Char)
    → n < 64
    → m < 64
    → k < 64
    → v < 64
    → decode (digit n ∷ digit m ∷ digit k ∷ digit v ∷ cs) none_read 0
      ≡ with_byte
          (n * 4 + m / 16)
          (with_byte (m % 16 * 16 + k / 4) (with_byte (k % 4 * 64 + v) (decode cs none_read 0)))
four n m k v cs ln lm lk lv =
    three n m k (digit v ∷ cs) ln lm lk
    ∙ ap (λ (t : Option Bytes). with_byte (n * 4 + m / 16) (with_byte (m % 16 * 16 + k / 4) t))
        (step v cs (three_read (k % 4)) 0 lv)

at_end : decode [] none_read 0 ≡ some []
unfolding decode
at_end = refl

after_two : (left : ℕ) → decode ("=" ∷ "=" ∷ []) (two_read left) 0 ≡ some []
unfolding decode
after_two left = refl

after_three : (left : ℕ) → decode ("=" ∷ []) (three_read left) 0 ≡ some []
unfolding decode
after_three left = refl

byte : (a b : ℕ) (o p : Option Bytes) → a ≡ b → o ≡ p → with_byte a o ≡ with_byte b p
byte a b o p same rest i = with_byte (same i) (rest i)

decode-digits :
    (bs : Bytes) → All IsByte bs → decode (digits bs ++ pads (padded bs)) none_read 0 ≡ some bs
unfolding digits padded pads
decode-digits [] h = at_end
decode-digits (a ∷ []) (ha, _) =
    two (a / 4) (a % 4 * 16) ("=" ∷ "=" ∷ []) (omega arith) (omega arith)
    ∙ byte _ a _ (some []) (omega arith) (after_two (a % 4 * 16 % 16))
decode-digits (a ∷ b ∷ []) (ha, rest) =
    let hb : b < 256 = rest.0 in
    three (a / 4) (a % 4 * 16 + b / 16) (b % 16 * 4) ("=" ∷ []) (omega arith) (omega arith)
      (omega arith)
    ∙ byte _ a _ (some (b ∷ [])) (omega arith)
        (byte _ b _ (some []) (omega arith) (after_three (b % 16 * 4 % 4)))
decode-digits (a ∷ b ∷ c ∷ more) (ha, rest) =
    let hb : b < 256 = rest.0 in
    let rest' : IsByte c × All IsByte more = rest.1 in
    let hc : c < 256 = rest'.0 in
    let h : All IsByte more = rest'.1 in
    four (a / 4) (a % 4 * 16 + b / 16) (b % 16 * 4 + c / 64) (c % 64)
      (digits more ++ pads (padded more)) (omega arith) (omega arith) (omega arith) (omega arith)
    ∙ byte _ a _ (some (b ∷ c ∷ more)) (omega arith) (
        byte _ b _ (some (c ∷ more)) (omega arith)
          (byte _ c _ (some more) (omega arith) (decode-digits more h)))

-- What is written is read.
pub unb64-b64 : (bs : Bytes) → All IsByte bs → unb64 (b64 bs) ≡ some bs
unfolding unb64
unb64-b64 bs h =
    rw
      (
        b64-digits bs h,
        chars-text (digits bs),
        none_pass (λ c. leb 128 (code c)) (λ n lt. (digit-IsDigit n lt).ascii) bs h,
        length-digits bs,
      )
      (decode-digits bs h)

-- There is no dot in it.
pub b64-dot : (bs : Bytes) → All IsByte bs → any is_dot (chars (b64 bs)) ≡ false
b64-dot bs h =
    rw (b64-digits bs h, chars-text (digits bs))
      (none_pass is_dot (λ n lt. (digit-IsDigit n lt).no_dot) bs h)

-- A test that bytes pass.
pub All-IsByte : (bs : Bytes) → any (leb 256) bs ≡ false → All IsByte bs
All-IsByte [] h = tt
All-IsByte (b ∷ bs) h = (ground (arith, h), All-IsByte bs (ground (arith, h)))
