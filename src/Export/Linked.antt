-- ===== src/Export/Linked.antt =====
-- What the signed links open (src/dsh_api/export_service.py).
use Prim.Native.Char.{Char}
use mathlib.Core.List.{append-nil}
use dsh_api.Prelude.{
  All, ℕ, pos, String, ◌≡◌, refl, ap, ◌∙◌, Bool, true, false, some, List, [], ◌∷◌, ◌++◌, any,
  concat, arith,
}
use dsh_api.Prelude.Chars.{chars, is_char, is_digit, text-chars}
use dsh_api.Prelude.Decimal.{decimal}
use dsh_api.Prelude.Numerals.{parse_digits-decimal, parse_int-decimal, digits_only}
use dsh_api.Prelude.Splitting.{
  split_once, split_once-append, split_at-append, split_at-free, chars-concat,
}
use dsh_api.Export.Base64.{Bytes, b64}
use dsh_api.Export.Unpadded.{IsByte, unb64-b64, b64-dot}
use dsh_api.Export.Links.{LinkCodec, Token, payload_text, sign, pieces_of, of_halves, read_token}

abbrev is_dot : Char → Bool
is_dot = is_char b'.'

-- No dot is in the text.
abbrev pub IsDotless : String → Type 0
IsDotless s = any is_dot (chars s) ≡ false

digit_no_dot : (c : Char) → is_digit c ≡ true → is_dot c ≡ false
digit_no_dot c h = ground arith

decimal-IsDotless : (n : ℕ) → IsDotless (decimal n)
decimal-IsDotless n =
    digits_only is_dot (chars (decimal n)) 0 n digit_no_dot (parse_digits-decimal n)

-- A text before a dot, and what follows.
chars_dot :
    (s : String) (rest : List String)
    → chars (concat (s ∷ "." ∷ rest)) ≡ chars s ++ "." ∷ chars (concat rest)
unfolding chars
chars_dot s rest =
    chars-concat s ("." ∷ rest) ∙ ap (λ (t : List Char). chars s ++ t) (chars-concat "." rest)

chars_last : (s : String) → chars (concat (s ∷ [])) ≡ chars s
unfolding chars
chars_last s = chars-concat s [] ∙ append-nil (chars s)

pieces_of-payload_text :
    (server id : String) (expires : ℕ)
    → IsDotless server
    → IsDotless id
    → pieces_of (payload_text server id expires) ≡ server ∷ id ∷ decimal expires ∷ []
pieces_of-payload_text server id expires plain plain_id =
    rw
      (
        chars_dot server (id ∷ "." ∷ decimal expires ∷ []),
        chars_dot id (decimal expires ∷ []),
        chars_last (decimal expires),
        split_at-append is_dot (chars server) (chars id ++ "." ∷ chars (decimal expires)) "." plain
            refl,
        split_at-append is_dot (chars id) (chars (decimal expires)) "." plain_id refl,
        split_at-free is_dot (chars (decimal expires)) (decimal-IsDotless expires),
        text-chars server,
        text-chars id,
        text-chars (decimal expires),
      )
      refl

halves :
    (a b : String)
    → IsDotless a
    → split_once is_dot (chars (concat (a ∷ "." ∷ b ∷ []))) ≡ some (chars a, chars b)
halves a b plain =
    ap (split_once is_dot) (chars_dot a (b ∷ []))
    ∙ split_once-append is_dot (chars a) (chars (concat (b ∷ []))) "." plain refl
    ∙ ap (λ (t : List Char). some (chars a, t)) (chars_last b)

-- What a payload needs to come through: it is read back from its bytes, and they and the MAC are
-- bytes, of which each is equal to itself.
pub record IsCarried (codec : LinkCodec) (payload : String) : Type 0 where
  pub decoded : codec.decode (codec.encode payload) ≡ some payload
  pub payload_bytes : All IsByte (codec.encode payload)
  pub mac_bytes : All IsByte (codec.mac (codec.encode payload))
  pub equal :
      codec.same (codec.mac (codec.encode payload)) (codec.mac (codec.encode payload)) ≡ true

module _ (codec : LinkCodec) where
  abbrev pub token_of : (server id : String) → ℕ → Token
  token_of server id expires = record {
    payload = codec.encode (payload_text server id expires);
    signature = codec.mac (codec.encode (payload_text server id expires));
    server = server;
    export_id = id;
    expires = pos expires;
  }

  -- What was signed is read.
  pub read_token-sign :
      (server id : String) (expires : ℕ)
      → IsDotless server
      → IsDotless id
      → IsCarried codec (payload_text server id expires)
      → read_token codec (sign codec server id expires) ≡ some (token_of server id expires)
  unfolding read_token sign
  read_token-sign server id expires plain plain_id carried =
      let payload : Bytes = codec.encode (payload_text server id expires) in
      ap (of_halves codec)
        (halves (b64 payload) (b64 (codec.mac payload)) (b64-dot payload carried.payload_bytes))
      ∙ rw
          (
            text-chars (b64 payload),
            text-chars (b64 (codec.mac payload)),
            unb64-b64 payload carried.payload_bytes,
            unb64-b64 (codec.mac payload) carried.mac_bytes,
            carried.decoded,
            pieces_of-payload_text server id expires plain plain_id,
            parse_int-decimal expires,
          )
          refl
