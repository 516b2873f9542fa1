-- ===== src/Export/Links.antt =====
-- The signed links of `ExportService` (src/dsh_api/export_service.py).
use Prim.Native.Char.{Char}
use dsh_api.Prelude.{
  ℕ, ℤ, pos, negsuc, ◌+◌, ◌*◌, ◌/◌, String, Bool, true, ◌||◌, not, Option, none, some, List, [],
  ◌∷◌, concat, map, ltb, ◌==◌, if◌then◌else◌,
}
use dsh_api.Prelude.Chars.{chars, text, is_char}
use dsh_api.Prelude.Decimal.{decimal, parse_int}
use dsh_api.Prelude.Splitting.{split_once, split_at}
use dsh_api.Action.{Act, Error, ok, err, export_conflict, export_not_found, refuse_if, ◌>>=◌, ◌>>◌}
use dsh_api.Config.{Settings, api_url}
use dsh_api.Db.Rows.{ExportRow, micros}
use dsh_api.Db.Exports.{get_export}
use dsh_api.Cluster.Backend.{ClusterBackend}
use dsh_api.Export.Base64.{Bytes, b64, unb64}
use dsh_api.Export.Exporter.{
  Exporter, is_expired, is_export_id, require_enabled, owned_export, link_ttl,
}
use dsh_api.Export.Requests.{is_done, path_in, has_file}

-- What the links use of hashlib, hmac and the coding of texts: `mac` is the HMAC under the
-- key of the links, `same` is `compare_digest`, and what raises a ValueError is `none`.
pub record LinkCodec : Type 0 where
  pub encode : String → Bytes
  pub decode : Bytes → Option String
  pub mac : Bytes → Bytes
  pub same : Bytes → Bytes → Bool

-- What a token says.
pub record Token : Type 0 where
  pub payload : Bytes
  pub signature : Bytes
  pub server : String
  pub export_id : String
  pub expires : ℤ

abbrev pub payload_text : (server export_id : String) → ℕ → String
payload_text server export_id expires =
    concat (server ∷ "." ∷ export_id ∷ "." ∷ decimal expires ∷ [])

-- `expires_at < datetime.now(UTC).timestamp()`
abbrev pub is_past : ℤ → ℕ → Bool
is_past (pos at) now = ltb (at * micros) now
is_past (negsuc n) now = true

pub record LinkView : Type 0 where
  pub url : String
  pub expires_at : ℕ

abbrev pub of_number : Bytes → Bytes → (server id : String) → Option ℤ → Option Token
of_number payload signature server id none = none
of_number payload signature server id (some expires) = some record {
  payload = payload;
  signature = signature;
  server = server;
  export_id = id;
  expires = expires;
}

abbrev pub of_pieces : Bytes → Bytes → List String → Option Token
of_pieces payload signature (server ∷ id ∷ at ∷ []) =
    of_number payload signature server id (parse_int at)
of_pieces payload signature _ = none

abbrev pub pieces_of : String → List String
pieces_of s =
    let (first, others) = split_at (is_char b'.') (chars s) in text first ∷ map text others

module _ (codec : LinkCodec) where
  -- `sign`
  unfoldable pub sign : (server export_id : String) → ℕ → String
  unfolding decimal b64
  sign server export_id expires =
      let payload = codec.encode (payload_text server export_id expires) in
      concat (b64 payload ∷ "." ∷ b64 (codec.mac payload) ∷ [])

  abbrev pub of_decoded : Bytes → Bytes → Option String → Option Token
  of_decoded payload signature none = none
  of_decoded payload signature (some s) = of_pieces payload signature (pieces_of s)

  abbrev pub of_parts : Option Bytes → Option Bytes → Option Token
  of_parts (some payload) (some signature) = of_decoded payload signature (codec.decode payload)
  of_parts _ _ = none

  abbrev pub of_halves : Option (List Char × List Char) → Option Token
  of_halves none = none
  of_halves (some (payload, mac)) = of_parts (unb64 (text payload)) (unb64 (text mac))

  -- The `try` of `download`.
  unfoldable pub read_token : String → Option Token
  unfolding split_once split_at chars text parse_int unb64
  read_token token = of_halves (split_once (is_char b'.') (chars token))

  module _ {C : Type 0} (settings : Settings) (B : ClusterBackend C) where
    -- `link`: the clock without its fraction of a second, and the minutes of a link.
    unfoldable pub link : (tenant name id : String) → Act (Exporter C) LinkView
    unfolding owned_export sign api_url
    link tenant name id = do
      require_enabled settings B
      row ← owned_export settings B tenant name id
      refuse_if (not (is_done row.status)) (export_conflict "the export is not ready")
      λ s.
          let expires = (s.world.now / micros * micros + link_ttl) / micros in
          (
            ok record {
              url =
                  concat
                    (api_url settings ∷ "/api/v1/export-downloads/" ∷ sign name id expires ∷ []);
              expires_at = expires;
            },
            s,
          )

    abbrev no_link : Error
    no_link = export_not_found "link"

    abbrev pub served : Token → Option ExportRow → Act (Exporter C) (String × String)
    served token none s = (err no_link, s)
    served token (some row) s =
        if not (row.server == token.server) || not (is_done row.status)
        then (err no_link, s)
        else if is_expired s.world.now row
        then (err no_link, s)
        else if has_file settings B row.server row.id "world.zip" s.dirs
        then (
          ok (
            path_in settings B row.server row.id "world.zip",
            concat (row.server ∷ "-world-" ∷ row.id ∷ ".zip" ∷ []),
          ),
          s,
        )
        else (err no_link, s)

    abbrev pub checked : Option Token → Act (Exporter C) (String × String)
    checked none s = (err no_link, s)
    checked (some token) s =
        if not (codec.same token.signature (codec.mac token.payload))
          || is_past token.expires s.world.now
        then (err no_link, s)
        else served token
            (if is_export_id token.export_id then get_export token.export_id s.world.db else none) s

    -- `download`: the path of the zip and the name under which it is saved.
    unfoldable pub download : String → Act (Exporter C) (String × String)
    unfolding read_token is_export_id get_export
    download token = do require_enabled settings B; checked (read_token token)
