-- ===== src/Http/Labels.antt =====
-- The names that src/dsh_api/service.py lets through, in the links of src/dsh_api/export_service.py.
use Prim.Native.Char.{Char}
use dsh_api.Prelude.{
  ℕ, ◌*◌, ◌≤◌, String, ◌≡◌, refl, sym, ◌∙◌, Bool, true, false, List, [], ◌∷◌, any, any-reverse,
  reverse, arith, Bool-cases, inl, inr,
}
use dsh_api.Prelude.Chars.{chars, is_char}
use dsh_api.Action.{ok}
use dsh_api.Config.{Settings}
use dsh_api.Db.Rows.{ExportRow, micros}
use dsh_api.Cluster.Backend.{ClusterBackend}
use dsh_api.Export.Exporter.{Exporter, is_export_id, all_hex, without_newline, bare_line}
use dsh_api.Export.Links.{LinkCodec, payload_text, sign, download}
use dsh_api.Export.Linked.{IsDotless, IsCarried}
use dsh_api.Export.Downloads.{IsServed, served_file, download-sign}
use dsh_api.Http.Validation.{is_tail, is_name, validate_name}

abbrev dot : Char → Bool
dot = is_char b'.'

is_tail-dot : (cs : List Char) → is_tail cs ≡ true → any dot cs ≡ false
unfolding is_tail
is_tail-dot [] h = refl
is_tail-dot (c ∷ []) h = ground arith
is_tail-dot (c ∷ d ∷ cs) h = ground (arith, is_tail-dot (d ∷ cs))

is_name-dot : (cs : List Char) → is_name cs ≡ true → any dot cs ≡ false
is_name-dot [] h = refl
is_name-dot (c ∷ cs) h = ground (arith, is_tail-dot cs)

accepted-is_name : (name out : String) → validate_name name ≡ ok out → is_name (chars name) ≡ true
unfolding validate_name
accepted-is_name name out h = elim (Bool-cases (is_name (chars name))) [
  | inl good ↦ good
  | inr bad ↦ absurd (ground (arith, bad, h))
]

all_hex-dot : (cs : List Char) → all_hex cs ≡ true → any dot cs ≡ false
all_hex-dot [] h = refl
all_hex-dot (c ∷ cs) h = ground (arith, all_hex-dot cs)

newline-dot : (cs : List Char) → any dot (without_newline cs) ≡ any dot cs
newline-dot [] = refl
newline-dot (c ∷ cs) = ground arith

export_id-IsDotless : (id : String) → is_export_id id ≡ true → IsDotless id
unfolding is_export_id
export_id-IsDotless id h =
    sym (any-reverse dot (chars id))
    ∙ sym (newline-dot (reverse (chars id)))
    ∙ sym (any-reverse dot (without_newline (reverse (chars id))))
    ∙ all_hex-dot (bare_line id) (ground (arith, h))

module _ {C : Type 0} (settings : Settings) (B : ClusterBackend C) where
  module _ (codec : LinkCodec) where
    -- Where exports are enabled, the token that was signed for a finished export of a server
    -- whose name `validate_name` lets through is served until it runs out, if decoding the bytes
    -- of its payload gives the payload, the payload and its MAC consist of bytes, and a MAC is
    -- equal to itself.
    pub download-sign_accepted :
        (server id : String) (expires : ℕ) (row : ExportRow) (s : Exporter C)
        → settings.world_export ≡ true
        → validate_name server ≡ ok server
        → IsCarried codec (payload_text server id expires)
        → s.world.now ≤ expires * micros
        → IsServed settings B server id s row
        → download codec settings B (sign codec server id expires) s
          ≡ (ok (served_file settings B codec row), s)
    download-sign_accepted server id expires row s on accepted carried fresh is =
        download-sign settings B codec server id expires row s on
          (is_name-dot (chars server) (accepted-is_name server server accepted))
          (export_id-IsDotless id is.looks_right) carried fresh is
