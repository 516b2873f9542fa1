-- ===== src/Export/Downloads.antt =====
-- Which downloads src/dsh_api/export_service.py serves.
use dsh_api.Prelude.{
  ℕ, ◌*◌, ◌≤◌, String, ◌≡◌, refl, ◌∙◌, Bool, true, false, ◌||◌, not, Option, none, some, [], ◌∷◌,
  ◌⊎◌, inl, inr, concat, ltb, ◌==◌, eq_iff, arith, Bool-cases, if◌then◌else◌,
}
use dsh_api.Action.{Act, refuse_if, ◌>>◌, Error, ok, err, export_not_found, export_disabled}
use dsh_api.Config.{Settings}
use dsh_api.Db.Rows.{ExportRow, micros}
use dsh_api.Db.Exports.{get_export}
use dsh_api.Cluster.Backend.{ClusterBackend}
use dsh_api.Export.Exporter.{Exporter, is_expired, is_export_id}
use dsh_api.Export.Requests.{is_done, path_in, has_file}
use dsh_api.Export.Links.{
  LinkCodec, Token, payload_text, is_past, sign, read_token, served, checked, download,
}
use dsh_api.Export.Linked.{IsDotless, IsCarried, read_token-sign}

looked_up :
    (test : Bool) (found : Option ExportRow) (row : ExportRow)
    → (if test then found else none) ≡ some row
    → (test ≡ true) × (found ≡ some row)
looked_up test found row h = (ground arith, ground arith)

lt_false : (a b : ℕ) → b ≤ a → ltb a b ≡ false
lt_false a b h = ground arith

same_text : (a b : String) → a ≡ b → (a == b) ≡ true
same_text a b h = ground (arith, eq_iff a b)

-- A guard that lets a request pass.
guard-passes :
    {S A : Type 0} (test : Bool) (e : Error) (m : Act S A) (s : S)
    → test ≡ true
    → (refuse_if (not test) e >> m) s ≡ m s
guard-passes test e m s h = rw h refl

module _ {C : Type 0} (settings : Settings) (B : ClusterBackend C) where
  -- A finished export whose zip is there.
  pub record IsServed (server id : String) (s : Exporter C) (row : ExportRow) : Type 0 where
    pub looks_right : is_export_id id ≡ true
    pub in_table : get_export id s.world.db ≡ some row
    pub of_server : row.server ≡ server
    pub done : is_done row.status ≡ true
    pub kept : is_expired s.world.now row ≡ false
    pub zip : has_file settings B row.server row.id "world.zip" s.dirs ≡ true

  module _ (codec : LinkCodec) where
    abbrev pub served_file : ExportRow → String × String
    served_file row = (
      path_in settings B row.server row.id "world.zip",
      concat (row.server ∷ "-world-" ∷ row.id ∷ ".zip" ∷ []),
    )

    served-cases :
        (t : Token) (found : Option ExportRow) (s : Exporter C)
        → ((row : ExportRow)
            → found ≡ some row
            → (is_export_id t.export_id ≡ true) × (get_export t.export_id s.world.db ≡ some row))
        → ((e : Error) × (served codec settings B t found s ≡ (err e, s)))
          ⊎ ((row : ExportRow) × (served codec settings B t found s ≡ (ok (served_file row), s))
              × IsServed t.server t.export_id s row)
    served-cases t none s table = inl (export_not_found "link", refl)
    served-cases t (some row) s table =
        elim (Bool-cases (not (row.server == t.server) || not (is_done row.status))) [
          | inl bad ↦ inl (export_not_found "link", rw bad refl)
          | inr good ↦ elim (Bool-cases (is_expired s.world.now row)) [
            | inl late ↦ inl (export_not_found "link", rw (good, late) refl)
            | inr fresh ↦
                elim (Bool-cases (has_file settings B row.server row.id "world.zip" s.dirs)) [
                  | inr missing ↦ inl (export_not_found "link", rw (good, fresh, missing) refl)
                  | inl there ↦ inr (
                    row,
                    rw (good, fresh, there) refl,
                    record {
                      looks_right = (table row refl).0;
                      in_table = (table row refl).1;
                      of_server = ground (arith, eq_iff row.server t.server);
                      done = ground arith;
                      kept = fresh;
                      zip = there;
                    },
                  )
                ]
          ]
        ]

    -- What a token that is served has.
    abbrev pub IsRead : String → Exporter C → Token → Type 0
    IsRead token s t =
        (read_token codec token ≡ some t)
        × (codec.same t.signature (codec.mac t.payload) ≡ true)
        × (is_past t.expires s.world.now ≡ false)

    checked-cases :
        (read : Option Token) (s : Exporter C)
        → ((e : Error) × (checked codec settings B read s ≡ (err e, s)))
          ⊎ ((t : Token) × (row : ExportRow) × (checked codec settings B read s
                ≡ (ok (served_file row), s))
              × (read ≡ some t)
              × (codec.same t.signature (codec.mac t.payload) ≡ true)
              × (is_past t.expires s.world.now ≡ false)
              × IsServed t.server t.export_id s row)
    checked-cases none s = inl (export_not_found "link", refl)
    checked-cases (some t) s =
        elim (Bool-cases
          (not (codec.same t.signature (codec.mac t.payload)) || is_past t.expires s.world.now)) [
            | inl bad ↦ inl (export_not_found "link", rw bad refl)
            | inr good ↦
                elim (served-cases t
                  (if is_export_id t.export_id then get_export t.export_id s.world.db else none) s
                  (λ row found.
                    looked_up (is_export_id t.export_id) (get_export t.export_id s.world.db) row
                      found)) [
                        | inl (e, refused) ↦ inl (e, rw (good, refused) refl)
                        | inr (row, out, is) ↦
                            inr (t, row, rw (good, out) refl, refl, ground arith, ground arith, is)
                      ]
          ]

    download_on :
        (token : String) (s : Exporter C)
        → settings.world_export ≡ true
        → download codec settings B token s ≡ checked codec settings B (read_token codec token) s
    unfolding download
    download_on token s on =
        guard-passes settings.world_export export_disabled
          (checked codec settings B (read_token codec token)) s on

    -- A download raises, or its token has the MAC of its payload and has not run out, and it gets
    -- the zip, which is there, of the export that the payload names, which is ready and has not
    -- expired; nothing changes.
    pub download_checked :
        (token : String) (s : Exporter C)
        → ((e : Error) × (download codec settings B token s ≡ (err e, s)))
          ⊎ ((t : Token) × (row : ExportRow) × (download codec settings B token s
                ≡ (ok (served_file row), s))
              × IsRead token s t
              × IsServed t.server t.export_id s row)
    unfolding download
    download_checked token s = elim (Bool-cases settings.world_export) [
      | inr off ↦ inl (export_disabled, rw off refl)
      | inl on ↦ elim (checked-cases (read_token codec token) s) [
        | inl (e, refused) ↦ inl (e, download_on token s on ∙ refused)
        | inr (t, row, out, read, signed, fresh, is) ↦
            inr (t, row, download_on token s on ∙ out, (read, signed, fresh), is)
      ]
    ]

    -- Where exports are enabled, the token that was signed for a finished export, whose server
    -- and id have no dot, is served until it runs out, if its payload is carried.
    pub download-sign :
        (server id : String) (expires : ℕ) (row : ExportRow) (s : Exporter C)
        → settings.world_export ≡ true
        → IsDotless server
        → IsDotless id
        → IsCarried codec (payload_text server id expires)
        → s.world.now ≤ expires * micros
        → IsServed server id s row
        → download codec settings B (sign codec server id expires) s ≡ (ok (served_file row), s)
    download-sign server id expires row s on plain plain_id carried fresh is =
        download_on (sign codec server id expires) s on
        ∙ rw
            (
              read_token-sign codec server id expires plain plain_id carried,
              carried.equal,
              lt_false (expires * micros) s.world.now fresh,
              is.looks_right,
              is.in_table,
              same_text row.server server is.of_server,
              is.done,
              is.kept,
              is.zip,
            )
            refl
