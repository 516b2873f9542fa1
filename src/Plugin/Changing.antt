-- ===== src/Plugin/Changing.antt =====
-- When a selection changes (src/dsh_api/plugin_service.py).
use dsh_api.Prelude.{
  String, ◌≡◌, refl, Bool, true, false, Option, none, some, arith, ◌==◌, eq_iff, Bool-cases, inl,
  inr, ◌⊎◌,
}
use dsh_api.Action.{Act, Result, Error, ok, err, server_not_found, server_busy}
use dsh_api.Config.{Settings}
use dsh_api.Db.Rows as Rows
use dsh_api.Db.Rows.{Db, ServerRow, RowStatus, SelectedPlugin, PluginRow}
use dsh_api.Db.Servers.{get_server}
use dsh_api.Cluster.Backend.{ClusterBackend}
use dsh_api.Catalog.{PluginCatalog}
use dsh_api.Server.World.{World}
use dsh_api.Server.Reads.{owned}
use dsh_api.Plugin.Service.{ready, ready_as, changing}

module _ {C : Type 0} (settings : Settings) (B : ClusterBackend C) (P : PluginCatalog C)
    (sha256 : String → String) where
  -- The server is the tenant's and ready.
  abbrev pub IsReadyIn : (tenant name : String) (db : Db) → Type 0
  IsReadyIn tenant name db =
      (row : ServerRow) × (get_server name db ≡ some row)
      × (row.tenant_id ≡ tenant)
      × (row.status ≡ Rows.ready)

  abbrev IsReadyOutcome :
      (tenant name : String) (w : World C) → Result (Unit {0}) × World C → Type 0
  IsReadyOutcome tenant name w out =
      IsReadyIn tenant name w.db × (out ≡ (ok tt, w)) ⊎ ((e : Error) × (out ≡ (err e, w)))

  ready_as_cases :
      (s : RowStatus) (w : World C)
      → (s ≡ Rows.ready) × (ready_as s w ≡ (ok tt, w)) ⊎ ((e : Error) × (ready_as s w ≡ (err e, w)))
  ready_as_cases Rows.ready w = inl (refl, refl)
  ready_as_cases Rows.provisioning w = inr (_, refl)
  ready_as_cases Rows.failed w = inr (_, refl)
  ready_as_cases Rows.deleting w = inr (_, refl)

  ready_cases :
      (tenant name : String) (w : World C)
      → IsReadyOutcome tenant name w (ready settings B P sha256 tenant name w)
  unfolding ready owned
  ready_cases tenant name w = go (get_server name w.db) refl
    where
      go :
          (o : Option ServerRow)
          → get_server name w.db ≡ o
          → IsReadyOutcome tenant name w (ready settings B P sha256 tenant name w)
      go none same = inr (server_not_found name, ground (arith, same))
      go (some row) same = elim (Bool-cases (row.tenant_id == tenant)) [
        | inl mine ↦ elim (ready_as_cases row.status w) [
          | inl (is_ready, done) ↦ inl (
            (row, same, (eq_iff row.tenant_id tenant).0 mine, is_ready),
            ground (arith, same, mine, done),
          )
          | inr (e, done) ↦ inr (e, ground (arith, same, mine, done))
        ]
        | inr foreign ↦ inr (server_not_found name, ground (arith, same, foreign))
      ]

  -- What came of the body, if it ran.
  abbrev pub IsChanging :
      {A : Type 0}
      → (acquired : Bool) (meanwhile : Db → Db) (tenant name : String) (body : Act (World C) A)
        (w : World C)
      → Result A × World C
      → Type 0
  IsChanging acquired meanwhile tenant name body w out =
      (acquired ≡ true)
        × IsReadyIn tenant name w.db
        × IsReadyIn tenant name (meanwhile w.db)
        × (out ≡ body (record w { db = meanwhile w.db }))
      ⊎ ((e : Error) × ((out ≡ (err e, w)) ⊎ (out ≡ (err e, record w { db = meanwhile w.db }))))

  -- A change of a selection runs only if the lock came in time and the tenant's server is ready
  -- both before the wait and after it, and starts from the database as the wait left it; in every
  -- other case there is an error, and the change does nothing.
  pub changing_runs_when_ready :
      {A : Type 0} (acquired : Bool) (meanwhile : Db → Db) (tenant name : String)
      (body : Act (World C) A) (w : World C)
      → IsChanging acquired meanwhile tenant name body w
          (changing settings B P sha256 acquired meanwhile tenant name body w)
  unfolding changing
  changing_runs_when_ready false meanwhile tenant name body w = elim (ready_cases tenant name w) [
    | inl (before, done) ↦ inr (server_busy "changing its plugins", inr (ground (arith, done)))
    | inr (e, done) ↦ inr (e, inl (ground (arith, done)))
  ]
  changing_runs_when_ready true meanwhile tenant name body w = elim (ready_cases tenant name w) [
    | inl (before, done) ↦ elim (ready_cases tenant name (record w { db = meanwhile w.db })) [
      | inl (after, done') ↦ inl (refl, before, after, ground (arith, done, done'))
      | inr (e, done') ↦ inr (e, inr (ground (arith, done, done')))
    ]
    | inr (e, done) ↦ inr (e, inl (ground (arith, done)))
  ]
