-- ===== src/Server/World.antt =====
-- The state that the services of src/dsh_api share: the database, the queue of background jobs
-- (`JobRunner`), the instant of the call, and `C`, the state of all that lies outside the process.
use dsh_api.Prelude.{ℕ, String, Bool, some, List, [], ◌∷◌, ◌++◌}
use dsh_api.Action.{Act, ok}
use dsh_api.Db.Rows.{Db, RowStatus}
use dsh_api.Db.Events.{record_event}
use dsh_api.Cluster.Status.{Credentials, ReleaseSpec}

pub data Job : Type 0 where
  provision : (tenant : String) (spec : ReleaseSpec) (creds : Credentials) → Job
  remove : (tenant name : String) (prior : RowStatus) (awake force : Bool) → Job

pub record World (C : Type 0) : Type 0 where
  pub db : Db
  pub outside : C
  pub jobs : List Job
  pub now : ℕ

module _ {C : Type 0} where
  -- A query.
  abbrev pub query : {A : Type 0} → (Db → A) → Act (World C) A
  query f w = (ok (f w.db), w)

  -- A transaction that reads the clock and has no result.
  abbrev pub write : (ℕ → Db → Db) → Act (World C) (Unit {0})
  write f w = (ok tt, record w { db = f w.now w.db })

  -- A transaction with a result.
  abbrev pub transact : {A : Type 0} → (ℕ → Db → A × Db) → Act (World C) A
  transact f w = let (a, db) = f w.now w.db in (ok a, record w { db = db })

  -- A call of the backend.
  abbrev pub call : {A : Type 0} → Act C A → Act (World C) A
  call m w = let (r, c) = m w.outside in (r, record w { outside = c })

  -- `self.jobs.submit`
  abbrev pub submit : Job → Act (World C) (Unit {0})
  submit job w = (ok tt, record w { jobs = w.jobs ++ job ∷ [] })

  -- `self.db.record`
  abbrev pub log_event : String → String → String → String → Act (World C) (Unit {0})
  log_event tenant name kind detail = write (record_event tenant (some name) kind detail)
