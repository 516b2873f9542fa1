-- ===== src/Server/Admission.antt =====
-- Which creates src/dsh_api/service.py lets through.
use dsh_api.Prelude.{
  ℕ, String, ◌≡◌, refl, ◌↔◌, true, Option, [], ◌∷◌, ◌++◌, arith, any, keep, sort_by, any-sort_by,
  present, present-find, present-head?, any-keep, ◌∙◌, Bool-cases, inl, inr,
}
use dsh_api.Action.{Result, carry_on, ok, err}
use dsh_api.Config.{Settings, hostname}
use dsh_api.Cluster.Status.{ReleaseSpec, Credentials}
use dsh_api.Db.Events.{record_event}
use dsh_api.Db.Reserve.{reserve_server_inserts, reserve_server_refuses}
use dsh_api.Db.Rows.{Db, ServerRow, is_row, now_iso}
use dsh_api.Db.Servers.{
  is_creating, created_le, provisioning_server, count_servers, get_server, can_reserve,
  reserved_row,
}
use dsh_api.Cluster.Backend.{ClusterBackend}
use dsh_api.Cluster.Status as Status
use dsh_api.Server.World.{World, provision}
use dsh_api.Server.Reads.{ServerView, view}
use dsh_api.Server.Create.{
  refuse_create, create_checks, create_reserved, create, motd_or, release_spec,
}

present-provisioning_server :
    (tenant : String) (db : Db)
    → present (provisioning_server tenant db) ≡ any (is_creating tenant) db.servers
unfolding provisioning_server
present-provisioning_server tenant db =
    present-head? (sort_by created_le (keep (is_creating tenant) db.servers))
    ∙ any-sort_by (λ _. true) created_le (keep (is_creating tenant) db.servers)
    ∙ any-keep (is_creating tenant) db.servers

present-get_server :
    (name : String) (db : Db) → present (get_server name db) ≡ any (is_row name) db.servers
unfolding get_server
present-get_server name db = present-find (is_row name) db.servers

module _ {C : Type 0} (settings : Settings) (B : ClusterBackend C) (sha256 : String → String) where
  -- The checks of a create pass exactly when the statement of the reservation would insert its
  -- row.
  pub refuse_create_iff :
      (tenant name : String) (w : World C)
      → ((refuse_create settings B sha256 tenant name w).0 ≡ ok tt)
        ↔ (can_reserve name tenant settings.max_servers_per_tenant w.db ≡ true)
  unfolding refuse_create can_reserve count_servers
  refuse_create_iff tenant name w =
      ground (arith, present-provisioning_server tenant w.db, present-get_server name w.db)

  -- The checks leave the database and the queue as they are.
  create_checks-frame :
      (tenant name : String) (operator : Option String) (w : World C)
      → ((create_checks settings B sha256 tenant name operator w).1.db ≡ w.db)
        × ((create_checks settings B sha256 tenant name operator w).1.jobs ≡ w.jobs)
        × ((create_checks settings B sha256 tenant name operator w).1.now ≡ w.now)
  unfolding create_checks refuse_create
  create_checks-frame tenant name operator w = (ground arith, ground arith, ground arith)

  module _ (tenant name : String) (motd operator : Option String)
      (meanwhile then_on : Db → Db) where
    -- The row that the create inserts.
    abbrev pub new_row : ℕ → ServerRow
    new_row now =
        reserved_row name tenant (hostname settings name) (motd_or settings B sha256 motd name)
          operator (now_iso now)

    -- One row and one job: what an accepted create leaves, with the password that it returns.
    pub record IsAccepted (w final : World C) (v : ServerView) (password : String) : Type 0 where
      pub free : can_reserve name tenant settings.max_servers_per_tenant (meanwhile w.db) ≡ true
      pub row : final.db.servers ≡ (meanwhile w.db).servers ++ new_row w.now ∷ []
      pub spec : ReleaseSpec
      pub creds : Credentials
      pub job : final.jobs ≡ w.jobs ++ provision tenant spec creds ∷ []
      pub for_name : spec.name ≡ name
      pub told : creds.admin_password ≡ password
      pub shown : v.state ≡ Status.provisioning

    accepted :
        (uuid : Option String) (creds : Credentials) (w : World C) (v : ServerView)
        (password : String)
        → (create_reserved settings B sha256 tenant name motd operator meanwhile then_on
            (uuid, creds)
            w).0
          ≡ ok (v, password)
        → IsAccepted w
            (create_reserved settings B sha256 tenant name motd operator meanwhile then_on
              (uuid, creds)
              w).1
            v
            password
    unfolding create_reserved view record_event
    accepted uuid creds w v password h =
        elim (Bool-cases
          (can_reserve name tenant settings.max_servers_per_tenant (meanwhile w.db))) [
            | inl free ↦
                let inserted =
                  reserve_server_inserts name tenant (hostname settings name)
                    (motd_or settings B sha256 motd name) operator settings.max_servers_per_tenant
                    w.now (meanwhile w.db) free in
                record {
                  free = free;
                  row = ground (arith, inserted);
                  spec = release_spec settings B sha256 name motd operator uuid;
                  creds = creds;
                  job = ground (arith, inserted);
                  for_name = refl;
                  told = ground (arith, inserted);
                  shown = ground (arith, inserted);
                }
            | inr taken ↦
                let refused =
                  reserve_server_refuses name tenant (hostname settings name)
                    (motd_or settings B sha256 motd name) operator settings.max_servers_per_tenant
                    w.now (meanwhile w.db) taken in
                ground (arith, refused)
          ]

    from_checks :
        (w asked : World C) (r : Result (Option String × Credentials)) (v : ServerView)
        (password : String)
        → asked.db ≡ w.db
        → asked.jobs ≡ w.jobs
        → asked.now ≡ w.now
        → (carry_on r
            (create_reserved settings B sha256 tenant name motd operator meanwhile then_on)
            asked).0
          ≡ ok (v, password)
        → IsAccepted w
            (carry_on r
              (create_reserved settings B sha256 tenant name motd operator meanwhile then_on)
              asked).1
            v
            password
    from_checks w asked (ok (uuid, creds)) v password db jobs now h =
        let found = accepted uuid creds asked v password h in
        record {
          free = rw (← db) found.free;
          row = rw (← db, ← now) found.row;
          spec = found.spec;
          creds = found.creds;
          job = rw (← jobs) found.job;
          for_name = found.for_name;
          told = found.told;
          shown = found.shown;
        }
    from_checks w asked (err e) v password db jobs now h = cc

    -- A create that answers found the name free, a slot open and no create of the tenant in
    -- flight, whatever other requests did while it asked kubectl and Mojang; it leaves one new
    -- row and one new job, whose credentials hold the password that it answers with, and shows
    -- the server as `provisioning`.
    pub create-IsAccepted :
        (w : World C) (v : ServerView) (password : String)
        → (create settings B sha256 tenant name motd operator meanwhile then_on w).0
          ≡ ok (v, password)
        → IsAccepted w
            (create settings B sha256 tenant name motd operator meanwhile then_on w).1
            v
            password
    unfolding create
    create-IsAccepted w v password h =
        let (db, jobs, now) = create_checks-frame tenant name operator w in
        from_checks w (create_checks settings B sha256 tenant name operator w).1
          (create_checks settings B sha256 tenant name operator w).0 v password db jobs now h
