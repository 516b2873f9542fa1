-- ===== src/Tests/Servers.antt =====
-- Runs of the server service.
use dsh_api.Prelude.{
  String, true, false, ◌≡◌, refl, ap, eq_iff, sort_by, ◌∙◌, ◌<◌, ◌⊎◌, ◌↔◌, Option, none, some, [],
  ◌∷◌, count_by, arith,
}
use dsh_api.Prelude.Dict as D
use dsh_api.Action.{ok, err, server_not_found}
use dsh_api.Config.{hostname, sslip_hostname}
use dsh_api.Db.Rows as Rows
use dsh_api.Db.Rows.{Db, ServerRow, Event, RowStatus, status_text}
use dsh_api.Db.Servers.{
  reserve_server, begin_delete, can_reserve, get_server, provisioning_server, count_servers,
}
use dsh_api.Db.Slots.{SlotsHold, Writes-SlotsHold}
use dsh_api.Db.Writes.{here, next, reserved}
use dsh_api.Cluster.Status.{
  ReleaseSpec, Credentials, awake, stopped, namespace_for, server_state, provisioning,
}
use dsh_api.Cluster.Reading.{server_state_awake_iff, server_state_stopped_iff, IsPastGrace}
use dsh_api.Cluster.Memory.{Fake}
use dsh_api.Cluster.Fake.{fake_backend}
use dsh_api.Server.World.{World}
use dsh_api.Server.Reads as Reads
use dsh_api.Server.Wake.{wake}
use dsh_api.Server.Delete.{delete, begin_remove, run_remove, status_before_delete}
use dsh_api.Server.Create.{
  create, create_checks, create_reserved, refuse_create, run_provision, provision_steps,
}
use dsh_api.Server.Recover.{recover_interrupted}
use dsh_api.Server.Safety.{world_is_safe, IsUntouched, IsBackedUp}
use dsh_api.Server.Provision.{run_provision_settles, rows_after, is_ok}
use dsh_api.Server.Recovery.{
  recover_interrupted_settles, status_before_delete_finds, is_creating_row, is_deleting_row,
}
use dsh_api.Server.Isolation.{foreign_requests, IsForeign}
use dsh_api.Server.Deleting.{begin_delete_once, begin_remove_outcome, IsDeleteOutcome}
use dsh_api.Server.Admission.{refuse_create_iff, create-IsAccepted, IsAccepted}
use dsh_api.Tests.Samples.{settings, row_at, db_with, up, running, world, one_ready, hash}

world_is_safe_example :
    IsUntouched "alpha"
      (fake_backend.backup_world "alpha" true one_ready.outside).1
      one_ready
      (run_remove settings fake_backend "ann" "alpha" Rows.ready true false one_ready).1
    ⊎ IsBackedUp fake_backend "alpha" one_ready.db.events
        (fake_backend.backup_world "alpha" true one_ready.outside).0
        (fake_backend.backup_world "alpha" true one_ready.outside).1
        (run_remove settings fake_backend "ann" "alpha" Rows.ready true false one_ready).1
world_is_safe_example = world_is_safe settings fake_backend "ann" "alpha" true one_ready

-- Nobody has a server.
abbrev no_rows : Db
no_rows = db_with []

abbrev first_create : Db
first_create = (reserve_server "beta" "bob" "b" "hi" none 2 7000000 no_rows).1

no_rows-SlotsHold : SlotsHold 2 no_rows.servers
no_rows-SlotsHold = record {
  one_name = λ n. omega arith;
  one_create = λ t. omega arith;
  capped = λ t. omega arith;
}

Writes-SlotsHold_example : SlotsHold 2 first_create.servers
Writes-SlotsHold_example =
    Writes-SlotsHold (next here (reserved "beta" "bob" "b" "hi" none 7000000 no_rows))
      no_rows-SlotsHold

abbrev spec : ReleaseSpec
spec = record {
  name = "alpha";
  hostname = "alpha";
  sslip_hostname = "alpha";
  motd = "hi";
  operator_name = none;
  operator_uuid = none;
  default_plugins = [];
}

abbrev creds : Credentials
creds = record {
  rcon_password = "r";
  admin_password = "a";
  deploy_auth_token = "d";
  deployment_auth_token = "e";
}

abbrev creating : World Fake
creating = world (db_with (row_at "alpha" "ann" Rows.provisioning ∷ []))

run_provision_settles_example :
    ((run_provision settings fake_backend hash "ann" spec creds creating).0 ≡ ok tt)
    × ((run_provision settings fake_backend hash "ann" spec creds creating).1.db.servers
        ≡ rows_after settings fake_backend hash "alpha"
            (is_ok (provision_steps settings fake_backend hash spec creds creating).0)
            (provision_steps settings fake_backend hash spec creds creating).1.now
            creating.db)
run_provision_settles_example =
    run_provision_settles settings fake_backend hash "ann" spec creds creating

recover_interrupted_settles_example :
    (count_by is_creating_row (recover_interrupted creating).1.db.servers ≡ 0)
    × (count_by is_deleting_row (recover_interrupted creating).1.db.servers ≡ 0)
recover_interrupted_settles_example = recover_interrupted_settles creating

abbrev tenant_of : Option ServerRow → String
tenant_of none = ""
tenant_of (some row) = row.tenant_id

pub alpha-IsForeign : IsForeign "bob" "alpha" one_ready.db
unfolding get_server
alpha-IsForeign row found same = ground (arith, (eq_iff "ann" "bob").1 (ap tenant_of found ∙ same))

foreign_requests_example :
    (Reads.get settings fake_backend "bob" "alpha" one_ready
      ≡ (err (server_not_found "alpha"), one_ready))
    × (wake settings fake_backend "bob" "alpha" one_ready
        ≡ (err (server_not_found "alpha"), one_ready))
    × (delete settings fake_backend "bob" "alpha" true (λ db. db) one_ready
        ≡ (err (server_not_found "alpha"), one_ready))
foreign_requests_example =
    foreign_requests settings fake_backend "bob" "alpha" true (λ db. db) one_ready alpha-IsForeign

begin_remove_outcome_example :
    IsDeleteOutcome settings fake_backend "ann" "alpha" false
      (λ db. db)
      (row_at "alpha" "ann" Rows.ready)
      (ok up)
      (ok (some 2))
      one_ready
      (begin_remove settings fake_backend "ann" "alpha" false
        (λ db. db)
        (row_at "alpha" "ann" Rows.ready)
        one_ready)
unfolding D.get
begin_remove_outcome_example =
    begin_remove_outcome settings fake_backend "ann" "alpha" false (λ db. db)
      (row_at "alpha" "ann" Rows.ready) one_ready

begin_delete_once_example :
    (begin_delete "alpha" Rows.ready (begin_delete "alpha" Rows.ready one_ready.db).1).0 ≡ false
begin_delete_once_example = begin_delete_once "alpha" Rows.ready one_ready.db refl

abbrev requested : Event
requested = record {
  at = 1;
  tenant_id = "ann";
  server_name = some "alpha";
  kind = "delete.requested";
  detail = "failed";
}

status_before_delete_finds_example : status_before_delete (requested ∷ []) ≡ Rows.failed
unfolding status_text
status_before_delete_finds_example =
    status_before_delete_finds [] requested [] Rows.failed refl refl refl refl

refuse_create_iff_example :
    ((refuse_create settings fake_backend hash "bob" "beta" one_ready).0 ≡ ok tt)
    ↔ (can_reserve "beta" "bob" 2 one_ready.db ≡ true)
refuse_create_iff_example = refuse_create_iff settings fake_backend hash "bob" "beta" one_ready

abbrev beta_view : Reads.ServerView
beta_view = record {
  name = "beta";
  state = provisioning;
  hostname = "beta.play.example.org";
  sslip_hostname = "beta.10-0-0-1.sslip.io";
  dashboard_url = "https://beta.play.example.org/";
  motd = "beta on Dan's Server Hosting";
  operator_username = none;
  created_at = 9000;
  last_woken_at = none;
  players_online = none;
}

create-IsAccepted_example :
    IsAccepted settings fake_backend hash "bob" "beta" none none
      (λ db. db)
      (λ db. db)
      one_ready
      (create settings fake_backend hash "bob" "beta" none none (λ db. db) (λ db. db) one_ready).1
      beta_view
      "a"
unfolding create create_checks refuse_create provisioning_server sort_by count_servers get_server
    namespace_for create_reserved reserve_server Reads.view hostname sslip_hostname
create-IsAccepted_example =
    create-IsAccepted settings fake_backend hash "bob" "beta" none none (λ db. db) (λ db. db)
      one_ready beta_view "a" refl

server_state_awake_iff_example :
    (server_state up (some running) 5 ≡ awake)
    ↔ ((true ≡ true) × (false ≡ false) × (0 < 1) × (0 < 1) × (true ≡ true))
server_state_awake_iff_example = server_state_awake_iff up running 5

server_state_stopped_iff_example :
    (server_state up (some running) 5 ≡ stopped)
    ↔ ((true ≡ true) × (false ≡ false) × (0 < 1) × (0 < 1) × (true ≡ false) × IsPastGrace none 5)
server_state_stopped_iff_example = server_state_stopped_iff up running 5
