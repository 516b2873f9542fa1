-- ===== src/Tests/Selections.antt =====
-- Runs of the plugin service.
use dsh_api.Prelude.{ℕ, true, ◌≡◌, refl, eq_iff, none, some, [], ◌∷◌, arith, sort_by}
use dsh_api.Prelude.Dict as D
use dsh_api.Action.{Act, unknown_plugin, pure, plugin_not_selected}
use dsh_api.Db.Rows.{SelectedPlugin}
use dsh_api.Db.Plugins.{selected_plugins, seed_plugins}
use dsh_api.Cluster.Memory.{Fake}
use dsh_api.Cluster.Fake.{fake_backend}
use dsh_api.Catalog.{IsKeyed}
use dsh_api.Server.World.{World}
use dsh_api.Selection.{default_selection}
use dsh_api.Plugin.Reads.{rows_of}
use dsh_api.Plugin.Service.{choose, changing, add_selected, remove_selected, restart_for}
use dsh_api.Plugin.Restarting.{restart_for-IsRestart, asked, AfterAsking}
use dsh_api.Cluster.Status.{awake}
use dsh_api.Plugin.Choosing.{IsChosen, choose-IsChosen}
use dsh_api.Plugin.Changing.{IsChanging, changing_runs_when_ready}
use dsh_api.Plugin.Failing.{failed_add_keeps, failed_remove_keeps, seeded}
use dsh_api.Tests.Samples.{settings, db_with, world, one_ready, hash, shelf, catalog}

shelf-IsKeyed : IsKeyed shelf
unfolding D.get
shelf-IsKeyed k e found = ground (arith, found, eq_iff "shops" k, eq_iff "vault" k)

choose-IsChosen_example :
    IsChosen shelf [] "shops" one_ready
      (choose settings fake_backend catalog hash shelf [] "shops" one_ready)
choose-IsChosen_example =
    choose-IsChosen settings fake_backend catalog hash shelf [] "shops" one_ready shelf-IsKeyed

abbrev seven : Act (World Fake) ℕ
seven = pure 7

changing_runs_when_ready_example :
    IsChanging settings fake_backend catalog hash true
      (λ db. db)
      "ann"
      "alpha"
      seven
      one_ready
      (changing settings fake_backend catalog hash true (λ db. db) "ann" "alpha" seven one_ready)
changing_runs_when_ready_example =
    changing_runs_when_ready settings fake_backend catalog hash true (λ db. db) "ann" "alpha" seven
      one_ready

failed_add_keeps_example :
    (add_selected settings fake_backend catalog hash "ann" "alpha" "maps" one_ready).1.db
    ≡ seeded settings fake_backend catalog hash "alpha" one_ready
unfolding add_selected rows_of choose D.get
failed_add_keeps_example =
    failed_add_keeps settings fake_backend catalog hash "ann" "alpha" "maps" one_ready
      (unknown_plugin "maps") refl

failed_remove_keeps_example :
    (remove_selected settings fake_backend catalog hash "ann" "alpha" "maps" one_ready).1.db
    ≡ seeded settings fake_backend catalog hash "alpha" one_ready
unfolding remove_selected rows_of selected_plugins sort_by seed_plugins default_selection
failed_remove_keeps_example =
    failed_remove_keeps settings fake_backend catalog hash "ann" "alpha" "maps" one_ready
      (plugin_not_selected "maps") refl

abbrev vault : SelectedPlugin
vault = record {
  slug = "vault";
  tag = "v1";
  filename = "a.jar";
  url = "u";
  requires = [];
  added_by = "tenant";
  added_at = some 5;
}

-- `alpha` has one plugin.
abbrev with_vault : World Fake
with_vault = world record (db_with []) {
  plugins = record { server = "alpha"; plugin = vault } ∷ [];
  plugin_states =
      record { server = "alpha"; seeded_at = 5; written_sha256 = none; applied_sha256 = none } ∷ [];
}

restart_for-IsRestart_example :
    AfterAsking settings fake_backend catalog hash "ann" "alpha" true
      (asked settings fake_backend catalog hash "ann" "alpha" true true one_ready.outside).0
      (asked settings fake_backend catalog hash "ann" "alpha" true true one_ready.outside).1
      one_ready
      (restart_for settings fake_backend catalog hash "ann" "alpha" true awake one_ready)
restart_for-IsRestart_example =
    restart_for-IsRestart settings fake_backend catalog hash "ann" "alpha" true awake one_ready
