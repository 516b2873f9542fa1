-- ===== src/Http/Routes.antt =====
-- Routes with a tenant (src/dsh_api/main.py).
use Prim.Native.Char.{Char}
use dsh_api.Prelude.{ℕ, String, Bool, Option, if◌then◌else◌}
use dsh_api.Action.{Error, Result, ok, err, invalid_token}
use dsh_api.Config.{Settings, is_admin}
use dsh_api.Db.Rows.{Db}
use dsh_api.Db.Servers.{ensure_tenant}
use dsh_api.Cluster.Backend.{ClusterBackend}
use dsh_api.Server.World.{World}
use dsh_api.Server.Reads.{ServerView, get}
use dsh_api.Server.Wake.{wake}
use dsh_api.Server.Delete.{delete}
use dsh_api.Http.Login.{bearer_token, validated}
use dsh_api.Http.Errors.{Refusal, refusal, app_reply, delete_reply}

-- A reply: a body under a status, or a refusal.
pub data Reply (A : Type 0) : Type 0 where
  body : (status : ℕ) → A → Reply A
  refuse : Refusal → Reply A

-- An InvalidToken is 401; what else the validator raises has no handler.
abbrev pub login_failed : Error → Refusal
login_failed (invalid_token message) = refusal 401 message
login_failed e = app_reply e

module _ {C A : Type 0} where
  abbrev pub replied : (status : ℕ) → (Error → Refusal) → Result A × World C → Reply A × World C
  replied status on_error (ok a, w) = (body status a, w)
  replied status on_error (err e, w) = (refuse (on_error e), w)

  -- `current_tenant`, and the route behind it.
  abbrev pub for_tenant :
      Result String → (String → World C → Reply A × World C) → World C → Reply A × World C
  for_tenant (err e) route w = (refuse (login_failed e), w)
  for_tenant (ok tenant) route w = route tenant (record w { db = ensure_tenant tenant w.now w.db })

  unfoldable pub with_tenant :
      (is_space : Char → Bool) (validate : String → Result String) (authorization : Option String)
      → (String → World C → Reply A × World C)
      → World C
      → Reply A × World C
  unfolding bearer_token ensure_tenant
  with_tenant is_space validate authorization =
      for_tenant (validated validate (bearer_token is_space authorization))

  -- `current_admin`, and the route behind it.
  unfoldable pub for_admin :
      Settings → (String → World C → Reply A × World C) → String → World C → Reply A × World C
  unfolding is_admin
  for_admin settings route tenant w =
      if is_admin settings tenant then route tenant w else (refuse (refusal 403 "admin only"), w)

module _ {C : Type 0} (settings : Settings) (B : ClusterBackend C) where
  -- `get_server`
  unfoldable pub get_server : String → String → World C → Reply ServerView × World C
  unfolding app_reply get
  get_server name tenant w = replied 200 app_reply (get settings B tenant name w)

  -- `wake_server`
  unfoldable pub wake_server : String → String → World C → Reply ServerView × World C
  unfolding app_reply wake
  wake_server name tenant w = replied 202 app_reply (wake settings B tenant name w)

  -- `delete_server`
  unfoldable pub delete_server :
      (meanwhile : Db → Db) → String → Bool → String → World C → Reply ServerView × World C
  unfolding delete_reply delete
  delete_server meanwhile name force tenant w =
      replied 202 delete_reply (delete settings B tenant name force meanwhile w)
