-- ===== src/Http/Access.antt =====
-- What a request reaches over HTTP (src/dsh_api/main.py).
use Prim.Native.Char.{Char}
use dsh_api.Prelude.{ℕ, String, ◌≡◌, refl, Bool, Option, any, Bool-cases, inl, inr, ◌==◌}
use dsh_api.Action.{Result, ok}
use dsh_api.Config.{Settings}
use dsh_api.Db.Rows.{Db}
use dsh_api.Db.Servers.{ensure_tenant, get_server}
use dsh_api.Cluster.Backend.{ClusterBackend}
use dsh_api.Server.World.{World}
use dsh_api.Server.Reads.{ServerView}
use dsh_api.Server.Isolation.{IsForeign, foreign_requests}
use dsh_api.Http.Login.{bearer_token, validated}
use dsh_api.Http.Errors.{refusal, app_reply, delete_reply}
use dsh_api.Http.Routes.{
  Reply, refuse, with_tenant, get_server as get_route, wake_server, delete_server,
}

ensure_tenant-servers :
    (tenant : String) (now : ℕ) (db : Db) → (ensure_tenant tenant now db).servers ≡ db.servers
unfolding ensure_tenant
ensure_tenant-servers tenant now db = elim (Bool-cases (any (λ t. t.id == tenant) db.tenants)) [
  | inl known ↦ rw known refl
  | inr new ↦ rw new refl
]

ensure_tenant-IsForeign :
    (tenant name : String) (now : ℕ) (db : Db)
    → IsForeign tenant name db
    → IsForeign tenant name (ensure_tenant tenant now db)
unfolding get_server
ensure_tenant-IsForeign tenant name now db foreign row found =
    foreign row (rw (ensure_tenant-servers tenant now db) at found)

module _ {C : Type 0} (settings : Settings) (B : ClusterBackend C) where
  -- The world once the tenant has its row.
  abbrev pub known : String → World C → World C
  known tenant w = record w { db = ensure_tenant tenant w.now w.db }

  abbrev pub no_such_server : Reply ServerView
  no_such_server = refuse (refusal 404 "no such server")

  -- A get, a wake or a delete over HTTP, by a tenant whose token is valid, of a server that is
  -- not the tenant's is answered with 404, with or without `force`, and leaves all but the row of
  -- the tenant as it was.
  pub foreign_routes :
      (is_space : Char → Bool) (validate : String → Result String) (authorization : Option String)
      (tenant name : String) (force : Bool) (meanwhile : Db → Db) (w : World C)
      → validated validate (bearer_token is_space authorization) ≡ ok tenant
      → IsForeign tenant name w.db
      → (with_tenant is_space validate authorization (get_route settings B name) w
          ≡ (no_such_server, known tenant w))
        × (with_tenant is_space validate authorization (wake_server settings B name) w
            ≡ (no_such_server, known tenant w))
        × (with_tenant is_space validate authorization
              (delete_server settings B meanwhile name force)
              w
            ≡ (no_such_server, known tenant w))
  unfolding with_tenant get_route wake_server delete_server app_reply delete_reply
  foreign_routes is_space validate authorization tenant name force meanwhile w login foreign =
      let (got, woken, deleted) =
        foreign_requests settings B tenant name force meanwhile (known tenant w)
          (ensure_tenant-IsForeign tenant name w.now w.db foreign) in
      (rw (login, got) refl, rw (login, woken) refl, rw (login, deleted) refl)
