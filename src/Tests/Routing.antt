-- ===== src/Tests/Routing.antt =====
-- Runs of the routes, the cached catalog and the script's regions.
use dsh_api.Prelude.{
  codes, String, ◌≡◌, ◌↔◌, refl, pos, negsuc, true, some, Option, List, [], ◌∷◌, arith,
}
use dsh_api.Prelude.Chars.{chars, text, is_char}
use dsh_api.Prelude.Decimal.{decimal}
use dsh_api.Prelude.Json.{array, no_items}
use dsh_api.Action.{Result, ok}
use dsh_api.Cluster.Fake.{fake_backend}
use dsh_api.Catalog.Cache.{Cache, CatalogSource, plugins}
use dsh_api.Catalog.Keyed.{IsAnswer, with_extras, plugins-IsAnswer}
use dsh_api.Script.Box.{Box, regions}
use dsh_api.Script.Regions.{HasBlock, has_region, regions_iff}
use dsh_api.Export.Links.{payload_text, sign, download}
use dsh_api.Export.Base64.{nth}
use dsh_api.Export.Unpadded.{All-IsByte}
use dsh_api.Http.Login.{bearer_token, validate_fake}
use dsh_api.Http.Routes.{with_tenant, get_server, wake_server, delete_server}
use dsh_api.Http.Access.{known, no_such_server, foreign_routes}
use dsh_api.Http.Labels.{download-sign_accepted}
use dsh_api.Tests.Samples.{settings, one_ready}
use dsh_api.Http.Validation.{validate_name}
use dsh_api.Tests.Servers.{alpha-IsForeign}
use dsh_api.Tests.Exporting.{codec, exporter, finished, finished-IsServed}

abbrev around_spawn : Box
around_spawn = record { x1 = negsuc 127; z1 = negsuc 127; x2 = pos 600; z2 = pos 127 }

regions_iff_example :
    (has_region (pos 1) (negsuc 0) (regions around_spawn) ≡ true)
    ↔ (HasBlock (negsuc 127) (pos 600) (pos 1) × HasBlock (negsuc 127) (pos 127) (negsuc 0))
regions_iff_example = regions_iff around_spawn (pos 1) (negsuc 0) refl refl

-- What answers an empty list, on a clock that stands still.
abbrev empty_source : CatalogSource Unit
empty_source = record {
  extras = [];
  api = "https://api.dansplugins.com";
  ttl = 600;
  fetch = λ url s. (ok (array no_items), s);
  clock = λ s. (1000, s);
  show = λ j. "";
}

abbrev defaults : List String
defaults = "https://example.org/ViaVersion-5.12.0.jar" ∷ []

abbrev old_cache : Cache Unit
old_cache = record { cached = some []; fetched_at = 3; source = tt }

plugins-IsAnswer_example :
    IsAnswer old_cache (plugins (with_extras defaults empty_source) old_cache)
plugins-IsAnswer_example = plugins-IsAnswer defaults empty_source old_cache tt

abbrev tokens : String → Result String
tokens = validate_fake (("bobs", "bob") ∷ [])

abbrev bearer : Option String
bearer = some "Bearer bobs"

foreign_routes_example :
    (with_tenant (is_char b' ') tokens bearer (get_server settings fake_backend "alpha") one_ready
      ≡ (no_such_server settings fake_backend, known settings fake_backend "bob" one_ready))
    × (with_tenant
          (is_char b' ')
          tokens
          bearer
          (wake_server settings fake_backend "alpha")
          one_ready
        ≡ (no_such_server settings fake_backend, known settings fake_backend "bob" one_ready))
    × (with_tenant
          (is_char b' ')
          tokens
          bearer
          (delete_server settings fake_backend (λ db. db) "alpha" true)
          one_ready
        ≡ (no_such_server settings fake_backend, known settings fake_backend "bob" one_ready))
unfolding bearer_token validate_fake
foreign_routes_example =
    foreign_routes settings fake_backend (is_char b' ') tokens bearer "bob" "alpha" true (λ db. db)
      one_ready refl alpha-IsForeign

download-sign_accepted_example :
    download codec settings fake_backend (sign codec "alpha" "ba9876543210" 9900) exporter
    ≡ (ok ("alpha/ba9876543210/world.zip", "alpha-world-ba9876543210.zip"), exporter)
unfolding validate_name decimal codes chars text nth
download-sign_accepted_example =
    download-sign_accepted settings fake_backend codec "alpha" "ba9876543210" 9900 finished exporter
      refl refl
      record {
        decoded = refl;
        payload_bytes = All-IsByte (codes (payload_text "alpha" "ba9876543210" 9900)) refl;
        mac_bytes = All-IsByte (codec.mac (codes (payload_text "alpha" "ba9876543210" 9900))) refl;
        equal = refl;
      }
      (omega arith) finished-IsServed
