-- ===== src/Config.antt =====
-- src/dsh_api/config.py
use Prim.Native.Char.{Char}
use dsh_api.Prelude.{
  ℕ, String, Bool, List, map, ◌∷◌, [], concat, replace_char, is_empty, if◌then◌else◌,
}
use dsh_api.Prelude.Chars.{is_char}
use dsh_api.Prelude.Splitting.{rstrip, strip, split}
use dsh_api.Prelude.Dict.{has}

-- The fields of `Settings` that the modelled code reads.
pub record Settings : Type 0 where
  pub base_domain : String
  pub node_ip : String
  pub max_servers_per_tenant : ℕ
  pub admin_users : List String
  pub default_plugins : List String
  pub plugin_selection : Bool
  pub world_export : Bool
  pub export_image : String
  pub export_default_size : ℕ
  pub export_max_size : ℕ
  pub export_daily_limit : ℕ
  pub export_retention_hours : ℕ
  pub export_timeout_seconds : ℕ
  pub public_api_url : String

unfoldable pub is_admin : Settings → String → Bool
is_admin s username = has username s.admin_users

unfoldable pub hostname : Settings → String → String
hostname s name = concat (name ∷ ".play." ∷ s.base_domain ∷ [])

abbrev dash : Char
dash = "-"

unfoldable pub sslip_hostname : Settings → String → String
unfolding replace_char
sslip_hostname s name = concat (name ∷ "." ∷ replace_char b'.' dash s.node_ip ∷ ".sslip.io" ∷ [])

unfoldable pub api_url : Settings → String
unfolding rstrip
api_url s = rstrip (is_char b'/') (
    if is_empty s.public_api_url
    then concat ("https://api." ∷ s.base_domain ∷ [])
    else s.public_api_url)

abbrev keep_filled : List String → List String
keep_filled [] = []
keep_filled (s ∷ ss) = if is_empty s then keep_filled ss else s ∷ keep_filled ss

-- `is_space` is `str.isspace`.
unfoldable pub split_csv : (Char → Bool) → String → List String
unfolding split strip
split_csv is_space value = keep_filled (map (strip is_space) (split (is_char b',') value))
