-- ===== src/Tests/Samples.antt =====
-- The data that the tests share.
use dsh_api.Prelude.{String, true, false, none, some, List, [], ◌∷◌}
use dsh_api.Prelude.Dict.{Dict}
use dsh_api.Action.{ok}
use dsh_api.Config.{Settings}
use dsh_api.Db.Rows as Rows
use dsh_api.Db.Rows.{
  Db, ServerRow, RowStatus, Event, FeedbackRow, SelectedPlugin, PluginRow, PluginState,
}
use dsh_api.Cluster.Status.{StatefulSetStatus, WrapperStatus}
use dsh_api.Cluster.Memory.{Fake, no_cluster}
use dsh_api.Catalog.{CatalogPlugin, PluginCatalog}
use dsh_api.Server.World.{World}

abbrev pub settings : Settings
settings = record {
  base_domain = "example.org";
  node_ip = "10.0.0.1";
  max_servers_per_tenant = 2;
  admin_users = "root" ∷ [];
  default_plugins = [];
  plugin_selection = true;
  world_export = true;
  export_image = "dsh-world-export:local";
  export_default_size = 256;
  export_max_size = 512;
  export_daily_limit = 3;
  export_retention_hours = 72;
  export_timeout_seconds = 600;
  public_api_url = "";
}

abbrev pub row_at : String → String → RowStatus → ServerRow
row_at name tenant status = record {
  name = name;
  tenant_id = tenant;
  hostname = name;
  motd = "hi";
  operator_username = none;
  created_at = 5;
  last_woken_at = none;
  status = status;
}

abbrev pub db_with : List ServerRow → Db
db_with rows = record {
  tenants = [];
  servers = rows;
  events = [];
  feedback = [];
  feedback_seq = 0;
  plugins = [];
  plugin_states = [];
  exports = [];
}

abbrev pub up : StatefulSetStatus
up = record { present = true; replicas = 1; ready_replicas = 1; failing = false; scaled_at = none }

abbrev pub running : WrapperStatus
running = record { running = true; pid = some 7; uptime_seconds = none; started_at = none }

-- `alpha` is awake with two players.
abbrev pub cluster : Fake
cluster = record no_cluster {
  namespaces = "t-alpha" ∷ [];
  bound = "t-alpha" ∷ [];
  wrappers = ("alpha", up) ∷ [];
  wrapper_statuses = ("alpha", running) ∷ [];
  players = ("alpha", 2) ∷ [];
}

abbrev pub world : Db → World Fake
world db = record { db = db; outside = cluster; jobs = []; now = 9000000000 }

-- One ready server, of ann's.
abbrev pub one_ready : World Fake
one_ready = world (db_with (row_at "alpha" "ann" Rows.ready ∷ []))

abbrev pub entry : String → List String → CatalogPlugin
entry slug requires = record {
  slug = slug;
  title = slug;
  description = "";
  tags = [];
  requires = requires;
  tag = "v1";
  filename = "a.jar";
  url = "https://example.org/a.jar";
  icon_url = none;
  project_url = none;
}

-- `shops` requires `vault`.
abbrev pub shelf : Dict CatalogPlugin
shelf = ("shops", entry "shops" ("vault" ∷ [])) ∷ ("vault", entry "vault" []) ∷ []

abbrev pub catalog : PluginCatalog Fake
catalog = record { plugins = λ s. (ok shelf, s) }

-- Stands for the hash of hashlib.
abbrev pub hash : String → String
hash text = text
