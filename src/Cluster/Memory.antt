-- ===== src/Cluster/Memory.antt =====
-- The state of `FakeClusterBackend` (src/dsh_api/cluster.py). `clock` is the instant of the call, and
-- `files` the backups that were written.
use dsh_api.Prelude.{
  ℕ, String, Bool, true, false, none, some, List, [], ◌∷◌, ◌++◌, concat, if◌then◌else◌,
}
use dsh_api.Prelude.Dict.{Dict, has, get}
use dsh_api.Prelude.Json.{Fields}
use dsh_api.Action.{Act, Error, cluster_error, ok, err}
use dsh_api.Cluster.Status.{Credentials, ReleaseSpec, StatefulSetStatus, WrapperStatus, absent}
use dsh_api.Cluster.Backend.{Applied}

-- One recorded operation: its kind, the server, and the further arguments, a bool as 0 or 1.
pub record Op : Type 0 where
  pub kind : String
  pub name : String
  pub args : List ℕ

abbrev pub flag : Bool → ℕ
flag true = 1
flag false = 0

-- `stamp` is the text of the clock that names a backup.
pub record Fake : Type 0 where
  pub namespaces : List String
  pub bound : List String
  pub credentials : Dict Credentials
  pub releases : Dict ReleaseSpec
  pub wrappers : Dict StatefulSetStatus
  pub wrapper_statuses : Dict WrapperStatus
  pub players : Dict ℕ
  pub selections : Dict String
  pub applied : Dict Applied
  pub commands : List (String × String)
  pub export_summaries : Dict Fields
  pub export_failures : Dict String
  pub exports_run : List (String × String × List String)
  pub ops : List Op
  pub fail_on : List String
  pub backup_dir : String
  pub files : List String
  pub clock : ℕ
  pub stamp : String

abbrev pub no_cluster : Fake
no_cluster = record {
  namespaces = [];
  bound = [];
  credentials = [];
  releases = [];
  wrappers = [];
  wrapper_statuses = [];
  players = [];
  selections = [];
  applied = [];
  commands = [];
  export_summaries = [];
  export_failures = [];
  exports_run = [];
  ops = [];
  fail_on = [];
  backup_dir = "/backups";
  files = [];
  clock = 0;
  stamp = "20260919T080000Z";
}

abbrev pub update : (Fake → Fake) → Act Fake (Unit {0})
update f s = (ok tt, f s)

-- `_op`: the operation is recorded, and fails where the test asks for it.
abbrev pub op : String → String → List ℕ → Act Fake (Unit {0})
op kind name args s = (
  if has kind s.fail_on
      then err (cluster_error (concat (kind ∷ " failed (simulated)" ∷ [])))
      else ok tt,
  record s { ops = s.ops ++ record { kind = kind; name = name; args = args } ∷ [] },
)

abbrev pub status_of : String → Fake → StatefulSetStatus
status_of name s = elim (get name s.wrappers) [ none ↦ absent | some w ↦ w ]

abbrev pub not_found : String → String → Error
not_found what name =
    cluster_error (concat (what ∷ name ∷ "-omcsi-minecraft-wrapper not found" ∷ []))
