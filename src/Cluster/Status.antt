-- ===== src/Cluster/Status.antt =====
-- `StatefulSetStatus`, `WrapperStatus` and the records that the backend is given
-- (src/dsh_api/cluster.py), and `server_state` of src/dsh_api/service.py.
use dsh_api.Prelude.{
  ℕ, ◌-◌, ◌*◌, String, Bool, true, false, ◌||◌, not, Option, none, some, List, [], ◌∷◌, concat, eqb,
  leb, ltb, if◌then◌else◌,
}
use dsh_api.Db.Rows.{micros}

pub record Credentials : Type 0 where
  pub rcon_password : String
  pub admin_password : String
  pub deploy_auth_token : String
  pub deployment_auth_token : String

pub record ReleaseSpec : Type 0 where
  pub name : String
  pub hostname : String
  pub sslip_hostname : String
  pub motd : String
  pub operator_name : Option String
  pub operator_uuid : Option String
  pub default_plugins : List String

-- `scaled_at` is an instant, in microseconds.
pub record StatefulSetStatus : Type 0 where
  pub present : Bool
  pub replicas : ℕ
  pub ready_replicas : ℕ
  pub failing : Bool
  pub scaled_at : Option ℕ

abbrev pub absent : StatefulSetStatus
absent = record {
  present = false;
  replicas = 0;
  ready_replicas = 0;
  failing = false;
  scaled_at = none;
}

pub record WrapperStatus : Type 0 where
  pub running : Bool
  pub pid : Option ℕ
  pub uptime_seconds : Option ℕ
  pub started_at : Option String

-- STATES of service.py.
pub data State : Type 0 where
  provisioning asleep waking awake stopped failed deleting : State

unfoldable pub state_text : State → String
state_text provisioning = "provisioning"
state_text asleep = "asleep"
state_text waking = "waking"
state_text awake = "awake"
state_text stopped = "stopped"
state_text failed = "failed"
state_text deleting = "deleting"

abbrev pub is_awake : State → Bool
is_awake awake = true
is_awake _ = false

abbrev pub is_stopped : State → Bool
is_stopped stopped = true
is_stopped _ = false

abbrev pub is_failed : State → Bool
is_failed failed = true
is_failed _ = false

abbrev pub is_asleep : State → Bool
is_asleep asleep = true
is_asleep _ = false

abbrev pub is_waking : State → Bool
is_waking waking = true
is_waking _ = false

-- The property `StatefulSetStatus.state`.
unfoldable pub replica_state : StatefulSetStatus → State
replica_state s =
    if not s.present || s.failing
    then failed
    else if eqb s.replicas 0
    then asleep
    else if leb 1 s.ready_replicas
    then awake
    else waking

-- WAKE_GRACE: three minutes.
abbrev pub wake_grace : ℕ
wake_grace = 3 * 60 * micros

-- A wrapper that says that the game is not running; `scaled_at` may lie in the future.
unfoldable pub not_running : Option ℕ → ℕ → State
not_running none now = stopped
not_running (some scaled_at) now = if ltb (now - scaled_at) wake_grace then waking else stopped

unfoldable pub refine : StatefulSetStatus → WrapperStatus → ℕ → State
unfolding replica_state not_running
refine s w now =
    if is_failed (replica_state s) || is_asleep (replica_state s)
    then replica_state s
    else if ltb s.ready_replicas 1
    then waking
    else if w.running
    then awake
    else not_running s.scaled_at now

unfoldable pub server_state : StatefulSetStatus → Option WrapperStatus → ℕ → State
unfolding replica_state refine
server_state s none now = replica_state s
server_state s (some w) now = refine s w now

unfoldable pub namespace_for : String → String
namespace_for name = concat ("t-" ∷ name ∷ [])
