-- ===== src/Cluster/Reading.antt =====
-- When the states of `server_state` (src/dsh_api/service.py) are reported.
use dsh_api.Prelude.{ℕ, ◌-◌, ◌≤◌, ◌<◌, ◌≡◌, ◌↔◌, true, false, Option, none, some, refl, arith}
use dsh_api.Cluster.Status.{
  StatefulSetStatus, WrapperStatus, awake, stopped, server_state, refine, wake_grace,
}

-- A server whose wrapper answers is awake exactly when the StatefulSet exists, does not fail, has
-- a replica and a ready one, and the wrapper says that the game runs.
pub server_state_awake_iff :
    (s : StatefulSetStatus) (w : WrapperStatus) (now : ℕ)
    → (server_state s (some w) now ≡ awake) ↔ (
        (s.present ≡ true)
        × (s.failing ≡ false)
        × (0 < s.replicas)
        × (0 < s.ready_replicas)
        × (w.running ≡ true))
unfolding server_state
server_state_awake_iff s w now = ground arith

-- The last scale-up is unknown, or the grace after it is over.
abbrev pub IsPastGrace : Option ℕ → ℕ → Type 0
IsPastGrace none now = Unit
IsPastGrace (some at) now = wake_grace ≤ now - at

-- A server whose wrapper answers is stopped exactly when such a pod is up, the wrapper says that
-- the game does not run, and the last scale-up is unknown or three minutes or more ago.
pub server_state_stopped_iff :
    (s : StatefulSetStatus) (w : WrapperStatus) (now : ℕ)
    → (server_state s (some w) now ≡ stopped) ↔ (
        (s.present ≡ true)
        × (s.failing ≡ false)
        × (0 < s.replicas)
        × (0 < s.ready_replicas)
        × (w.running ≡ false)
        × IsPastGrace s.scaled_at now)
unfolding server_state
server_state_stopped_iff s w now = by_stamp s.scaled_at refl
  where
    by_stamp :
        (at : Option ℕ)
        → s.scaled_at ≡ at
        → (refine s w now ≡ stopped) ↔ (
            (s.present ≡ true)
            × (s.failing ≡ false)
            × (0 < s.replicas)
            × (0 < s.ready_replicas)
            × (w.running ≡ false)
            × IsPastGrace s.scaled_at now)
    by_stamp none e = rw e (ground arith)
    by_stamp (some at) e = rw e (ground arith)
