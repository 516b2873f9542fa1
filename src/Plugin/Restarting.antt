-- ===== src/Plugin/Restarting.antt =====
-- When `PluginService.apply` restarts a server (src/dsh_api/plugin_service.py).
use dsh_api.Prelude.{
  ◌/◌, ◌++◌, ℕ, zero, suc, String, ◌≡◌, refl, Bool, true, false, Option, none, some, [], ◌∷◌, arith,
  concat, ltb, ◌&&◌, not, if◌then◌else◌,
}
use dsh_api.Prelude.Decimal.{decimal}
use dsh_api.Action.{Result, Error, ok, err, Act, refuse_if, players_online, pure, ◌>>=◌, ◌>>◌}
use dsh_api.Config.{Settings}
use dsh_api.Db.Rows.{Event, micros, now_iso}
use dsh_api.Db.Events.{record_event}
use dsh_api.Cluster.Status.{State, is_awake}
use dsh_api.Cluster.Backend.{ClusterBackend}
use dsh_api.Catalog.{PluginCatalog}
use dsh_api.Server.World.{World, call, log_event}
use dsh_api.Plugin.Service.{count_or_zero, Applies, restarting, warn_players, restart_for}

positive : (n : ℕ) → ltb 0 (suc n) ≡ true
positive n = ground arith

module _ {C : Type 0} (settings : Settings) (B : ClusterBackend C) (P : PluginCatalog C)
    (sha256 : String → String) (tenant name : String) (confirm_players : Bool) where
  -- Who is online, as the cluster tells: only an awake server is asked.
  abbrev pub asked : (awake : Bool) → C → Result (Option ℕ) × C
  asked true c = B.players_online name c
  asked false c = (ok none, c)

  -- The players are told, if there are any.
  abbrev pub told : (online : ℕ) → C → Result Bool × C
  told zero c = (ok true, c)
  told (suc n) c =
      B.send_command name "say This server is restarting in a moment to change its plugins." c

  -- Nothing but the cluster's answer, and no restart.
  abbrev pub IsKept : Error → C → World C → Result Applies × World C → Type 0
  IsKept e c w out = out ≡ (err e, record w { outside = c })

  -- The event of an apply.
  abbrev pub applied : (online : ℕ) → World C → Event
  applied online w = record {
    at = w.now / micros;
    tenant_id = tenant;
    server_name = some name;
    kind = "plugins.apply";
    detail = concat ("players=" ∷ decimal online ∷ []);
  }

  -- The pod was restarted, and this is in the log with the number of players; or the restart
  -- failed, and nothing is logged.
  abbrev pub AfterRestart :
      (online : ℕ) → Result (Unit {0}) → C → World C → Result Applies × World C → Type 0
  AfterRestart online (err e) c w out = IsKept e c w out
  AfterRestart online (ok _) c w out =
      (out.0 ≡ ok restarting)
      × (out.1.outside ≡ c)
      × (out.1.db ≡ record w.db { events = w.db.events ++ applied online w ∷ [] })

  abbrev pub AfterWarning :
      (online : ℕ) → Result Bool → C → World C → Result Applies × World C → Type 0
  AfterWarning online (err e) c w out = IsKept e c w out
  AfterWarning online (ok _) c w out =
      AfterRestart online (B.restart_wrapper_pod name c).0 (B.restart_wrapper_pod name c).1 w out

  -- With players online and without the owner's word the pod is left alone.
  abbrev pub AfterCount :
      (confirmed : Bool) (online : ℕ) → C → World C → Result Applies × World C → Type 0
  AfterCount false (suc n) c w out = IsKept (players_online (suc n)) c w out
  AfterCount false zero c w out = AfterWarning 0 (told 0 c).0 (told 0 c).1 w out
  AfterCount true online c w out = AfterWarning online (told online c).0 (told online c).1 w out

  abbrev pub AfterAsking : Result (Option ℕ) → C → World C → Result Applies × World C → Type 0
  AfterAsking (err e) c w out = IsKept e c w out
  AfterAsking (ok none) c w out = AfterCount confirm_players 0 c w out
  AfterAsking (ok (some online)) c w out = AfterCount confirm_players online c w out

  abbrev restart_and_log : ℕ → Act (World C) Applies
  restart_and_log online = do
    call (B.restart_wrapper_pod name)
    log_event tenant name "plugins.apply" (concat ("players=" ∷ decimal online ∷ []))
    pure restarting

  -- Each step, in the state that the one before it leaves.
  after_restart :
      (online : ℕ) (went : Result (Unit {0}) × C) (c : C) (w : World C)
      → AfterRestart online went.0 went.1 w (
          (call (λ _. went) >> (do
            log_event tenant name "plugins.apply" (concat ("players=" ∷ decimal online ∷ []))
            pure restarting))
            (record w { outside = c }))
  unfolding record_event now_iso
  after_restart online (err e, c') c w = refl
  after_restart online (ok _, c') c w = (refl, refl, refl)

  after_warning :
      (online : ℕ) (heard : Result Bool × C) (c : C) (w : World C)
      → AfterWarning online heard.0 heard.1 w
          ((call (λ _. heard) >> restart_and_log online) (record w { outside = c }))
  after_warning online (err e, c') c w = refl
  after_warning online (ok _, c') c w = after_restart online (B.restart_wrapper_pod name c') c' w

  abbrev warn_and_restart : ℕ → Act (World C) Applies
  warn_and_restart online = do warn_players settings B P sha256 name online; restart_and_log online

  after_count :
      (confirmed : Bool) (online : ℕ) (c : C) (w : World C)
      → AfterCount confirmed online c w (
          (refuse_if (ltb 0 online && not confirmed) (players_online online)
              >> warn_and_restart online)
            (record w { outside = c }))
  after_count false (suc n) c w = rw (positive n) refl
  after_count false zero c w = after_warning 0 (ok true, c) c w
  after_count true zero c w = after_warning 0 (ok true, c) c w
  after_count true (suc n) c w = rw (positive n) (after_warning (suc n) (told (suc n) c) c w)

  after_asking :
      (found : Result (Option ℕ) × C) (w : World C)
      → AfterAsking found.0 found.1 w (
          (call (λ _. found)
              >>= (λ online. pure (count_or_zero settings B P sha256 online))
              >>= λ online.
                  refuse_if (ltb 0 online && not confirm_players) (players_online online)
                  >> warn_and_restart online)
            w)
  after_asking (err e, c) w = refl
  after_asking (ok none, c) w = after_count confirm_players 0 c w
  after_asking (ok (some online), c) w = after_count confirm_players online c w

  -- An apply asks an awake server, and no other, for its players; with players and without the
  -- owner's word it raises their number and does nothing more; else it tells the players, if
  -- there are any, restarts the pod, and then logs the number of players and nothing else; where
  -- the cluster fails at a step it raises that error, goes no further and writes nothing.
  pub restart_for-IsRestart :
      (state : State) (w : World C)
      → AfterAsking
          (asked (is_awake state) w.outside).0
          (asked (is_awake state) w.outside).1
          w
          (restart_for settings B P sha256 tenant name confirm_players state w)
  unfolding restart_for
  restart_for-IsRestart state w = by_state (is_awake state)
    where
      by_state :
          (awake : Bool)
          → AfterAsking (asked awake w.outside).0 (asked awake w.outside).1 w (
              ((if awake
                    then (call (B.players_online name) >>= λ online.
                        pure (count_or_zero settings B P sha256 online))
                    else pure 0)
                  >>= λ online.
                      refuse_if (ltb 0 online && not confirm_players) (players_online online)
                      >> warn_and_restart online)
                w)
      by_state true = after_asking (B.players_online name w.outside) w
      by_state false = after_asking (ok none, w.outside) w
