-- ===== src/Server/Deleting.antt =====
-- The delete request of src/dsh_api/service.py: what it refuses, and the job that it submits.
use dsh_api.Prelude.{
  ◌/◌, ◌==◌, String, ◌≡◌, refl, inl, inr, Bool, false, ◌&&◌, not, some, List, [], ◌∷◌, ◌++◌, arith,
  any, update_where, Bool-cases, if◌then◌else◌, ℕ, zero, suc, Option, none, true, ltb,
}
use dsh_api.Action.{
  Result, Error, ok, err, carry_on, when, refuse_if, settle, players_online, ◌>>=◌, ◌>>◌,
}
use dsh_api.Config.{Settings}
use dsh_api.Db.Rows.{
  Event, micros, now_iso, same_status, Db, ServerRow, RowStatus, deleting, is_deleting, status_text,
}
use dsh_api.Db.Servers.{get_server, begin_delete, still_is}
use dsh_api.Db.Events.{record_event}
use dsh_api.Cluster.Status.{StatefulSetStatus, replica_state, is_awake}
use dsh_api.Cluster.Backend.{ClusterBackend}
use dsh_api.Server.World.{World, remove}
use dsh_api.Server.Reads.{ServerView, view, state_of}
use dsh_api.Server.Wake.{row_or}
use dsh_api.Server.Delete.{begin_remove, request, refuse_online, count_or_zero}

-- Of two deletes that read the same status the second meets no row: one of them submits the job.
begin_delete_none :
    (name : String) (current : RowStatus) (servers : List ServerRow)
    → is_deleting current ≡ false
    → any
        (still_is name current)
        (update_where (still_is name current) (λ r. record r { status = deleting }) servers)
      ≡ false
begin_delete_none name current [] h = refl
begin_delete_none name current (r ∷ rs) h = ground (arith, begin_delete_none name current rs h)

-- A second `begin_delete` from the status that the first one was asked for, other than
-- `deleting`, meets no row.
pub begin_delete_once :
    (name : String) (current : RowStatus) (db : Db)
    → is_deleting current ≡ false
    → (begin_delete name current (begin_delete name current db).1).0 ≡ false
unfolding begin_delete
begin_delete_once name current db h = begin_delete_none name current db.servers h

positive : (n : ℕ) → ltb 0 (suc n) ≡ true
positive n = ground arith

module _ {C : Type 0} (settings : Settings) (B : ClusterBackend C) where
  view-frame :
      (row : ServerRow) (with_players : Bool) (w : World C)
      → ((view settings B row with_players w).1.db ≡ w.db)
        × ((view settings B row with_players w).1.jobs ≡ w.jobs)
  unfolding view state_of
  view-frame row with_players w = (ground arith, ground arith)

  check-frame :
      (name : String) (b : Bool) (w : World C)
      → ((when b (refuse_online settings B name) w).1.db ≡ w.db)
        × ((when b (refuse_online settings B name) w).1.jobs ≡ w.jobs)
        × ((when b (refuse_online settings B name) w).1.now ≡ w.now)
  check-frame name b w = (ground arith, ground arith, ground arith)

  module _ (tenant name : String) (force : Bool) (meanwhile : Db → Db) (row : ServerRow) where
    -- The row still has the status that the request read.
    abbrev pub is_unmoved : ServerRow → Bool
    is_unmoved r = r.name == name && same_status row.status r.status

    abbrev pub still : World C → Bool
    still w = any is_unmoved (meanwhile w.db).servers

    abbrev pub moved : World C → Db
    moved w = record (meanwhile w.db) {
      servers =
          update_where is_unmoved (λ r. record r { status = deleting }) (meanwhile w.db).servers;
    }

    -- The event of the request, with the status to go back to.
    abbrev pub requested : World C → Event
    requested w = record {
      at = w.now / micros;
      tenant_id = tenant;
      server_name = some name;
      kind = "delete.requested";
      detail = status_text row.status;
    }

    -- The job and its event, or neither.
    abbrev pub IsRequested : (awake : Bool) (w final : World C) → Type 0
    IsRequested awake w final =
        (final.jobs
          ≡ (if still w then w.jobs ++ remove tenant name row.status awake force ∷ [] else w.jobs))
        × (final.db ≡ (
            if still w
            then record (moved w) { events = (meanwhile w.db).events ++ requested w ∷ [] }
            else moved w))

    request-IsRequested :
        (awake : Bool) (w : World C)
        → IsRequested awake w (request settings B tenant name force awake meanwhile row w).1
    unfolding request begin_delete record_event now_iso
    request-IsRequested awake w =
        let logged : Db = record (moved w) {
          events = (meanwhile w.db).events ++ requested w ∷ [];
        } in
        let lost = record w { db = moved w } in
        let won = record w {
          db = logged;
          jobs = w.jobs ++ remove tenant name row.status awake force ∷ [];
        } in
        let seen = λ (u : World C). row_or settings B row (get_server name u.db) in
        elim (Bool-cases (still w)) [
          | inl e ↦ (
            ground (arith, e, view-frame (seen won) false won),
            ground (arith, e, view-frame (seen won) false won),
          )
          | inr e ↦ (
            ground (arith, e, view-frame (seen lost) false lost),
            ground (arith, e, view-frame (seen lost) false lost),
          )
        ]

    -- Nothing of its own is left, and the error is told.
    abbrev pub IsStopped : Error → World C → Result ServerView × World C → Type 0
    IsStopped e w out = (out.0 ≡ err e) × (out.1.db ≡ w.db) × (out.1.jobs ≡ w.jobs)

    -- What the players of an awake server make of a request without `force`.
    abbrev pub IsChecked :
        (found : Result (Option ℕ)) → World C → Result ServerView × World C → Type 0
    IsChecked (err e) w out = IsStopped e w out
    IsChecked (ok none) w out = IsRequested true w out.1
    IsChecked (ok (some zero)) w out = IsRequested true w out.1
    IsChecked (ok (some (suc n))) w out = IsStopped (players_online (suc n)) w out

    -- Only an awake server is asked for its players, and only without `force`.
    abbrev pub IsAnswered :
        (awake force : Bool) → Result (Option ℕ) → World C → Result ServerView × World C → Type 0
    IsAnswered true false found w out = IsChecked found w out
    IsAnswered true true found w out = IsRequested true w out.1
    IsAnswered false force found w out = IsRequested false w out.1

    -- What the request leaves, from what the cluster answers.
    abbrev pub IsDeleteOutcome :
        Result StatefulSetStatus
        → Result (Option ℕ)
        → World C
        → Result ServerView × World C
        → Type 0
    IsDeleteOutcome (err e) found w out = IsStopped e w out
    IsDeleteOutcome (ok sts) found w out =
        IsAnswered (is_awake (replica_state sts)) force found w out

    moved_on :
        (awake : Bool) (w u : World C)
        → u.db ≡ w.db
        → u.jobs ≡ w.jobs
        → u.now ≡ w.now
        → IsRequested awake w (request settings B tenant name force awake meanwhile row u).1
    moved_on awake w u db jobs now =
        let (job, log) = request-IsRequested awake u in
        (rw (← db, ← jobs) job, rw (← db, ← now) log)

    -- The request once the players were asked for.
    abbrev counted : Result (Option ℕ) → World C → Result ServerView × World C
    counted found =
        settle found
        >>= (λ online.
            refuse_if (ltb 0 (count_or_zero settings B online))
              (players_online (count_or_zero settings B online)))
        >> request settings B tenant name force true meanwhile row

    after_players :
        (found : Result (Option ℕ)) (w u : World C)
        → u.db ≡ w.db
        → u.jobs ≡ w.jobs
        → u.now ≡ w.now
        → IsChecked found w (counted found u)
    after_players (err e) w u db jobs now = (refl, db, jobs)
    after_players (ok none) w u db jobs now = moved_on true w u db jobs now
    after_players (ok (some zero)) w u db jobs now = moved_on true w u db jobs now
    after_players (ok (some (suc n))) w u db jobs now = rw (positive n) (refl, db, jobs)

    answered :
        (awake forced : Bool) (w u : World C)
        → u.db ≡ w.db
        → u.jobs ≡ w.jobs
        → u.now ≡ w.now
        → IsAnswered awake forced (B.players_online name u.outside).0 w (
            (when (awake && not forced) (refuse_online settings B name)
                >> request settings B tenant name force awake meanwhile row)
              u)
    answered true false w u db jobs now =
        after_players (B.players_online name u.outside).0 w
          (record u { outside = (B.players_online name u.outside).1 }) db jobs now
    answered true true w u db jobs now = moved_on true w u db jobs now
    answered false forced w u db jobs now = moved_on false w u db jobs now

    after_status :
        (r : Result StatefulSetStatus) (w u : World C)
        → u.db ≡ w.db
        → u.jobs ≡ w.jobs
        → u.now ≡ w.now
        → IsDeleteOutcome r (B.players_online name u.outside).0 w (
            carry_on r
              (λ sts.
                when (is_awake (replica_state sts) && not force) (refuse_online settings B name)
                >> request settings B tenant name force
                    (is_awake (replica_state sts))
                    meanwhile
                    row)
              u)
    after_status (ok sts) w u db jobs now =
        answered (is_awake (replica_state sts)) force w u db jobs now
    after_status (err e) w u db jobs now = (refl, db, jobs)

    -- A delete that may go on asks an awake server for its players, unless it has `force`; if the
    -- cluster fails or tells of players it raises that error, the players with their number, and
    -- leaves the database and the jobs as they are; else it leaves the row at `deleting` with one
    -- job and one event that names the status to go back to, if the row still had the status that
    -- the request had read, and neither job nor event if another request had moved the row
    -- meanwhile.
    pub begin_remove_outcome :
        (w : World C)
        → IsDeleteOutcome
            (B.statefulset_status name w.outside).0
            (B.players_online name (B.statefulset_status name w.outside).1).0
            w
            (begin_remove settings B tenant name force meanwhile row w)
    unfolding begin_remove
    begin_remove_outcome w =
        after_status (B.statefulset_status name w.outside).0 w
          (record w { outside = (B.statefulset_status name w.outside).1 }) refl refl refl
