-- ===== src/Db/ExportLimit.antt =====
-- What `reserve_export` guards (src/dsh_api/db.py): one export of a server at a time, and so many
-- a day.
use dsh_api.Prelude.{
  none, ltb, ℕ, ◌-◌, ◌/◌, ◌≤◌, String, ◌≡◌, refl, ◌∙◌, Bool, true, false, ◌&&◌, not, Option, some,
  List, [], ◌∷◌, arith, any, keep, count_by, update_where, count_by-append, count_by-keep-le,
  count_by_of_any, ◌==◌, eq_iff, Bool-cases, inl, inr,
}
use dsh_api.Action.{Result, ok, err}
use dsh_api.Db.Rows.{Db, Event, ExportRow, is_active, micros, now_iso}
use dsh_api.Db.Events.{record_event, event_of}
use dsh_api.Db.Exports.{
  Area, ExportField, set_field, set_status, set_phase, set_snapshot, set_stats, set_error, set_x1,
  set_x2, set_z1, set_z2, set_finished_at, set_expires_at, set_fields, has_id, is_active_of,
  is_start, starts_since, can_export, export_queued, queued_export, reserve_export, update_export,
  delete_export, delete_exports_of,
}

-- An export that started: of whom, and its stamp.
abbrev pub Start : Type 0
Start = String × ℕ

-- A database at an instant, with the exports that started so far, the last one first.
pub record Clocked : Type 0 where
  pub now : ℕ
  pub db : Db
  pub started : List Start

-- A reservation that answers with a row starts an export.
abbrev pub noted : Result (Option ExportRow) → Start → List Start → List Start
noted (ok (some row)) start starts = start ∷ starts
noted (ok none) start starts = starts
noted (err e) start starts = starts

abbrev pub after_reservation :
    (id server tenant : String) (area : Option Area) (daily_limit window : ℕ) → Clocked → Clocked
after_reservation id server tenant area daily_limit window c = record c {
  db = (reserve_export id server tenant area daily_limit window c.now c.db).1;
  started =
      noted (reserve_export id server tenant area daily_limit window c.now c.db).0
        (tenant, c.now / micros) c.started;
}

-- An export of the tenant that started after an instant.
abbrev pub is_started : String → ℕ → Start → Bool
is_started tenant since start = start.0 == tenant && ltb since start.1

-- One active export of each tenant's server, and no more exports that started in the window than
-- the limit; each of them is in the log, which has no more in the window either.
pub record ExportsHold (daily_limit window : ℕ) (c : Clocked) : Type 0 where
  pub one_active : (server tenant : String) → count_by (is_active_of server tenant) c.db.exports ≤ 1
  pub limited :
      (tenant : String)
      → count_by (is_started tenant ((c.now - window) / micros)) c.started ≤ daily_limit
  pub logged :
      (tenant : String) (since : ℕ)
      → count_by (is_started tenant since) c.started ≤ count_by (is_start tenant since) c.db.events
  pub within : (tenant : String) → starts_since tenant window c.now c.db ≤ daily_limit

-- A row of that id would become active that is not. The worker starts a queued export only, and all
-- other updates end one.
abbrev pub restarts : String → List ExportField → ExportRow → Bool
restarts id fields e =
    has_id id e && not (is_active e.status) && is_active (set_fields fields e).status

-- Any run of the transactions that read or write the exports or the events, while the clock goes on.
pub data Exporting (daily_limit window : ℕ) (start : Clocked) : Clocked → Type 0 where
  now_at : Exporting daily_limit window start start
  tick :
      (c : Clocked) (later : ℕ)
      → c.now ≤ later
      → Exporting daily_limit window start c
      → Exporting daily_limit window start (record c { now = later })
  reserved :
      (c : Clocked) (id server tenant : String) (area : Option Area)
      → Exporting daily_limit window start c
      → Exporting daily_limit window start
          (after_reservation id server tenant area daily_limit window c)
  updated :
      (c : Clocked) (id : String) (fields : List ExportField)
      → any (restarts id fields) c.db.exports ≡ false
      → Exporting daily_limit window start c
      → Exporting daily_limit window start (record c { db = (update_export id fields c.db).1 })
  deleted :
      (c : Clocked) (id : String)
      → Exporting daily_limit window start c
      → Exporting daily_limit window start (record c { db = delete_export id c.db })
  forgotten :
      (c : Clocked) (server : String)
      → Exporting daily_limit window start c
      → Exporting daily_limit window start (record c { db = (delete_exports_of server c.db).1 })
  recorded :
      (c : Clocked) (tenant : String) (server : Option String) (kind detail : String)
      → (kind == "export.requested") ≡ false
      → Exporting daily_limit window start c
      → Exporting daily_limit window start
          (record c { db = record_event tenant server kind detail c.now c.db })

starts_mono :
    (tenant : String) (a b : ℕ) (es : List Event)
    → a ≤ b
    → count_by (is_start tenant b) es ≤ count_by (is_start tenant a) es
starts_mono tenant a b [] h = omega arith
starts_mono tenant a b (e ∷ es) h = ground (arith, starts_mono tenant a b es h)

set_field-server :
    (f : ExportField) (e : ExportRow)
    → ((set_field f e).server ≡ e.server) × ((set_field f e).tenant_id ≡ e.tenant_id)
set_field-server (set_status v) e = (refl, refl)
set_field-server (set_phase v) e = (refl, refl)
set_field-server (set_snapshot v) e = (refl, refl)
set_field-server (set_stats v) e = (refl, refl)
set_field-server (set_error v) e = (refl, refl)
set_field-server (set_x1 v) e = (refl, refl)
set_field-server (set_z1 v) e = (refl, refl)
set_field-server (set_x2 v) e = (refl, refl)
set_field-server (set_z2 v) e = (refl, refl)
set_field-server (set_finished_at v) e = (refl, refl)
set_field-server (set_expires_at v) e = (refl, refl)

set_fields-server :
    (fields : List ExportField) (e : ExportRow)
    → ((set_fields fields e).server ≡ e.server) × ((set_fields fields e).tenant_id ≡ e.tenant_id)
set_fields-server [] e = (refl, refl)
set_fields-server (f ∷ fields) e =
    let (server, tenant) = set_fields-server fields (set_field f e) in
    let (server', tenant') = set_field-server f e in (server ∙ server', tenant ∙ tenant')

update-active :
    (server tenant id : String) (fields : List ExportField) (es : List ExportRow)
    → any (restarts id fields) es ≡ false
    → count_by (is_active_of server tenant) (update_where (has_id id) (set_fields fields) es)
      ≤ count_by (is_active_of server tenant) es
update-active server tenant id fields [] h = omega arith
update-active server tenant id fields (e ∷ es) h =
    ground (arith, set_fields-server fields e, update-active server tenant id fields es)

module _ {daily_limit window : ℕ} where
  -- What is in the log bounds what started.
  holds :
      (c : Clocked)
      → ((server tenant : String) → count_by (is_active_of server tenant) c.db.exports ≤ 1)
      → ((tenant : String) (since : ℕ)
          → count_by (is_started tenant since) c.started
            ≤ count_by (is_start tenant since) c.db.events)
      → ((tenant : String) → starts_since tenant window c.now c.db ≤ daily_limit)
      → ExportsHold daily_limit window c
  unfolding now_iso
  holds c one_active logged within = record {
    one_active = one_active;
    limited = λ t. omega (arith, logged t ((c.now - window) / micros), within t);
    logged = logged;
    within = within;
  }

  tick-ExportsHold :
      (c : Clocked) (later : ℕ)
      → c.now ≤ later
      → ExportsHold daily_limit window c
      → ExportsHold daily_limit window (record c { now = later })
  unfolding now_iso
  tick-ExportsHold c later le h =
      holds (record c { now = later }) h.one_active h.logged
        λ tenant. omega (
          arith,
          h.within tenant,
          starts_mono tenant ((c.now - window) / 1000000) ((later - window) / 1000000) c.db.events
              (omega arith),
        )

  -- The export that is queued is in the log.
  queued-ExportsHold :
      (c : Clocked) (id server tenant : String) (area : Option Area) (answer : Option ExportRow)
      → can_export server tenant daily_limit window c.now c.db ≡ true
      → ExportsHold daily_limit window c
      → ExportsHold daily_limit window (record c {
        db = export_queued id server tenant area c.now c.db;
        started = noted (ok answer) (tenant, c.now / micros) c.started;
      })
  unfolding can_export record_event now_iso
  queued-ExportsHold c id server tenant area answer free h =
      holds _
        (λ s t. ground (
          arith,
          h.one_active s t,
          eq_iff server s,
          eq_iff tenant t,
          count_by_of_any (is_active_of server tenant) c.db.exports,
          count_by-append (is_active_of s t) c.db.exports
              (queued_export id server tenant area (now_iso c.now) ∷ []),
        ))
        (noted_in_log answer)
        λ t. ground (
          arith,
          h.within t,
          eq_iff tenant t,
          count_by-append (is_start t (now_iso (c.now - window))) c.db.events
              (event_of tenant (some server) "export.requested" id (now_iso c.now) ∷ []),
        )
    where
      noted_in_log :
          (answer : Option ExportRow) (t : String) (since : ℕ)
          → count_by (is_started t since) (noted (ok answer) (tenant, c.now / micros) c.started)
            ≤ count_by (is_start t since) (export_queued id server tenant area c.now c.db).events
      noted_in_log none t since = ground (
        arith,
        h.logged t since,
        count_by-append (is_start t since) c.db.events
            (event_of tenant (some server) "export.requested" id (c.now / micros) ∷ []),
      )
      noted_in_log (some row) t since = ground (
        arith,
        h.logged t since,
        count_by-append (is_start t since) c.db.events
            (event_of tenant (some server) "export.requested" id (c.now / micros) ∷ []),
      )

  reserve_export-ExportsHold :
      (c : Clocked) (id server tenant : String) (area : Option Area)
      → ExportsHold daily_limit window c
      → ExportsHold daily_limit window
          (after_reservation id server tenant area daily_limit window c)
  unfolding reserve_export
  reserve_export-ExportsHold c id server tenant area h =
      elim (Bool-cases (can_export server tenant daily_limit window c.now c.db)) [
        | inr full ↦ rw full h
        | inl free ↦ elim (Bool-cases (any (has_id id) c.db.exports)) [
          | inl taken ↦ rw (free, taken) h
          | inr fresh ↦ rw (free, fresh) (queued-ExportsHold c id server tenant area _ free h)
        ]
      ]

  update_export-ExportsHold :
      (c : Clocked) (id : String) (fields : List ExportField)
      → any (restarts id fields) c.db.exports ≡ false
      → ExportsHold daily_limit window c
      → ExportsHold daily_limit window (record c { db = (update_export id fields c.db).1 })
  unfolding update_export
  update_export-ExportsHold c id [] same h = h
  update_export-ExportsHold c id (f ∷ fields) same h =
      holds _
        (λ s t.
          omega (arith, h.one_active s t, update-active s t id (f ∷ fields) c.db.exports same))
        h.logged h.within

  keep-ExportsHold :
      (c : Clocked) (p : ExportRow → Bool)
      → ExportsHold daily_limit window c
      → ExportsHold daily_limit window
          (record c { db = record c.db { exports = keep p c.db.exports } })
  keep-ExportsHold c p h =
      holds _
        (λ s t. omega (arith, h.one_active s t, count_by-keep-le (is_active_of s t) p c.db.exports))
        h.logged h.within

  record_event-ExportsHold :
      (c : Clocked) (tenant : String) (server : Option String) (kind detail : String)
      → (kind == "export.requested") ≡ false
      → ExportsHold daily_limit window c
      → ExportsHold daily_limit window
          (record c { db = record_event tenant server kind detail c.now c.db })
  unfolding record_event
  record_event-ExportsHold c tenant server kind detail other h =
      holds _ h.one_active
        (λ t since. ground (
          arith,
          h.logged t since,
          count_by-append (is_start t since) c.db.events
              (event_of tenant server kind detail (now_iso c.now) ∷ []),
        ))
        λ t. ground (
          arith,
          h.within t,
          count_by-append (is_start t (now_iso (c.now - window))) c.db.events
              (event_of tenant server kind detail (now_iso c.now) ∷ []),
        )

  -- Whatever exports are reserved, updated and deleted and whatever is recorded, in whatever
  -- order and however the clock goes on, a tenant's server has at most one export that is queued
  -- or running; of the reservations that answered with a row, the deleted exports among them, a
  -- tenant has at most `daily_limit` in the window that ends now, and each is in the log, if that
  -- holds at the start; an update may make active only what is.
  pub Exporting-ExportsHold :
      (start c : Clocked)
      → ExportsHold daily_limit window start
      → Exporting daily_limit window start c
      → ExportsHold daily_limit window c
  unfolding delete_export delete_exports_of
  Exporting-ExportsHold start c h now_at = h
  Exporting-ExportsHold start c h (tick b later le run) =
      tick-ExportsHold b later le (Exporting-ExportsHold start b h run)
  Exporting-ExportsHold start c h (reserved b id server tenant area run) =
      reserve_export-ExportsHold b id server tenant area (Exporting-ExportsHold start b h run)
  Exporting-ExportsHold start c h (updated b id fields same run) =
      update_export-ExportsHold b id fields same (Exporting-ExportsHold start b h run)
  Exporting-ExportsHold start c h (deleted b id run) =
      keep-ExportsHold b _ (Exporting-ExportsHold start b h run)
  Exporting-ExportsHold start c h (forgotten b server run) =
      keep-ExportsHold b _ (Exporting-ExportsHold start b h run)
  Exporting-ExportsHold start c h (recorded b tenant server kind detail other run) =
      record_event-ExportsHold b tenant server kind detail other
        (Exporting-ExportsHold start b h run)
