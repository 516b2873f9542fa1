-- ===== src/Feedback/Limit.antt =====
-- The rate limit of src/dsh_api/feedback.py, over any run of requests.
use dsh_api.Prelude.{
  ℕ, suc, ◌-◌, ◌≤◌, ◌/◌, String, ◌≡◌, refl, Option, none, some, List, [], ◌∷◌, ◌++◌, arith, All,
  find, count_by, count_by-append, update_where, ltb, eqb, eq_iff, Bool-cases, inl, inr,
  if◌then◌else◌,
}
use dsh_api.Action.{ok, err, feedback_rate_limited}
use dsh_api.Db.Rows.{Db, FeedbackRow, now_iso}
use dsh_api.Db.Events.{record_event}
use dsh_api.Db.Feedback.{
  get_feedback, reserve_feedback, count_feedback_since, set_feedback_status, is_recent,
}
use dsh_api.Server.World.{World}
use dsh_api.Feedback.{submit, log_submit, set_status, rate_limit, rate_window}

-- What a user sent in the window that ends now.
abbrev pub sent : {C : Type 0} → String → World C → ℕ
sent username w = count_feedback_since username rate_window w.now w.db

abbrev pub IsWithinLimit : {C : Type 0} → World C → Type 0
IsWithinLimit w = (username : String) → sent username w ≤ rate_limit

-- What is recent later was recent before.
count_mono :
    (username : String) (a b : ℕ) (rows : List FeedbackRow)
    → a ≤ b
    → count_by (is_recent username b) rows ≤ count_by (is_recent username a) rows
count_mono username a b [] h = omega arith
count_mono username a b (f ∷ rows) h = ground (arith, count_mono username a b rows h)

count_update :
    (username : String) (since id : ℕ) (status : String) (rows : List FeedbackRow)
    → count_by
        (is_recent username since)
        (update_where (λ (f : FeedbackRow). eqb f.id id) (λ f. record f { status = status }) rows)
      ≡ count_by (is_recent username since) rows
count_update username since id status [] = refl
count_update username since id status (f ∷ rows) =
    ground (arith, count_update username since id status rows)

find_fresh :
    (rows : List FeedbackRow) (row : FeedbackRow) (seq : ℕ)
    → row.id ≡ suc seq
    → All (λ (f : FeedbackRow). f.id ≤ seq) rows
    → find (λ (f : FeedbackRow). eqb f.id row.id) (rows ++ row ∷ []) ≡ some row
find_fresh [] row seq same h = ground arith
find_fresh (f ∷ rows) row seq same h = ground (arith, h.0, find_fresh rows row seq same h.1)

reserve-limit :
    (username by message : String) (page : Option String) (now : ℕ) (db : Db)
    → count_feedback_since username rate_window now db ≤ rate_limit
    → count_feedback_since username rate_window now
        (reserve_feedback by message page rate_limit rate_window now db).1
      ≤ rate_limit
unfolding reserve_feedback count_feedback_since get_feedback now_iso
reserve-limit username by message page now db h =
    let row : FeedbackRow = record {
      id = suc db.feedback_seq;
      username = by;
      message = message;
      page = page;
      created_at = now / 1000000;
      status = "new";
    } in
    ground (
      arith,
      eq_iff by username,
      count_by-append (is_recent username ((now - rate_window) / 1000000)) db.feedback (row ∷ []),
    )

module _ {C : Type 0} where
  log_submit-sent :
      (username by : String) (row : Option FeedbackRow) (w : World C)
      → sent username (log_submit by row w).1 ≡ sent username w
  unfolding record_event count_feedback_since
  log_submit-sent username by none w = refl
  log_submit-sent username by (some row) w = refl

  -- Ids are given in order, so the next one is new.
  abbrev pub IsNumbered : World C → Type 0
  IsNumbered w = All (λ (f : FeedbackRow). f.id ≤ w.db.feedback_seq) w.db.feedback

  -- The message as it is stored.
  abbrev pub message_row :
      (username message : String) (page : Option String) (w : World C) → FeedbackRow
  message_row username message page w = record {
    id = suc w.db.feedback_seq;
    username = username;
    message = message;
    page = page;
    created_at = now_iso w.now;
    status = "new";
  }

  -- If the ids of the table are at most its sequence, a user below the limit gets the message
  -- stored as it was sent, and one who has reached it is refused and changes nothing.
  pub submit_accepts_below_limit :
      (username message : String) (page : Option String) (w : World C)
      → IsNumbered w
      → (if ltb (sent username w) rate_limit
          then ((submit username message page w).0 ≡ ok (message_row username message page w))
            × ((submit username message page w).1.db.feedback
                ≡ w.db.feedback ++ message_row username message page w ∷ [])
          else ((submit username message page w).0 ≡ err (feedback_rate_limited rate_limit))
            × ((submit username message page w).1.db ≡ w.db))
  unfolding submit reserve_feedback count_feedback_since get_feedback record_event now_iso
  submit_accepts_below_limit username message page w numbered =
      let fresh =
        find_fresh w.db.feedback (message_row username message page w) w.db.feedback_seq refl
          numbered in
      elim (Bool-cases (ltb (sent username w) rate_limit)) [
        | inl below ↦ rw below (ground (arith, below, fresh), ground (arith, below, fresh))
        | inr above ↦ rw above (ground (arith, above), ground (arith, above))
      ]

  -- The runs of the service: the clock goes on, and requests come in any order.
  pub data Reaches (start : World C) : World C → Type 0 where
    now_at : Reaches start start
    tick :
        (w : World C) (later : ℕ)
        → w.now ≤ later
        → Reaches start w
        → Reaches start (record w { now = later })
    submitted :
        (w : World C) (username message : String) (page : Option String)
        → Reaches start w
        → Reaches start (submit username message page w).1
    triaged :
        (w : World C) (id : ℕ) (status : String)
        → Reaches start w
        → Reaches start (set_status id status w).1

  tick-IsWithinLimit :
      (w : World C) (later : ℕ)
      → w.now ≤ later
      → IsWithinLimit w
      → IsWithinLimit (record w { now = later })
  unfolding count_feedback_since now_iso
  tick-IsWithinLimit w later h within username = omega (
    arith,
    within username,
    count_mono username ((w.now - rate_window) / 1000000) ((later - rate_window) / 1000000)
        w.db.feedback (omega arith),
  )

  submit-IsWithinLimit :
      (w : World C) (by message : String) (page : Option String)
      → IsWithinLimit w
      → IsWithinLimit (submit by message page w).1
  unfolding submit
  submit-IsWithinLimit w by message page within username =
      let made = reserve_feedback by message page rate_limit rate_window w.now w.db in
      ground (
        arith,
        log_submit-sent username by made.0 (record w { db = made.1 }),
        reserve-limit username by message page w.now w.db (within username),
      )

  triage-IsWithinLimit :
      (w : World C) (id : ℕ) (status : String)
      → IsWithinLimit w
      → IsWithinLimit (set_status id status w).1
  unfolding set_status set_feedback_status count_feedback_since get_feedback
  triage-IsWithinLimit w id status within username = ground (
    arith,
    within username,
    count_update username (now_iso (w.now - rate_window)) id status w.db.feedback,
  )

  -- No user ever has more than ten messages in the hour that ends now, whatever submits and
  -- triages came before, in whatever order and however the clock went on, if that holds at the
  -- start.
  pub Reaches-IsWithinLimit :
      (start w : World C) → IsWithinLimit start → Reaches start w → IsWithinLimit w
  Reaches-IsWithinLimit start w h now_at = h
  Reaches-IsWithinLimit start w h (tick u later le run) =
      tick-IsWithinLimit u later le (Reaches-IsWithinLimit start u h run)
  Reaches-IsWithinLimit start w h (submitted u by message page run) =
      submit-IsWithinLimit u by message page (Reaches-IsWithinLimit start u h run)
  Reaches-IsWithinLimit start w h (triaged u id status run) =
      triage-IsWithinLimit u id status (Reaches-IsWithinLimit start u h run)
