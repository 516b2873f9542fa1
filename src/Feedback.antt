-- ===== src/Feedback.antt =====
-- src/dsh_api/feedback.py: what users say, and how many times an hour they may say it.
pub mod Limit
use dsh_api.Prelude.{ℕ, ◌*◌, String, Option, none, some, List, ◌==◌, if◌then◌else◌}
use dsh_api.Prelude.Decimal.{decimal}
use dsh_api.Action.{Act, pure, raise, feedback_rate_limited, feedback_not_found, ◌>>=◌, ◌>>◌}
use dsh_api.Db.Rows.{FeedbackRow, micros}
use dsh_api.Db.Events.{record_event}
use dsh_api.Db.Feedback.{get_feedback, reserve_feedback, list_feedback, set_feedback_status}
use dsh_api.Server.World.{World, query, write, transact}

-- `RATE_LIMIT`
abbrev pub rate_limit : ℕ
rate_limit = 10

-- `RATE_WINDOW`: an hour, in microseconds.
abbrev pub rate_window : ℕ
rate_window = 3600000000

module _ {C : Type 0} where
  abbrev pub log_submit : String → Option FeedbackRow → Act (World C) FeedbackRow
  log_submit username none = raise (feedback_rate_limited rate_limit)
  log_submit username (some row) = do
    write (record_event username none "feedback" (decimal row.id))
    pure row

  unfoldable pub submit :
      (username message : String) (page : Option String) → Act (World C) FeedbackRow
  submit username message page = do
    row ← transact (reserve_feedback username message page rate_limit rate_window)
    log_submit username row

  unfoldable pub list : String → Act (World C) (List FeedbackRow)
  list status = query (list_feedback (if status == "all" then none else some status))

  abbrev or_not_found : ℕ → Option FeedbackRow → Act (World C) FeedbackRow
  or_not_found id none = raise (feedback_not_found id)
  or_not_found id (some row) = pure row

  abbrev set_found : ℕ → String → Option FeedbackRow → Act (World C) FeedbackRow
  set_found id status none = raise (feedback_not_found id)
  set_found id status (some _) = do
    row ← transact (λ _. set_feedback_status id status)
    or_not_found id row

  unfoldable pub set_status : ℕ → String → Act (World C) FeedbackRow
  set_status id status = do found ← query (get_feedback id); set_found id status found
