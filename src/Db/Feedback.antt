-- ===== src/Db/Feedback.antt =====
-- The feedback methods of `Database` (src/dsh_api/db.py).
use dsh_api.Prelude.{
  ℕ, suc, ◌-◌, String, Bool, ◌&&◌, Option, none, some, List, [], ◌∷◌, ◌++◌, reverse, find, keep,
  count_by, update_where, ltb, leb, eqb, ◌==◌, if◌then◌else◌,
}
use dsh_api.Db.Rows.{Db, FeedbackRow, now_iso}

unfoldable pub get_feedback : ℕ → Db → Option FeedbackRow
get_feedback id db = find (λ (f : FeedbackRow). eqb f.id id) db.feedback

-- `username = ? AND created_at >= ?`
abbrev pub is_recent : String → ℕ → FeedbackRow → Bool
is_recent username since f = f.username == username && leb since f.created_at

unfoldable pub count_feedback_since : String → ℕ → ℕ → Db → ℕ
unfolding now_iso
count_feedback_since username window now db =
    count_by (is_recent username (now_iso (now - window))) db.feedback

-- The window is in microseconds. The id is one past every id that was ever given (AUTOINCREMENT).
unfoldable pub reserve_feedback :
    (username message : String) (page : Option String) (limit window now : ℕ)
    → Db
    → Option FeedbackRow × Db
unfolding count_feedback_since get_feedback now_iso
reserve_feedback username message page limit window now db =
    if ltb (count_feedback_since username window now db) limit
    then (let id = suc db.feedback_seq in
        let after = record db {
          feedback =
              db.feedback
              ++ record {
                id = id;
                username = username;
                message = message;
                page = page;
                created_at = now_iso now;
                status = "new";
              }
                ∷ [];
          feedback_seq = id;
        } in
        (get_feedback id after, after))
    else (none, db)

-- Newest first.
unfoldable pub list_feedback : Option String → Db → List FeedbackRow
list_feedback none db = reverse db.feedback
list_feedback (some status) db =
    reverse (keep (λ (f : FeedbackRow). f.status == status) db.feedback)

unfoldable pub set_feedback_status : ℕ → String → Db → Option FeedbackRow × Db
unfolding get_feedback
set_feedback_status id status db =
    let after = record db {
      feedback =
          update_where (λ (f : FeedbackRow). eqb f.id id) (λ f. record f { status = status })
            db.feedback;
    } in
    (get_feedback id after, after)
