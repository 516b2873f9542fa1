-- ===== src/Tests/Messages.antt =====
-- Runs of the feedback service.
use dsh_api.Prelude.{◌≡◌, none, [], ◌∷◌, arith}
use dsh_api.Action.{ok}
use dsh_api.Db.Feedback.{count_feedback_since}
use dsh_api.Cluster.Memory.{Fake}
use dsh_api.Server.World.{World}
use dsh_api.Feedback.{submit}
use dsh_api.Feedback.Limit.{
  IsWithinLimit, now_at, submitted, Reaches-IsWithinLimit, submit_accepts_below_limit, message_row,
}
use dsh_api.Tests.Samples.{db_with, world}

-- Nobody has said anything.
abbrev quiet : World Fake
quiet = world (db_with [])

quiet-IsWithinLimit : IsWithinLimit quiet
unfolding count_feedback_since
quiet-IsWithinLimit username = omega arith

Reaches-IsWithinLimit_example : IsWithinLimit (submit "ann" "hello" none quiet).1
Reaches-IsWithinLimit_example =
    Reaches-IsWithinLimit quiet (submit "ann" "hello" none quiet).1 quiet-IsWithinLimit
      (submitted quiet "ann" "hello" none now_at)

submit_accepts_below_limit_example :
    ((submit "ann" "hello" none quiet).0 ≡ ok (message_row "ann" "hello" none quiet))
    × ((submit "ann" "hello" none quiet).1.db.feedback ≡ message_row "ann" "hello" none quiet ∷ [])
unfolding count_feedback_since
submit_accepts_below_limit_example = submit_accepts_below_limit "ann" "hello" none quiet tt
