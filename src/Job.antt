-- ===== src/Job.antt =====
-- job.rs: the states of a job, and the replies and lines that show them.
use clix.Types.{
  Job, JobStatus, denied, done, failed, queued, running, uncertain, waiting_body, waiting_capacity,
}
use clix.Error.{ClixError, capacity, unreachable}
pub mod Remote
pub mod Dispatch
use clix.Prelude.{Bool, Text, [], false, text, true, ℤ, ◌++◌, ◌∷◌}

unfoldable pub is_terminal : JobStatus → Bool
is_terminal (done _) = true
is_terminal (denied _) = true
is_terminal (failed _) = true
is_terminal (uncertain _) = true
is_terminal _ = false

unfoldable pub is_unreachable : ClixError → Bool
is_unreachable unreachable = true
is_unreachable _ = false

unfoldable pub is_capacity : ClixError → Bool
is_capacity (capacity _) = true
is_capacity _ = false

-- The `status` of a reply, and what it shows beside the job.
pub data Reply : Type 0 where
  done_reply : ℤ → Job → Reply
  denied_reply failed_reply uncertain_reply : Text → Job → Reply
  waiting_reply capacity_wait_reply : Text → Job → Reply
  running_reply queued_reply : Job → Reply

unfoldable pub asleep_message : Text → Text
asleep_message body = body ++ (text " is asleep, waiting" ++ (226 ∷ 128 ∷ 166 ∷ []))

reply_for : JobStatus → Job → Reply
unfolding asleep_message
reply_for (done exit) job = done_reply exit job
reply_for (denied reason) job = denied_reply reason job
reply_for (failed reason) job = failed_reply reason job
reply_for (uncertain reason) job = uncertain_reply reason job
reply_for waiting_body job = waiting_reply (asleep_message job.body) job
reply_for waiting_capacity job =
    capacity_wait_reply (job.body ++ text " is busy; this job is saved and waiting for capacity")
      job
reply_for running job = running_reply job
reply_for queued job = queued_reply job

unfoldable pub exec_json : Job → Reply
unfolding reply_for
exec_json job = reply_for job.status job
