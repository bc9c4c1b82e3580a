-- ===== src/Tracker/Topics.antt =====
-- `TopicInfo`: the Redis channels of a job.
pub mod Distinct
use slurm_manager.Base.{◌≡◌, ◌++◌}
use slurm_manager.Base.Text.{Text, codes}

pub record TopicInfo : Type 0 where
  pub job_id : Text
  pub prefix : Text

-- `TopicInfo(job_id)`, with the default prefix.
abbrev pub topic_info : Text → TopicInfo
topic_info job_id = record { job_id = job_id; prefix = codes "info" }

-- `topic`
unfoldable pub topic : TopicInfo → Text → Text
topic i v = i.prefix ++ (codes "/" ++ (i.job_id ++ (codes "/" ++ v)))

-- The topic of a job's events of one kind.
abbrev pub job_topic : Text → Text → Text
job_topic job_id v = topic (topic_info job_id) v

abbrev pub log_key : Text
log_key = codes "log"

abbrev pub status_key : Text
status_key = codes "status"

abbrev pub heartbeat_key : Text
heartbeat_key = codes "heartbeat"
