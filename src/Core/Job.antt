-- ===== src/Core/Job.antt =====
-- crates/core/src/job.rs: a job and the record of its steps. The two `Instant` fields are skipped
-- when a job is stored and no operation here reads them, so the model leaves them out.
use oddjobs.Prelude.{
  ℕ, String, Option, none, some, List, [], ◌∷◌, Bool, true, false, ◌||◌, ◌==◌, ltb, if◌then◌else◌,
  is_none, unwrap_or, push, modify_last,
}
use oddjobs.Prelude.Map
use oddjobs.Prelude.Map.{Map}
use oddjobs.Core.Tracker.{ActionTracker, default_tracker, inc_u32}
use oddjobs.Core.Tracker

pub data StepStatus : Type 0 where
  pending running completed failed : StepStatus
  waiting : Option String → StepStatus

-- `*status == StepStatus::Failed`
unfoldable pub is_failed : StepStatus → Bool
is_failed StepStatus.failed = true
is_failed _ = false

pub data StepOutcome : Type 0 where
  running completed : StepOutcome
  failed : String → StepOutcome
  waiting : String → StepOutcome

pub record StepRecord : Type 0 where
  pub name : String
  pub started_at_ms : ℕ
  pub finished_at_ms : Option ℕ
  pub outcome : StepOutcome
  pub agent_id : Option String
  pub agent_name : Option String

pub record JobConfig : Type 0 where
  pub id : String
  pub name : String
  pub kind : String
  pub vars : Map String
  pub runbook_hash : String
  pub cwd : String
  pub initial_step : String
  pub namespace : String
  pub cron_name : Option String

pub record Job : Type 0 where
  pub id : String
  pub name : String
  pub kind : String
  pub namespace : String
  pub step : String
  pub step_status : StepStatus
  pub step_history : List StepRecord
  pub vars : Map String
  pub runbook_hash : String
  pub cwd : String
  pub workspace_id : Option String
  pub workspace_path : Option String
  pub session_id : Option String
  pub error : Option String
  pub action_tracker : ActionTracker
  pub cancelling : Bool
  pub total_retries : ℕ
  pub step_visits : Map ℕ
  pub cron_name : Option String
  pub idle_grace_log_size : Option ℕ
  pub last_nudge_at : Option ℕ

abbrev pub max_step_visits : ℕ
max_step_visits = 5

-- The record that `push_step` and `new_with_epoch_ms` append.
unfoldable pub open_record : String → ℕ → StepRecord
open_record name epoch_ms = record {
  name = name;
  started_at_ms = epoch_ms;
  finished_at_ms = none;
  outcome = StepOutcome.running;
  agent_id = none;
  agent_name = none;
}

unfoldable pub new_with_epoch_ms : JobConfig → ℕ → Job
unfolding open_record default_tracker
new_with_epoch_ms c epoch_ms = record {
  id = c.id;
  name = c.name;
  kind = c.kind;
  namespace = c.namespace;
  step = c.initial_step;
  step_status = StepStatus.pending;
  step_history = open_record c.initial_step epoch_ms ∷ [];
  vars = c.vars;
  runbook_hash = c.runbook_hash;
  cwd = c.cwd;
  workspace_id = none;
  workspace_path = none;
  session_id = none;
  error = none;
  action_tracker = default_tracker;
  cancelling = false;
  total_retries = 0;
  step_visits = [];
  cron_name = c.cron_name;
  idle_grace_log_size = none;
  last_nudge_at = none;
}

-- Change the last record, if it is not finished.
unfoldable pub if_open : (StepRecord → StepRecord) → StepRecord → StepRecord
if_open f r = if is_none r.finished_at_ms then f r else r

unfoldable pub update_last_open : (StepRecord → StepRecord) → Job → Job
update_last_open f j = record j { step_history = modify_last (if_open f) j.step_history }

unfoldable pub finalize_current_step : StepOutcome → ℕ → Job → Job
finalize_current_step outcome epoch_ms =
    update_last_open λ r. record r { finished_at_ms = some epoch_ms; outcome = outcome }

unfoldable pub update_current_step_outcome : StepOutcome → Job → Job
update_current_step_outcome outcome = update_last_open λ r. record r { outcome = outcome }

unfoldable pub set_current_step_agent_id : String → Job → Job
set_current_step_agent_id agent_id = update_last_open λ r. record r { agent_id = some agent_id }

unfoldable pub set_current_step_agent_name : String → Job → Job
set_current_step_agent_name agent_name =
    update_last_open λ r. record r { agent_name = some agent_name }

unfoldable pub push_step : String → ℕ → Job → Job
push_step name epoch_ms j = record j {
  step_history = push j.step_history (open_record name epoch_ms);
}

-- `step == "done" || step == "failed" || step == "cancelled"`
unfoldable pub is_terminal_step : String → Bool
is_terminal_step step = step == "done" || step == "failed" || step == "cancelled"

unfoldable pub is_terminal : Job → Bool
is_terminal j = is_terminal_step j.step

-- The new job, and the new count.
unfoldable pub increment_action_attempt : String → ℕ → Job → Job × ℕ
increment_action_attempt trigger chain_pos j =
    let (tracker, count) = Tracker.increment_action_attempt trigger chain_pos j.action_tracker in
    (
      record j {
        action_tracker = tracker;
        total_retries = if ltb 1 count then inc_u32 j.total_retries else j.total_retries;
      },
      count,
    )

unfoldable pub reset_action_attempts : Job → Job
reset_action_attempts j = record j {
  action_tracker = Tracker.reset_action_attempts j.action_tracker;
}

unfoldable pub clear_agent_signal : Job → Job
clear_agent_signal j = record j { action_tracker = Tracker.clear_agent_signal j.action_tracker }

unfoldable pub get_step_visits : String → Job → ℕ
get_step_visits step j = unwrap_or (Map.get step j.step_visits) 0

-- The new job; the new count is `get_step_visits` of it.
unfoldable pub record_step_visit : String → Job → Job
record_step_visit step j = record j {
  step_visits = Map.insert step (inc_u32 (get_step_visits step j)) j.step_visits;
}
