-- ===== src/Core/Event/Views.antt =====
-- crates/core/src/event.rs, the methods of `Event`: agent events against agent states, the type tag,
-- and the job that an event is about.
use oddjobs.Prelude.{String, Option, none, some, is_some, if◌then◌else◌}
use oddjobs.Core.Agent.{AgentState}
use oddjobs.Core.Owner.{OwnerId}
use oddjobs.Core.Event.{Event}

unfoldable pub from_agent_state : String → AgentState → OwnerId → Event
from_agent_state agent_id AgentState.working owner = Event.agent_working agent_id owner
from_agent_state agent_id AgentState.waiting_for_input owner = Event.agent_waiting agent_id owner
from_agent_state agent_id (AgentState.failed e) owner = Event.agent_failed agent_id e owner
from_agent_state agent_id (AgentState.exited code) owner = Event.agent_exited agent_id code owner
from_agent_state agent_id AgentState.session_gone owner = Event.agent_gone agent_id owner

unfoldable pub as_agent_state : Event → Option (String × AgentState × OwnerId)
as_agent_state (Event.agent_working a o) = some (a, AgentState.working, o)
as_agent_state (Event.agent_waiting a o) = some (a, AgentState.waiting_for_input, o)
as_agent_state (Event.agent_failed a e o) = some (a, AgentState.failed e, o)
as_agent_state (Event.agent_exited a code o) = some (a, AgentState.exited code, o)
as_agent_state (Event.agent_gone a o) = some (a, AgentState.session_gone, o)
as_agent_state _ = none

unfoldable pub name : Event → String
name (Event.agent_working _ _) = "agent:working"
name (Event.agent_waiting _ _) = "agent:waiting"
name (Event.agent_failed _ _ _) = "agent:failed"
name (Event.agent_exited _ _ _) = "agent:exited"
name (Event.agent_gone _ _) = "agent:gone"
name (Event.agent_input _ _) = "agent:input"
name (Event.agent_signal _ _ _) = "agent:signal"
name (Event.agent_idle _) = "agent:idle"
name (Event.agent_stop _) = "agent:stop"
name (Event.agent_prompt _ _ _ _) = "agent:prompt"
name (Event.command_run _ _ _ _ _ _ _) = "command:run"
name (Event.job_created _ _ _ _ _ _ _ _ _ _) = "job:created"
name (Event.job_advanced _ _) = "job:advanced"
name (Event.job_updated _ _) = "job:updated"
name (Event.job_resume _ _ _ _) = "job:resume"
name (Event.job_cancelling _) = "job:cancelling"
name (Event.job_cancel _) = "job:cancel"
name (Event.job_deleted _) = "job:deleted"
name (Event.runbook_loaded _ _ _) = "runbook:loaded"
name (Event.session_created _ _) = "session:created"
name (Event.session_input _ _) = "session:input"
name (Event.session_deleted _) = "session:deleted"
name (Event.shell_exited _ _ _ _ _) = "shell:exited"
name (Event.step_started _ _ _ _) = "step:started"
name (Event.step_waiting _ _ _ _) = "step:waiting"
name (Event.step_completed _ _) = "step:completed"
name (Event.step_failed _ _ _) = "step:failed"
name Event.shutdown = "system:shutdown"
name (Event.timer_start _) = "timer:start"
name (Event.workspace_created _ _ _ _ _) = "workspace:created"
name (Event.workspace_ready _) = "workspace:ready"
name (Event.workspace_failed _ _) = "workspace:failed"
name (Event.workspace_deleted _) = "workspace:deleted"
name (Event.workspace_drop _) = "workspace:drop"
name (Event.cron_started _ _ _ _ _ _) = "cron:started"
name (Event.cron_stopped _ _) = "cron:stopped"
name (Event.cron_once _ _ _ _ _ _ _ _ _ _) = "cron:once"
name (Event.cron_fired _ _ _ _) = "cron:fired"
name (Event.cron_deleted _ _) = "cron:deleted"
name (Event.worker_started _ _ _ _ _ _) = "worker:started"
name (Event.worker_wake _ _) = "worker:wake"
name (Event.worker_poll_complete _ _) = "worker:poll_complete"
name (Event.worker_take_complete _ _ _ _ _) = "worker:take_complete"
name (Event.worker_item_dispatched _ _ _ _) = "worker:item_dispatched"
name (Event.worker_stopped _ _) = "worker:stopped"
name (Event.worker_resized _ _ _) = "worker:resized"
name (Event.worker_deleted _ _) = "worker:deleted"
name (Event.queue_pushed _ _ _ _ _) = "queue:pushed"
name (Event.queue_taken _ _ _ _) = "queue:taken"
name (Event.queue_completed _ _ _) = "queue:completed"
name (Event.queue_failed _ _ _ _) = "queue:failed"
name (Event.queue_dropped _ _ _) = "queue:dropped"
name (Event.queue_item_retry _ _ _) = "queue:item_retry"
name (Event.queue_item_dead _ _ _) = "queue:item_dead"
name (Event.decision_created _ _ _ _ _ _ _ _ _) = "decision:created"
name (Event.decision_resolved _ _ _ _ _) = "decision:resolved"
name (Event.agent_run_created _ _ _ _ _ _ _ _) = "agent_run:created"
name (Event.agent_run_started _ _) = "agent_run:started"
name (Event.agent_run_status_changed _ _ _) = "agent_run:status_changed"
name (Event.agent_run_resume _ _ _) = "agent_run:resume"
name (Event.agent_run_deleted _) = "agent_run:deleted"
name Event.custom = "custom"

-- `if flag.is_some() { None } else { Some(job_id) }`
unless : Option String → String → Option String
unless flag job_id = if is_some flag then none else some job_id

owner_job_id : OwnerId → Option String
owner_job_id (OwnerId.job id) = some id
owner_job_id (OwnerId.agent_run _) = none

of_job_owner : OwnerId → String → Option String
of_job_owner (OwnerId.agent_run _) job_id = none
of_job_owner (OwnerId.job _) job_id = some job_id

unfoldable pub job_id : Event → Option String
unfolding unless owner_job_id of_job_owner
job_id (Event.command_run id _ _ _ _ _ _) = some id
job_id (Event.shell_exited id _ _ _ _) = some id
job_id (Event.step_started id _ _ _) = some id
job_id (Event.step_waiting id _ _ _) = some id
job_id (Event.step_completed id _) = some id
job_id (Event.step_failed id _ _) = some id
job_id (Event.job_created id _ _ _ _ _ _ _ _ _) = some id
job_id (Event.job_advanced id _) = some id
job_id (Event.job_updated id _) = some id
job_id (Event.job_resume id _ _ _) = some id
job_id (Event.job_cancelling id) = some id
job_id (Event.job_cancel id) = some id
job_id (Event.job_deleted id) = some id
job_id (Event.worker_item_dispatched _ _ id _) = some id
job_id (Event.cron_once _ id _ _ _ agent_name _ _ _ _) = unless agent_name id
job_id (Event.cron_fired _ id agent_run_id _) = unless agent_run_id id
job_id (Event.decision_created _ id _ owner _ _ _ _ _) = of_job_owner owner id
job_id (Event.session_created _ owner) = owner_job_id owner
job_id _ = none
