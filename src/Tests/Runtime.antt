-- ===== src/Tests/Runtime.antt =====
-- The properties about the runtime of jobs, at concrete inputs.
use oddjobs.Prelude.{◌++◌, none, some, [], ◌∷◌, true, ◌≡◌, refl, arith}
use mathlib.Core.Option
use oddjobs.Prelude.Map
use oddjobs.Engine.Worker.{WorkerState, WorkerStatus, QueueType}
use oddjobs.Storage.State.{QueueItem, QueueItemStatus}
use oddjobs.Storage.Apply.Queues.{new_item}
use oddjobs.Runbook.Template.{escape_for_shell, read_quoted, read_quoted-escape_for_shell}
use oddjobs.Core.Event.{Event}
use oddjobs.Core.Job.{Job, new_with_epoch_ms}
use oddjobs.Core.Job.{
  get_step_visits, is_failed, is_terminal, is_terminal_step, reset_action_attempts,
  clear_agent_signal, finalize_current_step, update_last_open, push_step, record_step_visit,
}
use oddjobs.Storage.Apply
use oddjobs.Storage.Apply.{apply_event}
use oddjobs.Storage.Apply.Jobs.{skips, advance, revive, keep_or_reset, fail_step}
use oddjobs.Storage.Lookup.{get_job, get_by_prefix}
use oddjobs.Engine.Breaker.{trips}
use oddjobs.Engine.Steps.{step_start_effects, cancellation_transition_effects, session_effects}
use oddjobs.Storage.State.{empty_state}
use oddjobs.Storage.Lookup.Prefixes.{HasNoMatch}
use oddjobs.Engine.Runtime.{
  World, Answer, Creation, RunbookLookup, Services, give, require_job, with_job, cached_runbook,
  match_runbook, cached, deregister_agent, quietly, without_events, ◌>>◌, continue_with, prepend,
}
use oddjobs.Engine.Runtime.Executor.{
  execute_all, execute, execute_inner, emit_event, note_effect, note,
}
use oddjobs.Engine.Runtime.Jobs.{
  leave_step, leave_agent, start_step, start_defined, run_step, enter_step, emit_notify, step_of,
  agent_of, last_record,
}
use oddjobs.Engine.Runtime.Transitions.{
  advance_job, fail_job, cancel_job, cancel_in, cancel_by, cancel_to, start_next, step_on_cancel,
}
use oddjobs.Engine.Runtime.Handlers.{handle_job_cancel, process_job_deleted}
use oddjobs.Engine.Runtime.Outcomes.{OnOk}
use oddjobs.Engine.Runtime.Applied.{Applies, Accounts}
use oddjobs.Engine.Runtime.Executed.{lost_by, execute-Applies}
use oddjobs.Core.Effect.{Effect}
use oddjobs.Engine.Runtime.Durable.{AreFaithful}
use oddjobs.Engine.Runtime.Lost.{left_by, lost_by_advance, lost_by_cancel, transitions-Accounts}
use oddjobs.Engine.Runtime.Deletion.{process_job_deleted-keeps}
use oddjobs.Engine.Runtime.Cancelling.{LeaveJobs}
use oddjobs.Engine.Runtime.Starting.{HasStarted, advance_job-HasStarted}
use oddjobs.Engine.Runtime.Stopping.{handle_job_cancel_twice}
use oddjobs.Runbook.{
  RunDirective, StepDef, NotifyConfig, JobDef, QueueDef, Runbook, is_agent, get_step, find_step,
}

abbrev plan_step : StepDef
plan_step = record {
  name = "plan";
  run = RunDirective.agent "planner";
  on_done = some "test";
  on_fail = none;
  on_cancel = some "test";
}

abbrev test_step : StepDef
test_step = record {
  name = "test";
  run = RunDirective.shell "make test";
  on_done = none;
  on_fail = none;
  on_cancel = none;
}

abbrev lint_step : StepDef
lint_step = record {
  name = "lint";
  run = RunDirective.shell "make lint";
  on_done = some "test";
  on_fail = none;
  on_cancel = none;
}

abbrev silent : NotifyConfig
silent = record { on_start = none; on_done = none; on_fail = none }

abbrev build : JobDef
build = record {
  on_done = none;
  on_fail = none;
  on_cancel = none;
  notify = silent;
  steps = plan_step ∷ test_step ∷ lint_step ∷ [];
}

abbrev runbook : Runbook
runbook = record { jobs = ("build", build) ∷ []; queues = [] }

-- Adapters that never fail.
abbrev services : Services
unfolding give
services = record {
  now = 30;
  succeeds = λ effects e. true;
  spawns = λ effects e. some "tmux-2";
  creates = λ effects e. Creation.made;
  deserialize = λ value. none;
  interpolate = λ template vars. template;
  interpolate_shell = λ template vars. template;
  merged_env = λ namespace. [];
  find_runbook_by_worker = λ root name. RunbookLookup.found runbook;
  serialize = λ rb. some "json";
  content_hash = λ json. some "hash";
  item_json = λ item. item.id;
  spawn_agent = λ job_id agent input. give [];
  resume_agent = λ job step agent message input kill. give [];
}

-- On the step of an agent that has a session.
abbrev planning : Job
unfolding new_with_epoch_ms
planning =
    record (new_with_epoch_ms
      (record {
        id = "job-1";
        name = "build";
        kind = "build";
        vars = [];
        runbook_hash = "hash";
        cwd = "/tmp";
        initial_step = "plan";
        namespace = "";
        cron_name = none;
      })
      20) { session_id = some "tmux-1" }

abbrev world : World
world = record {
  state = record empty_state { jobs = ("job-1", planning) ∷ [] };
  agent_owners = [];
  runbook_cache = ("hash", runbook) ∷ [];
  worker_states = [];
  performed = [];
}

services-AreFaithful : AreFaithful services
unfolding give
services-AreFaithful = record { spawned = λ j a i w. refl }

services-LeaveJobs : LeaveJobs services
unfolding give
services-LeaveJobs = record { spawned = λ k j a i w p. p }

has_runbook : Map.get planning.runbook_hash world.runbook_cache ≡ some runbook
unfolding Map.get new_with_epoch_ms
has_runbook = refl

transitions-Accounts_example :
    let def = Map.get planning.kind runbook.jobs in
    OnOk (Accounts (lost_by_advance planning def) world.state) (advance_job services planning world)
    × OnOk
        (Accounts (left_by planning def) world.state)
        (fail_job services planning "exit code 1" world)
    × OnOk (Accounts (lost_by_cancel planning def) world.state) (cancel_job services planning world)
transitions-Accounts_example =
    transitions-Accounts services services-AreFaithful planning world "exit code 1" runbook
      has_runbook

only_job : HasNoMatch "job-1" (Map.remove "job-1" world.state.jobs)
unfolding Map.remove Map.contains_key
only_job j h = ground (arith, h)

process_job_deleted-keeps_example :
    let w' = (process_job_deleted services "job-1" world).0 in
    (Map.get "job-1" w'.state.jobs ≡ none)
    × (w'.performed ≡ world.performed)
    × (w'.state.sessions ≡ world.state.sessions)
    × (w'.state.workspaces ≡ world.state.workspaces)
    × (w'.agent_owners ≡ world.agent_owners)
process_job_deleted-keeps_example = process_job_deleted-keeps services "job-1" world only_job

has_job : Map.get planning.id world.state.jobs ≡ some planning
unfolding Map.get new_with_epoch_ms
has_job = refl

abbrev after_cancel : World
after_cancel = (handle_job_cancel services planning.id world).0

cancelled : handle_job_cancel services planning.id world ≡ (
  after_cancel,
  Answer.ok (
      Event.job_cancelling "job-1"
      ∷ Event.step_failed "job-1" "plan" "cancelled"
      ∷ Event.job_advanced "job-1" "test"
      ∷ Event.step_started "job-1" "test" none none
      ∷ []),
)
unfolding handle_job_cancel require_job with_job get_job get_by_prefix cancel_job cached_runbook
    match_runbook cached cancel_in leave_step leave_agent is_agent cancel_by cancel_to start_next
    start_step start_defined run_step enter_step emit_notify step_of get_step find_step
    step_on_cancel deregister_agent agent_of last_record execute_all execute execute_inner
    emit_event note_effect note quietly without_events ◌>>◌ continue_with prepend give trips
    get_step_visits is_terminal is_terminal_step step_start_effects cancellation_transition_effects
    session_effects apply_event skips advance Apply.Jobs.leave_step Apply.Jobs.enter_step revive
    keep_or_reset reset_action_attempts clear_agent_signal finalize_current_step update_last_open
    push_step record_step_visit fail_step is_failed Apply.Agents.fail_job new_with_epoch_ms Map.get
    Map.modify Map.map_values Map.insert
cancelled = refl

-- The effect that makes a folder for the job.
abbrev making : Effect
making = Effect.create_workspace "ws-1" "/tmp/ws" none (some "folder") none none none

execute-Applies_example :
    OnOk (Applies (lost_by making) world.state) (execute services making world)
execute-Applies_example = execute-Applies services making world

handle_job_cancel_twice_example :
    handle_job_cancel services planning.id after_cancel ≡ (after_cancel, Answer.ok [])
handle_job_cancel_twice_example =
    handle_job_cancel_twice services planning world after_cancel _ services-LeaveJobs has_job
      cancelled

-- A worker of a persisted queue.
abbrev worker : WorkerState
worker = record {
  project_root = "/p";
  runbook_hash = "hash";
  queue_name = "bugs";
  job_kind = "build";
  concurrency = 1;
  active_jobs = "job-1" ∷ [];
  status = WorkerStatus.running;
  queue_type = QueueType.persisted;
  item_job_map = ("job-1", "item-1") ∷ [];
  namespace = "";
  poll_interval = none;
  pending_takes = 0;
  inflight_items = "item-1" ∷ [];
}

abbrev taken : QueueItem
taken = record (new_item "bugs" "item-1" [] 10) {
  status = QueueItemStatus.active;
  worker_name = some "fixer";
}

-- The queue has the item, and gives it two attempts.
abbrev bugs : QueueDef
bugs = record { list_command = none; retry = some (record { attempts = 2; cooldown = "30s" }) }

abbrev bugs_runbook : Runbook
bugs_runbook = record { jobs = []; queues = ("bugs", bugs) ∷ [] }

abbrev bugs_world : World
bugs_world = record world {
  state = record empty_state { queue_items = ("bugs", taken ∷ []) ∷ [] };
  runbook_cache = ("hash", bugs_runbook) ∷ [];
}

read_quoted-escape_for_shell_example :
    read_quoted (escape_for_shell "a \"b\" $(c)" ++ "; d")
    ≡ Option.map (λ t. "a \"b\" $(c)" ++ t) (read_quoted "; d")
read_quoted-escape_for_shell_example = read_quoted-escape_for_shell "a \"b\" $(c)" "; d"

-- On a step that runs a command.
abbrev linting : Job
unfolding new_with_epoch_ms
linting =
    new_with_epoch_ms
      (record {
        id = "job-2";
        name = "build";
        kind = "build";
        vars = [];
        runbook_hash = "hash";
        cwd = "/tmp";
        initial_step = "lint";
        namespace = "";
        cron_name = none;
      })
      20

abbrev linting_world : World
linting_world = record world { state = record empty_state { jobs = ("job-2", linting) ∷ [] } }

advance_job-HasStarted_example :
    HasStarted services "test" "make test" linting (advance_job services linting linting_world)
unfolding Map.get new_with_epoch_ms get_step find_step is_agent is_terminal is_terminal_step
    get_step_visits
advance_job-HasStarted_example =
    advance_job-HasStarted services linting "test" runbook build refl test_step "make test" refl
      refl linting_world lint_step refl refl refl refl refl refl refl refl
