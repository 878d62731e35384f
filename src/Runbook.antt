-- ===== src/Runbook.antt =====
-- crates/runbook/src: what the engine reads of a runbook (job.rs, command.rs, queue.rs, parser.rs).
-- The attach preference of an agent step, which is for the command line, is left out.
pub mod Template
use oddjobs.Prelude.{
  String, Option, none, some, List, [], ◌∷◌, Bool, true, false, ◌==◌, if◌then◌else◌,
}
use oddjobs.Prelude.Map.{Map}
use oddjobs.Engine.Retry.{RetryConfig}

pub data RunDirective : Type 0 where
  shell : (command : String) → RunDirective
  job : (name : String) → RunDirective
  agent : (name : String) → RunDirective

unfoldable pub is_agent : RunDirective → Bool
is_agent (RunDirective.agent _) = true
is_agent _ = false

-- A `StepTransition` is the name of its step.
pub record StepDef : Type 0 where
  pub name : String
  pub run : RunDirective
  pub on_done : Option String
  pub on_fail : Option String
  pub on_cancel : Option String

pub record NotifyConfig : Type 0 where
  pub on_start : Option String
  pub on_done : Option String
  pub on_fail : Option String

-- The fields that the engine reads once a job runs.
pub record JobDef : Type 0 where
  pub on_done : Option String
  pub on_fail : Option String
  pub on_cancel : Option String
  pub notify : NotifyConfig
  pub steps : List StepDef

pub record QueueDef : Type 0 where
  pub list_command : Option String  -- `list`
  pub retry : Option RetryConfig

pub record Runbook : Type 0 where
  pub jobs : Map JobDef
  pub queues : Map QueueDef

-- `steps.iter().find(|p| p.name == name)`
unfoldable pub find_step : String → List StepDef → Option StepDef
find_step name [] = none
find_step name (p ∷ steps) =
    let rest = find_step name steps in if p.name == name then some p else rest

unfoldable pub get_step : String → JobDef → Option StepDef
get_step name def = find_step name def.steps
