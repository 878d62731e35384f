-- ===== src/Core/Timer.antt =====
-- crates/core/src/timer.rs: timer ids, and the owner that a timer id names.
pub mod Owners
use oddjobs.Prelude.{
  ◌++◌, ℕ, String, Option, none, some, Bool, if◌then◌else◌, strip_prefix, decimal, is_some,
}
use oddjobs.Core.Names.{scoped_name, split_once}
use oddjobs.Core.Owner.{OwnerId}

unfoldable pub liveness : String → String
liveness job_id = "liveness:" ++ job_id

unfoldable pub exit_deferred : String → String
exit_deferred job_id = "exit-deferred:" ++ job_id

unfoldable pub cooldown : String → String → ℕ → String
cooldown job_id trigger chain_pos =
    "cooldown:" ++ job_id ++ ":" ++ trigger ++ ":" ++ decimal chain_pos

unfoldable pub queue_retry : String → String → String
queue_retry queue_name item_id = "queue-retry:" ++ queue_name ++ ":" ++ item_id

unfoldable pub cron : String → String → String
cron cron_name namespace = "cron:" ++ scoped_name namespace cron_name

unfoldable pub queue_poll : String → String → String
queue_poll worker_name namespace = "queue-poll:" ++ scoped_name namespace worker_name

unfoldable pub liveness_agent_run : String → String
liveness_agent_run id = "liveness:ar:" ++ id

unfoldable pub exit_deferred_agent_run : String → String
exit_deferred_agent_run id = "exit-deferred:ar:" ++ id

unfoldable pub cooldown_agent_run : String → String → ℕ → String
cooldown_agent_run id trigger chain_pos =
    "cooldown:ar:" ++ id ++ ":" ++ trigger ++ ":" ++ decimal chain_pos

unfoldable pub idle_grace : String → String
idle_grace job_id = "idle-grace:" ++ job_id

unfoldable pub idle_grace_agent_run : String → String
idle_grace_agent_run id = "idle-grace:ar:" ++ id

unfoldable pub owner_liveness : OwnerId → String
owner_liveness (OwnerId.job id) = liveness id
owner_liveness (OwnerId.agent_run id) = liveness_agent_run id

unfoldable pub owner_exit_deferred : OwnerId → String
owner_exit_deferred (OwnerId.job id) = exit_deferred id
owner_exit_deferred (OwnerId.agent_run id) = exit_deferred_agent_run id

unfoldable pub owner_cooldown : OwnerId → String → ℕ → String
owner_cooldown (OwnerId.job id) trigger chain_pos = cooldown id trigger chain_pos
owner_cooldown (OwnerId.agent_run id) trigger chain_pos = cooldown_agent_run id trigger chain_pos

unfoldable pub owner_idle_grace : OwnerId → String
owner_idle_grace (OwnerId.job id) = idle_grace id
owner_idle_grace (OwnerId.agent_run id) = idle_grace_agent_run id

-- `starts_with` on a timer's text.
unfoldable pub has_kind : String → String → Bool
has_kind p t = is_some (strip_prefix p t)

unfoldable pub first_part_of : String → Option (String × String) → Option String
first_part_of rest none = some rest
first_part_of rest (some (s, t)) = some s

-- `rest.split(':').next()`
unfoldable pub first_part : String → Option String
unfolding first_part_of
first_part rest = first_part_of rest (split_once b':' rest)

-- The chain `if let Some(rest) = strip_prefix(p) { f(rest) } else { e }`.
unfoldable pub on_prefix : (String → Option String) → Option String → Option String → Option String
on_prefix f none e = e
on_prefix f (some rest) e = f rest

unfoldable pub agent_run_id_str : String → Option String
unfolding on_prefix
agent_run_id_str t = on_prefix some (strip_prefix "liveness:ar:" t) (
    on_prefix some (strip_prefix "exit-deferred:ar:" t) (
      on_prefix first_part (strip_prefix "cooldown:ar:" t)
        (on_prefix some (strip_prefix "idle-grace:ar:" t) none)))

unfoldable pub is_agent_run_timer : String → Bool
is_agent_run_timer t = is_some (agent_run_id_str t)

unfoldable pub job_id_str : String → Option String
unfolding on_prefix
job_id_str t =
    if is_agent_run_timer t
    then none
    else on_prefix some (strip_prefix "liveness:" t) (
        on_prefix some (strip_prefix "exit-deferred:" t) (
          on_prefix first_part (strip_prefix "cooldown:" t)
            (on_prefix some (strip_prefix "idle-grace:" t) none)))

owner_of : Option String → Option String → Option OwnerId
owner_of (some id) job = some (OwnerId.agent_run id)
owner_of none (some id) = some (OwnerId.job id)
owner_of none none = none

unfoldable pub owner_id : String → Option OwnerId
unfolding owner_of
owner_id t = owner_of (agent_run_id_str t) (job_id_str t)
