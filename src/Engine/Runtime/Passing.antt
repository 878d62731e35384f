-- ===== src/Engine/Runtime/Passing.antt =====
-- What the events keep of one job in the state.
use oddjobs.Prelude.{
  ℕ, String, Option, none, some, Bool, true, ◌≡◌, refl, ap, ◌∙◌, ◌==◌, arith, Bool-cases, inl, inr,
  if_intro, if_cases,
}
use mathlib.Core.Option
use mathlib.Core.Path.{subst}
use oddjobs.Prelude.Map
use oddjobs.Prelude.Map.{Map}
use oddjobs.Prelude.Map.Laws.{get-modify, get-modify_self, get-map_values}
use oddjobs.Core.Event.{Event}
use oddjobs.Core.Job.{
  Job, is_terminal, is_terminal_step, finalize_current_step, update_last_open,
  reset_action_attempts, clear_agent_signal, push_step, record_step_visit,
  update_current_step_outcome, set_current_step_agent_id, set_current_step_agent_name,
}
use oddjobs.Storage.State.{MaterializedState}
use oddjobs.Storage.Apply.{apply_event}
use oddjobs.Storage.Apply.Agents.{fail_job}
use oddjobs.Storage.Apply.Jobs.{
  skips, advance, leave_step, enter_step, revive, keep_or_reset, start_step, when_some, fail_step,
}
use oddjobs.Engine.Steps.Ends.{advance-step}
use oddjobs.Engine.Runtime.Related.{IsItemEvent}

-- The state has a job under the id, and the test holds of it.
abbrev pub HasJob : String → (Job → Bool) → MaterializedState → Type 0
HasJob id q s = (j : Job) × (Map.get id s.jobs ≡ some j) × (q j ≡ true)

pub modified-HasJob :
    (id k : String) (q : Job → Bool) (f : Job → Job) (m : Map Job)
    → ((j : Job) → q j ≡ true → q (f j) ≡ true)
    → ((j : Job) × (Map.get id m ≡ some j) × (q j ≡ true))
    → (j : Job) × (Map.get id (Map.modify k f m) ≡ some j) × (q j ≡ true)
modified-HasJob id k q f m h (j, found, holds) = elim (Bool-cases (k == id)) [
  | inl e ↦ (f j, get-modify k id f m ∙ rw (e, found) refl, h j holds)
  | inr e ↦ (j, get-modify k id f m ∙ rw (e, found) refl, holds)
]

pub mapped-HasJob :
    (id : String) (q : Job → Bool) (f : Job → Job) (m : Map Job)
    → ((j : Job) → q j ≡ true → q (f j) ≡ true)
    → ((j : Job) × (Map.get id m ≡ some j) × (q j ≡ true))
    → (j : Job) × (Map.get id (Map.map_values f m) ≡ some j) × (q j ≡ true)
mapped-HasJob id q f m h (j, found, holds) =
    (f j, get-map_values id f m ∙ ap (Option.map f) found, h j holds)

-- The test does not read what starting and failing a step, and the end of a session, change.
pub record IsStable (q : Job → Bool) : Type 0 where
  pub on_fail : (now : ℕ) (error : String) (j : Job) → q (fail_step error now j) ≡ q j
  pub on_session : (id : Option String) (j : Job) → q (record j { session_id = id }) ≡ q j

pub cancelling-IsStable : IsStable (λ j. j.cancelling)
unfolding fail_step fail_job finalize_current_step update_last_open
cancelling-IsStable = record { on_fail = λ now error j. refl; on_session = λ id j. refl }

pub is_terminal-IsStable : IsStable is_terminal
unfolding fail_step fail_job finalize_current_step update_last_open is_terminal
is_terminal-IsStable = record { on_fail = λ now error j. refl; on_session = λ id j. refl }

pub anything-IsStable : IsStable (λ j. true)
anything-IsStable = record { on_fail = λ now error j. refl; on_session = λ id j. refl }

pub item_event-keeps :
    (id : String) (q : Job → Bool) (now : ℕ) (e : Event)
    → IsItemEvent e
    → (s : MaterializedState) → HasJob id q s
    → HasJob id q (apply_event now e s)
unfolding apply_event
item_event-keeps id q now _ (IsItemEvent.completed _ _ _) s p = p
item_event-keeps id q now _ (IsItemEvent.failed _ _ _ _) s p = p
item_event-keeps id q now _ (IsItemEvent.dead _ _ _) s p = p

advance-cancelling :
    (now : ℕ) (step : String) (j : Job) → (advance step now j).cancelling ≡ j.cancelling
unfolding advance enter_step leave_step clear_agent_signal keep_or_reset reset_action_attempts
    finalize_current_step update_last_open revive push_step record_step_visit
advance-cancelling now step j = ground arith

pub start-cancelling :
    (a n : Option String) (j : Job) → (start_step a n j).cancelling ≡ j.cancelling
unfolding start_step when_some update_current_step_outcome set_current_step_agent_id
    set_current_step_agent_name update_last_open
start-cancelling none none j = refl
start-cancelling none (some n) j = refl
start-cancelling (some a) none j = refl
start-cancelling (some a) (some n) j = refl

pub advanced-cancelling :
    (now : ℕ) (id k step : String) (s : MaterializedState)
    → HasJob id (λ j. j.cancelling) s
    → HasJob id (λ j. j.cancelling) (apply_event now (Event.job_advanced k step) s)
unfolding apply_event
advanced-cancelling now id k step s p =
    let moved =
      modified-HasJob id k (λ j. j.cancelling) (advance step now) s.jobs
        (λ j h. advance-cancelling now step j ∙ h) p in
    if_intro (HasJob id λ j. j.cancelling) (skips step (Map.get k s.jobs)) _ _ p
      (if_intro (HasJob id λ j. j.cancelling) (is_terminal_step step) _ _ moved moved)

skipped-terminal : (j : Job) → skips "cancelled" (some j) ≡ true → is_terminal j ≡ true
unfolding skips is_terminal is_terminal_step
skipped-terminal j h = ground arith

advance-terminal : (now : ℕ) (j : Job) → is_terminal (advance "cancelled" now j) ≡ true
unfolding is_terminal is_terminal_step
advance-terminal now j = rw (advance-step now "cancelled" j (unfold is_terminal_step in refl)) refl

-- Moving to the step "cancelled" leaves the job on it, also when it was there.
pub advanced-terminal :
    (now : ℕ) (id : String) (s : MaterializedState)
    → HasJob id (λ j. true) s
    → HasJob id is_terminal (apply_event now (Event.job_advanced id "cancelled") s)
unfolding apply_event
advanced-terminal now id s (j, found, _) =
    let moved : (k : Job) × (Map.get id (Map.modify id (advance "cancelled" now) s.jobs) ≡ some k)
        × (is_terminal k ≡ true) =
      (
        advance "cancelled" now j,
        get-modify_self id (advance "cancelled" now) s.jobs
            ∙ ap (Option.map (advance "cancelled" now)) found,
        advance-terminal now j,
      ) in
    if_cases (HasJob id is_terminal) (skips "cancelled" (Map.get id s.jobs)) _ _
      (λ e. (j, found, skipped-terminal j (subst (λ o. skips "cancelled" o ≡ true) found e)))
      λ e. if_intro (HasJob id is_terminal) (is_terminal_step "cancelled") _ _ moved moved

pub flagged :
    (now : ℕ) (id : String) (s : MaterializedState)
    → HasJob id (λ j. true) s
    → HasJob id (λ j. j.cancelling) (apply_event now (Event.job_cancelling id) s)
unfolding apply_event
flagged now id s (j, found, _) =
    let flag : Job → Job = λ j. record j { cancelling = true } in
    (flag j, get-modify_self id flag s.jobs ∙ ap (Option.map flag) found, refl)
