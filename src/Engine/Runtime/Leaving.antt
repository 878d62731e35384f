-- ===== src/Engine/Runtime/Leaving.antt =====
-- What leaving a step applies to the state and does not return.
use oddjobs.Prelude.{
  String, Option, none, some, List, [], ◌∷◌, ◌≡◌, refl, ap, Bool-cases, inl, inr, if◌then◌else◌,
  if_intro,
}
use oddjobs.Core.Effect.{Effect}
use oddjobs.Core.Event.{Event}
use oddjobs.Core.Job.{Job}
use oddjobs.Storage.Apply.{apply_event}
use oddjobs.Engine.Steps.{emitted, session_effects}
use oddjobs.Engine.Runtime.{
  World, ◌>>◌, quietly, give, Services, without_events, deregister_agent, continue_with, prepend,
}
use oddjobs.Engine.Runtime.Executor.{
  execute, execute_all, execute_inner, emit_event, note_effect, note,
}
use oddjobs.Runbook.{StepDef, is_agent}
use oddjobs.Engine.Runtime.Jobs.{leave_agent, leave_step}
use oddjobs.Engine.Runtime.Outcomes.{Outcome, OnOk, then-OnOk, quietly-OnOk}
use oddjobs.Engine.Runtime.Applied.{Hides, then-Hides}

-- An event that is applied quietly is lost.
pub emit-Hides :
    (v : Services) (e : Event) (w : World)
    → OnOk (Hides (e ∷ []) w.state) (quietly (execute v (Effect.emit e)) w)
unfolding quietly without_events execute note_effect note execute_inner emit_event
emit-Hides v e w = (refl, (v.now, refl))

cancel_timer-Hides :
    (v : Services) (id : String) (w : World)
    → OnOk (Hides [] w.state) (quietly (execute v (Effect.cancel_timer id)) w)
unfolding quietly without_events execute note_effect note execute_inner
cancel_timer-Hides v id w = (refl, refl)

deregister_agent-Hides :
    (agent_id : Option String) (w : World) → OnOk (Hides [] w.state) (deregister_agent agent_id w)
unfolding deregister_agent
deregister_agent-Hides none w = (refl, refl)
deregister_agent-Hides (some a) w = (refl, refl)

kill_session-keeps :
    (v : Services) (id : String) (w : World)
    → OnOk (λ es t. w.state ≡ t) (execute v (Effect.kill_session id) w)
unfolding execute note_effect note execute_inner
kill_session-keeps v id w =
    if_intro (λ x. OnOk (λ es t. w.state ≡ t) (note_effect (Effect.kill_session id) x))
      (v.succeeds w.performed (Effect.kill_session id)) _ _ refl tt

session_effects-Hides :
    (v : Services) (session_id : Option String) (w : World)
    → OnOk
        (Hides (emitted (session_effects session_id)) w.state)
        (quietly (execute_all v (session_effects session_id)) w)
unfolding session_effects emitted execute_all
session_effects-Hides v none w = unfold quietly without_events give in (refl, refl)
session_effects-Hides v (some id) w =
    let gone = Event.session_deleted id in
    let R : Outcome = λ es t. Hides (gone ∷ []) w.state [] t in
    quietly-OnOk (Hides (gone ∷ []) w.state) _ w (
      then-OnOk (λ es t. w.state ≡ t) R (execute v (Effect.kill_session id))
        (execute_all v (Effect.emit gone ∷ [])) w (kill_session-keeps v id w)
        λ es u same.
          unfold execute_all ◌>>◌ continue_with prepend give execute note_effect note execute_inner
            emit_event in
          (refl, (v.now, ap (apply_event v.now gone) same)))

leave_agent-Hides :
    (v : Services) (job : Job) (w : World)
    → OnOk (Hides (emitted (session_effects job.session_id)) w.state) (leave_agent v job w)
unfolding leave_agent
leave_agent-Hides v job w =
    let session = emitted (session_effects job.session_id) in
    then-Hides [] session w.state _ _ w
      (then-Hides [] [] w.state _ _ w
        (then-Hides [] [] w.state _ _ w (cancel_timer-Hides v _ w) λ u. cancel_timer-Hides v _ u)
        λ u. deregister_agent-Hides _ u)
      λ u. session_effects-Hides v job.session_id u

-- What leaving the step loses: that the session of an agent is deleted.
unfoldable pub left_events : Option StepDef → Job → List Event
left_events none job = []
left_events (some s) job = if is_agent s.run then emitted (session_effects job.session_id) else []

pub leave_step-Hides :
    (v : Services) (s : Option StepDef) (job : Job) (w : World)
    → OnOk (Hides (left_events s job) w.state) (leave_step v s job w)
unfolding left_events leave_step
leave_step-Hides v none job w = unfold give in (refl, refl)
leave_step-Hides v (some s) job w = elim (Bool-cases (is_agent s.run)) [
  | inl e ↦ rw e (leave_agent-Hides v job w)
  | inr e ↦ rw e (unfold give in (refl, refl))
]
