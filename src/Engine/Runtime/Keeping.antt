-- ===== src/Engine/Runtime/Keeping.antt =====
-- Runs that keep what is known of one job in the state.
use oddjobs.Prelude.{
  ℕ, String, Option, none, some, List, [], ◌∷◌, Bool, ◌≡◌, refl, sym, ap, ◌∙◌, if_intro, All,
}
use oddjobs.Prelude.Map
use oddjobs.Prelude.Map.{Map}
use oddjobs.Core.Effect.{Effect}
use oddjobs.Core.Event.{Event}
use oddjobs.Core.Job.{Job}
use oddjobs.Core.Workspace.{WorkspaceStatus}
use oddjobs.Core.Owner.{OwnerId}
use oddjobs.Storage.State.{MaterializedState}
use oddjobs.Storage.Apply.{apply_event}
use oddjobs.Storage.Apply.Sessions.{without, set_workspace_status}
use oddjobs.Storage.Apply.Jobs.{fail_step}
use oddjobs.Engine.Runtime.{
  World, Answer, Run, ◌>>◌, Services, RuntimeError, give, raise, quietly, deregister_agent,
}
use oddjobs.Engine.Runtime.Reload.{refresh_worker_runbook}
use oddjobs.Engine.Runtime.Logged.{refresh_worker_runbook-OnOk}
use oddjobs.Engine.Runtime.Executor.{
  execute, execute_all, execute_inner, emit_event, note_effect, note,
}
use oddjobs.Engine.Runtime.Jobs.{leave_agent, leave_step}
use oddjobs.Runbook.{StepDef, is_agent}
use oddjobs.Engine.Steps.{session_effects}
use oddjobs.Engine.Runtime.Related.{Relation, IsRelated, IsItemEvent, then-Rel, check-Rel}
use oddjobs.Engine.Runtime.Passing.{
  HasJob, modified-HasJob, mapped-HasJob, IsStable, item_event-keeps,
}
use oddjobs.Engine.Runtime.Completion.{check_worker_job_complete}
use oddjobs.Engine.Runtime.Outcomes.{OnOk, OnOk-weaken, quietly-OnOk}

-- A job that passes the test before passes it after.
abbrev pub Keeps : String → (Job → Bool) → Relation
Keeps id q es s t = HasJob id q s → HasJob id q t

module _ (v : Services) (id : String) (q : Job → Bool) where
  -- A run that does not touch the jobs.
  pub jobs-Keeps : (r : Run) → IsRelated (λ es s t. s.jobs ≡ t.jobs) r → IsRelated (Keeps id q) r
  jobs-Keeps r h w =
      OnOk-weaken (λ es t. w.state.jobs ≡ t.jobs) (λ es t. Keeps id q es w.state t) (r w) (h w)
        λ es t same (j, found, holds). (j, ap (Map.get id) (sym same) ∙ found, holds)

  pub then-Keeps :
      (r next : Run)
      → IsRelated (Keeps id q) r
      → IsRelated (Keeps id q) next
      → IsRelated (Keeps id q) (r >> next)
  then-Keeps = then-Rel (Keeps id q) (λ s p. p) λ es fs s t u f g p. g (f p)

  pub give-Keeps : IsRelated (Keeps id q) (give [])
  unfolding give
  give-Keeps w p = p

  pub quietly-Keeps : (r : Run) → IsRelated (Keeps id q) r → IsRelated (Keeps id q) (quietly r)
  quietly-Keeps r h w = quietly-OnOk (λ es t. Keeps id q es w.state t) r w (h w)

  pub emit-Keeps :
      (e : Event)
      → ((s : MaterializedState) → HasJob id q s → HasJob id q (apply_event v.now e s))
      → IsRelated (Keeps id q) (execute v (Effect.emit e))
  unfolding execute execute_inner emit_event note_effect note
  emit-Keeps e h w = h w.state

  pub execute_all-Keeps :
      (effects : List Effect)
      → All (λ e. IsRelated (Keeps id q) (execute v e)) effects
      → IsRelated (Keeps id q) (execute_all v effects)
  unfolding execute_all
  execute_all-Keeps [] h = give-Keeps
  execute_all-Keeps (e ∷ effects) (h, hs) =
      then-Keeps (execute v e) (execute_all v effects) h (execute_all-Keeps effects hs)

  -- The effects that do not touch the jobs.
  pub kill_session-Keeps : (k : String) → IsRelated (Keeps id q) (execute v (Effect.kill_session k))
  unfolding execute execute_inner note_effect note
  kill_session-Keeps k w =
      if_intro (λ x. OnOk (λ es t. Keeps id q es w.state t) (note_effect (Effect.kill_session k) x))
        (v.succeeds w.performed (Effect.kill_session k)) _ _ (λ p. p) tt

  pub cancel_timer-Keeps : (k : String) → IsRelated (Keeps id q) (execute v (Effect.cancel_timer k))
  unfolding execute execute_inner note_effect note
  cancel_timer-Keeps k w p = p

  pub notify-Keeps : (t m : String) → IsRelated (Keeps id q) (execute v (Effect.notify t m))
  unfolding execute execute_inner note_effect note
  notify-Keeps t m w p = p

  pub shell-Keeps :
      (o : Option OwnerId) (s c d : String) (env : Map String)
      → IsRelated (Keeps id q) (execute v (Effect.shell o s c d env))
  unfolding execute execute_inner note_effect note
  shell-Keeps o s c d env w p = p

  cleaned-Keeps :
      (k : String) (w : World)
      → OnOk
          (λ es t. Keeps id q es w.state t)
          (emit_event v.now
            (Event.workspace_deleted k)
            (record w { state = set_workspace_status k WorkspaceStatus.cleaning w.state }))
  unfolding emit_event apply_event set_workspace_status
  cleaned-Keeps k w p = p

  pub delete_workspace-Keeps :
      (k : String) → IsRelated (Keeps id q) (execute v (Effect.delete_workspace k))
  unfolding execute execute_inner note_effect note
  delete_workspace-Keeps k w =
      let P : World × Answer → Type 0 =
        λ x. OnOk (λ es t. Keeps id q es w.state t) (note_effect (Effect.delete_workspace k) x) in
      if_intro P (Map.contains_key k w.state.workspaces) _ _
        (if_intro P (v.succeeds w.performed (Effect.delete_workspace k)) _ _
          (unfold emit_event in cleaned-Keeps k w) tt)
        tt

  -- The events about an item do not touch the jobs.
  pub item-Keeps :
      (e : Event) → IsItemEvent e → IsRelated (Keeps id q) (execute_all v (Effect.emit e ∷ []))
  item-Keeps e h =
      execute_all-Keeps (Effect.emit e ∷ []) (emit-Keeps e (item_event-keeps id q v.now e h), tt)

  pub poll_queue-Keeps :
      (n c d : String) → IsRelated (Keeps id q) (execute_all v (Effect.poll_queue n c d ∷ []))
  unfolding execute execute_inner note_effect note
  poll_queue-Keeps n c d = execute_all-Keeps (Effect.poll_queue n c d ∷ []) (λ w p. p, tt)

  pub set_timer-Keeps :
      (k : String) (n : ℕ) → IsRelated (Keeps id q) (quietly (execute v (Effect.set_timer k n)))
  unfolding execute execute_inner note_effect note
  set_timer-Keeps k n = quietly-Keeps (execute v (Effect.set_timer k n)) λ w p. p

  pub check-Keeps :
      (job_id terminal_step : String)
      → IsRelated (Keeps id q) (check_worker_job_complete v job_id terminal_step)
  check-Keeps =
      check-Rel (Keeps id q) (λ s p. p) (λ es fs s t u f g p. g (f p)) v item-Keeps set_timer-Keeps
        poll_queue-Keeps (λ name items s p. p)
        λ name.
          jobs-Keeps (refresh_worker_runbook v name) λ w.
            refresh_worker_runbook-OnOk (λ es t. w.state.jobs ≡ t.jobs) v name w refl λ h j. refl

  -- From a state with the job, to one where it still passes.
  pub kept-OnOk :
      (r : Run)
      → IsRelated (Keeps id q) r
      → (w : World) → HasJob id q w.state
      → OnOk (λ es t. HasJob id q t) (r w)
  kept-OnOk r h w p =
      OnOk-weaken (λ es t. Keeps id q es w.state t) (λ es t. HasJob id q t) (r w) (h w)
        λ es t k. k p

  pub kept_effect-OnOk :
      (e : Effect)
      → IsRelated (Keeps id q) (execute v e)
      → (w : World) → HasJob id q w.state
      → OnOk (λ es t. HasJob id q t) (execute v e w)
  kept_effect-OnOk e = kept-OnOk (execute v e)

  pub kept_effects-OnOk :
      (effects : List Effect)
      → All (λ e. IsRelated (Keeps id q) (execute v e)) effects
      → (w : World) → HasJob id q w.state
      → OnOk (λ es t. HasJob id q t) (execute_all v effects w)
  kept_effects-OnOk effects h = kept-OnOk (execute_all v effects) (execute_all-Keeps effects h)

  deregister_agent-Keeps : (o : Option String) → IsRelated (Keeps id q) (deregister_agent o)
  unfolding deregister_agent
  deregister_agent-Keeps none w = λ p. p
  deregister_agent-Keeps (some a) w = λ p. p

  pub raise-Keeps : (e : RuntimeError) → IsRelated (Keeps id q) (raise e)
  unfolding raise
  raise-Keeps e w = tt

  module _ (st : IsStable q) where
    pub step_failed-Keeps :
        (k step error : String)
        → IsRelated (Keeps id q) (execute v (Effect.emit (Event.step_failed k step error)))
    step_failed-Keeps k step error = emit-Keeps (Event.step_failed k step error) λ s p.
        unfold apply_event in
        modified-HasJob id k q (fail_step error v.now) s.jobs (λ j h. st.on_fail v.now error j ∙ h)
          p

    session_deleted-Keeps :
        (k : String) → IsRelated (Keeps id q) (execute v (Effect.emit (Event.session_deleted k)))
    session_deleted-Keeps k = emit-Keeps (Event.session_deleted k) λ s p.
        unfold apply_event in
        mapped-HasJob id q (λ j. record j { session_id = without k j.session_id }) s.jobs
          (λ j h. st.on_session (without k j.session_id) j ∙ h) p

    pub session_effects-Keep :
        (o : Option String) → All (λ e. IsRelated (Keeps id q) (execute v e)) (session_effects o)
    unfolding session_effects
    session_effects-Keep none = tt
    session_effects-Keep (some k) = (kill_session-Keeps k, (session_deleted-Keeps k, tt))

    leave_agent-Keeps : (job : Job) → IsRelated (Keeps id q) (leave_agent v job)
    unfolding leave_agent
    leave_agent-Keeps job =
        then-Keeps _ _
          (then-Keeps _ _
            (then-Keeps _ _ (quietly-Keeps _ (cancel_timer-Keeps _))
              (quietly-Keeps _ (cancel_timer-Keeps _)))
            (deregister_agent-Keeps _))
          (quietly-Keeps _ (execute_all-Keeps _ (session_effects-Keep job.session_id)))

    pub leave_step-Keeps :
        (o : Option StepDef) (job : Job) → IsRelated (Keeps id q) (leave_step v o job)
    unfolding leave_step
    leave_step-Keeps none job = give-Keeps
    leave_step-Keeps (some s) job =
        if_intro (IsRelated (Keeps id q)) (is_agent s.run) _ _ (leave_agent-Keeps job) give-Keeps
