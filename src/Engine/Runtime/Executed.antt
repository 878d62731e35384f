-- ===== src/Engine/Runtime/Executed.antt =====
-- The events that the executor applies to the state, and those of them that it returns.
use oddjobs.Prelude.{
  String, Option, none, some, List, [], ◌∷◌, ◌≡◌, refl, sym, ap, ◌==◌, arith, Bool-cases, inl, inr,
  if_intro, All,
}
use mathlib.Core.Path.{subst}
use oddjobs.Prelude.Map
use oddjobs.Prelude.Map.{Map}
use oddjobs.Core.Effect.{Effect}
use oddjobs.Core.Event.{Event}
use oddjobs.Core.Workspace.{WorkspaceStatus}
use oddjobs.Storage.Apply.{apply_event}
use oddjobs.Storage.Apply.Sessions.{set_workspace_status}
use oddjobs.Engine.Runtime.{Creation, World, Answer, Services}
use oddjobs.Core.Owner.{OwnerId}
use oddjobs.Engine.Runtime.Executor.{
  ask, fails_with, spawned, finish_creation, creation_of, delete_workspace, execute, execute_all,
  execute_inner, emit_event, note_effect, note,
}
use oddjobs.Engine.Runtime.Outcomes.{Outcome, OnOk, OnOk-weaken}
use oddjobs.Engine.Runtime.Logged.{IsReachedBy-IsLoggedBy}
use oddjobs.Engine.Runtime.Applied.{Applies, Accounts, ReturnsAll, then-ReturnsAll, give-ReturnsAll}

-- What an effect applies and does not return.
unfoldable pub lost_by : Effect → List Event
lost_by (Effect.create_workspace id path owner type _ branch _) =
    Event.workspace_created id path branch owner type ∷ []
lost_by _ = []

remove-modify {ℓ} :
    {V : Type ℓ} (k : String) (f : V → V) (m : Map V)
    → Map.remove k (Map.modify k f m) ≡ Map.remove k m
unfolding Map.remove Map.modify
remove-modify k f [] = refl
remove-modify k f ((j, v) ∷ m) = elim (Bool-cases (j == k)) [
  | inl e ↦ ground (arith, e)
  | inr e ↦ ground (arith, e, remove-modify k f m)
]

-- The status in between is forgotten with the workspace.
deleted-IsReachedBy :
    (v : Services) (id : String) (w : World)
    → OnOk (Applies [] w.state) (
        emit_event v.now
          (Event.workspace_deleted id)
          (record w { state = set_workspace_status id WorkspaceStatus.cleaning w.state }))
unfolding emit_event apply_event set_workspace_status
deleted-IsReachedBy v id w = (
  v.now,
  ap (λ m. record w.state { workspaces = m })
      (sym (
        remove-modify id (λ ws. record ws { status = WorkspaceStatus.cleaning })
          w.state.workspaces)),
)

asked-Applies : (v : Services) (e : Effect) (w : World) → OnOk (Applies [] w.state) (ask v e w)
unfolding ask fails_with
asked-Applies v e w = if_intro (OnOk (Applies [] w.state)) (v.succeeds w.performed e) _ _ refl tt

spawned-Applies :
    (v : Services) (e : Effect) (owner : OwnerId) (o : Option String) (w : World)
    → OnOk (Applies [] w.state) (spawned v e owner o w)
unfolding spawned fails_with emit_event
spawned-Applies v e owner none w = tt
spawned-Applies v e owner (some session_id) w = (v.now, refl)

finished-Applies :
    (v : Services) (e : Effect) (id : String) (created : Event) (c : Creation) (w : World)
    → OnOk
        (Applies (created ∷ []) w.state)
        (finish_creation v e id c (record w { state = apply_event v.now created w.state }))
unfolding finish_creation fails_with emit_event
finished-Applies v e id created Creation.made w = (v.now, (v.now, refl))
finished-Applies v e id created Creation.broken w = tt
finished-Applies v e id created (Creation.refused _) w = tt

deleted-Applies :
    (v : Services) (id : String) (w : World) → OnOk (Applies [] w.state) (delete_workspace v id w)
unfolding delete_workspace fails_with
deleted-Applies v id w =
    if_intro (OnOk (Applies [] w.state)) (Map.contains_key id w.state.workspaces) _ _
      (if_intro (OnOk (Applies [] w.state)) (v.succeeds w.performed (Effect.delete_workspace id)) _
        _ (deleted-IsReachedBy v id w) tt)
      tt

inner-Applies :
    (v : Services) (e : Effect) (w : World)
    → OnOk (Applies (lost_by e) w.state) (execute_inner v e w)
unfolding execute_inner lost_by
inner-Applies v (Effect.emit e) w = unfold emit_event in (v.now, refl)
inner-Applies v (Effect.spawn_agent _ _ owner _ _ _ _ _ _) w = spawned-Applies v _ owner _ w
inner-Applies v (Effect.send_to_agent _ _) w = asked-Applies v _ w
inner-Applies v (Effect.kill_agent _) w = asked-Applies v _ w
inner-Applies v (Effect.send_to_session _ _) w = asked-Applies v _ w
inner-Applies v (Effect.kill_session _) w = asked-Applies v _ w
inner-Applies v (Effect.create_workspace id _ _ type repo_root branch _) w =
    finished-Applies v _ id _ (creation_of type repo_root branch _) w
inner-Applies v (Effect.delete_workspace id) w = deleted-Applies v id w
inner-Applies v (Effect.set_timer _ _) w = refl
inner-Applies v (Effect.cancel_timer _) w = refl
inner-Applies v (Effect.shell _ _ _ _ _) w = refl
inner-Applies v (Effect.poll_queue _ _ _) w = refl
inner-Applies v (Effect.take_queue_item _ _ _ _ _) w = refl
inner-Applies v (Effect.notify _ _) w = refl

noted-OnOk : (Q : Outcome) (e : Effect) (x : World × Answer) → OnOk Q x → OnOk Q (note_effect e x)
unfolding note_effect note
noted-OnOk Q e (w, Answer.ok es) h = h
noted-OnOk Q e (w, Answer.err _) h = tt

-- When an effect is executed without an error, the state comes from the state before by the events
-- that are returned for the log; the creation of a workspace applies, before them, an event that is
-- not returned.
pub execute-Applies :
    (v : Services) (e : Effect) (w : World) → OnOk (Applies (lost_by e) w.state) (execute v e w)
unfolding execute
execute-Applies v e w =
    noted-OnOk (Applies (lost_by e) w.state) e (execute_inner v e w) (inner-Applies v e w)

pub execute-ReturnsAll : (v : Services) (e : Effect) → lost_by e ≡ [] → ReturnsAll (execute v e)
execute-ReturnsAll v e h w =
    OnOk-weaken (Applies [] w.state) (Accounts [] w.state) (execute v e w)
      (subst (λ lost. OnOk (Applies lost w.state) (execute v e w)) h (execute-Applies v e w))
      λ es t. IsReachedBy-IsLoggedBy es w.state t

pub execute_all-ReturnsAll :
    (v : Services) (effects : List Effect)
    → All (λ e. lost_by e ≡ []) effects
    → ReturnsAll (execute_all v effects)
unfolding execute_all
execute_all-ReturnsAll v [] h = give-ReturnsAll
execute_all-ReturnsAll v (e ∷ effects) (h, hs) =
    then-ReturnsAll (execute v e) (execute_all v effects) (execute-ReturnsAll v e h)
      (execute_all-ReturnsAll v effects hs)
