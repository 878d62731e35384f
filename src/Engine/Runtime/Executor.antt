-- ===== src/Engine/Runtime/Executor.antt =====
-- crates/engine/src/executor.rs: what the executor does for an effect. The commands of `shell`,
-- `poll_queue` and `take_queue_item` are only started, and their ends come as events; a notification
-- that fails is only logged.
use oddjobs.Prelude.{
  ◌++◌, ℕ, String, Option, none, some, List, [], ◌∷◌, Bool, false, not, ◌||◌, ◌==◌, if◌then◌else◌,
  is_none,
}
use oddjobs.Prelude.Map
use oddjobs.Core.Effect.{Effect}
use oddjobs.Core.Event.{Event}
use oddjobs.Core.Workspace.{WorkspaceStatus}
use oddjobs.Core.Owner.{OwnerId}
use oddjobs.Storage.Apply.{apply_event}
use oddjobs.Storage.Apply.Sessions.{set_workspace_status}
use oddjobs.Engine.Runtime.{World, Answer, Run, RuntimeError, ◌>>◌, give, Creation, Services}

unfoldable pub note : Effect → World → World
note e w = record w { performed = e ∷ w.performed }

-- Apply the event at once, and return it so that it is written to the log.
unfoldable pub emit_event : ℕ → Event → Run
emit_event now e w = (record w { state = apply_event now e w.state }, Answer.ok (e ∷ []))

unfoldable pub fails_with : Effect → Run
fails_with e w = (w, Answer.err (RuntimeError.execute_failed e))

-- An effect of an adapter that changes no state.
unfoldable pub ask : Services → Effect → Run
ask v e w = if v.succeeds w.performed e then (w, Answer.ok []) else fails_with e w

unfoldable pub spawned : Services → Effect → OwnerId → Option String → Run
spawned v e owner none = fails_with e
spawned v e owner (some session_id) = emit_event v.now (Event.session_created session_id owner)

-- `workspace_type.as_deref() == Some("worktree")`
unfoldable pub is_worktree : Option String → Bool
is_worktree none = false
is_worktree (some t) = t == "worktree"

-- For a folder, `git` is not asked.
without_git : Creation → Creation
without_git (Creation.refused _) = Creation.broken
without_git c = c

-- A worktree needs the root of its repository and a branch.
unfoldable pub creation_of : Option String → Option String → Option String → Creation → Creation
unfolding without_git
creation_of type repo_root branch c =
    if not (is_worktree type)
    then without_git c
    else if is_none repo_root || is_none branch
    then Creation.broken
    else c

-- The events before the last one are applied, and not returned.
unfoldable pub finish_creation : Services → Effect → String → Creation → Run
finish_creation v e id Creation.made w = emit_event v.now (Event.workspace_ready id) w
finish_creation v e id Creation.broken w = fails_with e w
finish_creation v e id (Creation.refused stderr) w =
    let reason = "git worktree add failed: " ++ stderr in
    fails_with e (record w { state = apply_event v.now (Event.workspace_failed id reason) w.state })

unfoldable pub delete_workspace : Services → String → Run
delete_workspace v id w =
    let cleaning = record w { state = set_workspace_status id WorkspaceStatus.cleaning w.state } in
    if Map.contains_key id w.state.workspaces
    then if v.succeeds w.performed (Effect.delete_workspace id)
      then emit_event v.now (Event.workspace_deleted id) cleaning
      else fails_with (Effect.delete_workspace id) cleaning
    else fails_with (Effect.delete_workspace id) w

unfoldable pub execute_inner : Services → Effect → Run
unfolding emit_event fails_with ask spawned finish_creation delete_workspace
execute_inner v (Effect.emit e) w = emit_event v.now e w
execute_inner v (Effect.spawn_agent agent name owner path input command env cwd config) w =
    let e = Effect.spawn_agent agent name owner path input command env cwd config in
    spawned v e owner (v.spawns w.performed e) w
execute_inner v (Effect.send_to_agent agent_id input) w =
    ask v (Effect.send_to_agent agent_id input) w
execute_inner v (Effect.kill_agent agent_id) w = ask v (Effect.kill_agent agent_id) w
execute_inner v (Effect.send_to_session session_id input) w =
    ask v (Effect.send_to_session session_id input) w
execute_inner v (Effect.kill_session session_id) w = ask v (Effect.kill_session session_id) w
execute_inner v (Effect.create_workspace id path owner type repo_root branch start_point) w =
    let e = Effect.create_workspace id path owner type repo_root branch start_point in
    let created = Event.workspace_created id path branch owner type in
    finish_creation v e id (creation_of type repo_root branch (v.creates w.performed e))
      (record w { state = apply_event v.now created w.state })
execute_inner v (Effect.delete_workspace id) w = delete_workspace v id w
execute_inner v (Effect.set_timer _ _) w = (w, Answer.ok [])
execute_inner v (Effect.cancel_timer _) w = (w, Answer.ok [])
execute_inner v (Effect.shell _ _ _ _ _) w = (w, Answer.ok [])
execute_inner v (Effect.poll_queue _ _ _) w = (w, Answer.ok [])
execute_inner v (Effect.take_queue_item _ _ _ _ _) w = (w, Answer.ok [])
execute_inner v (Effect.notify _ _) w = (w, Answer.ok [])

-- The tracing of `execute` is the list of the effects.
unfoldable pub note_effect : Effect → World × Answer → World × Answer
note_effect e (w, a) = (note e w, a)

unfoldable pub execute : Services → Effect → Run
unfolding note_effect note
execute v e w = note_effect e (execute_inner v e w)

unfoldable pub execute_all : Services → List Effect → Run
execute_all v [] = give []
execute_all v (e ∷ effects) = execute v e >> execute_all v effects
