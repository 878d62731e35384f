-- ===== src/Engine/Runtime/Reload.antt =====
-- crates/engine/src/runtime/mod.rs, `refresh_worker_runbook`: the runbook of a worker is read again.
use oddjobs.Prelude.{◌++◌, String, Option, none, some, [], ◌∷◌, ◌==◌, if◌then◌else◌}
use oddjobs.Prelude.Map
use oddjobs.Core.Event.{Event, Value}
use oddjobs.Engine.Worker.{WorkerState}
use oddjobs.Engine.Runtime.{Answer, Run, RuntimeError, RunbookLookup, Services, give, raise}
use oddjobs.Runbook.{Runbook}

-- The steps of the reload of a worker's runbook, for the answers of the one before. The text of a
-- failure of serde is left out.
unfoldable pub replace_runbook : String → WorkerState → Runbook → Value → String → Run
replace_runbook worker_name state runbook runbook_json runbook_hash w = (
  record w {
    worker_states =
        Map.insert worker_name (record state { runbook_hash = runbook_hash }) w.worker_states;
    runbook_cache = Map.insert runbook_hash runbook w.runbook_cache;
  },
  Answer.ok (Event.runbook_loaded runbook_hash 1 runbook_json ∷ []),
)

unfoldable pub reload_hashed : String → WorkerState → Runbook → Value → Option String → Run
reload_hashed worker_name state runbook json none =
    raise (RuntimeError.runbook_load_error "failed to serialize")
reload_hashed worker_name state runbook json (some hash) =
    if state.runbook_hash == hash
    then give []
    else replace_runbook worker_name state runbook json hash

unfoldable pub reload_serialized : Services → String → WorkerState → Runbook → Option Value → Run
reload_serialized v worker_name state runbook none =
    raise (RuntimeError.runbook_load_error "failed to serialize")
reload_serialized v worker_name state runbook (some json) =
    reload_hashed worker_name state runbook json (v.content_hash json)

unfoldable pub reload_found : Services → String → WorkerState → RunbookLookup → Run
reload_found v worker_name state (RunbookLookup.broken e) =
    raise (RuntimeError.runbook_load_error e)
reload_found v worker_name state RunbookLookup.missing =
    raise (
      RuntimeError.runbook_load_error
        ("no runbook found containing worker '" ++ worker_name ++ "'"))
reload_found v worker_name state (RunbookLookup.found runbook) =
    reload_serialized v worker_name state runbook (v.serialize runbook)

unfoldable pub refresh_state : Services → String → Option WorkerState → Run
refresh_state v worker_name none = give []
refresh_state v worker_name (some state) =
    reload_found v worker_name state (v.find_runbook_by_worker state.project_root worker_name)

-- The event is returned for the log, and not applied.
unfoldable pub refresh_worker_runbook : Services → String → Run
unfolding refresh_state
refresh_worker_runbook v worker_name w =
    refresh_state v worker_name (Map.get worker_name w.worker_states) w
