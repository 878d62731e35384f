-- ===== src/Storage/Apply/Workers.antt =====
-- state.rs, `apply_event`: workers.
use oddjobs.Prelude.{ℕ, String, Option, none, some, List, [], ◌==◌, if◌then◌else◌, any, push}
use oddjobs.Prelude.Map
use oddjobs.Prelude.Map.{Map}
use oddjobs.Core.Names.{scoped_name}
use oddjobs.Storage.State.{WorkerRecord, MaterializedState}

-- `if !namespace.is_empty() { self.project_roots.insert(…) }`
unfoldable pub note_root : String → String → Map String → Map String
note_root namespace project_root roots =
    if namespace == "" then roots else Map.insert namespace project_root roots

unfoldable pub active_ids : Option WorkerRecord → List String
active_ids none = []
active_ids (some w) = w.active_job_ids

-- The jobs that were active before a restart stay active.
unfoldable pub worker_started :
    String → String → String → String → ℕ → String → MaterializedState → MaterializedState
worker_started worker_name project_root runbook_hash queue_name concurrency namespace s =
    let key = scoped_name namespace worker_name in
    record s {
      project_roots = note_root namespace project_root s.project_roots;
      workers =
          Map.insert key
            (record {
              name = worker_name;
              namespace = namespace;
              project_root = project_root;
              runbook_hash = runbook_hash;
              status = "running";
              active_job_ids = active_ids (Map.get key s.workers);
              queue_name = queue_name;
              concurrency = concurrency;
            })
            s.workers;
    }

unfoldable pub dispatch : String → WorkerRecord → WorkerRecord
dispatch job_id w =
    if any (λ pid. pid == job_id) w.active_job_ids
    then w
    else record w { active_job_ids = push w.active_job_ids job_id }

unfoldable pub worker_item_dispatched :
    String → String → String → MaterializedState → MaterializedState
worker_item_dispatched worker_name job_id namespace s = record s {
  workers = Map.modify (scoped_name namespace worker_name) (dispatch job_id) s.workers;
}

unfoldable pub worker_stopped : String → String → MaterializedState → MaterializedState
worker_stopped worker_name namespace s = record s {
  workers =
      Map.modify (scoped_name namespace worker_name) (λ w. record w { status = "stopped" })
        s.workers;
}

unfoldable pub worker_resized : String → ℕ → String → MaterializedState → MaterializedState
worker_resized worker_name concurrency namespace s = record s {
  workers =
      Map.modify (scoped_name namespace worker_name) (λ w. record w { concurrency = concurrency })
        s.workers;
}

unfoldable pub worker_deleted : String → String → MaterializedState → MaterializedState
worker_deleted worker_name namespace s = record s {
  workers = Map.remove (scoped_name namespace worker_name) s.workers;
}

unfoldable pub command_run : String → String → MaterializedState → MaterializedState
command_run namespace project_root s = record s {
  project_roots = note_root namespace project_root s.project_roots;
}
