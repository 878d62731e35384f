-- ===== src/Tests/Workers.antt =====
-- The properties of workers at concrete inputs.
use oddjobs.Prelude.{◌++◌, ◌≤◌, String, Option, none, some, [], ◌∷◌, true, refl, arith, push}
use oddjobs.Storage.State.{MaterializedState, empty_state}
use oddjobs.Engine.Worker.{
  QueueType, WorkerStatus, WorkerState, is_stopped, contains, insert_member, active_slots, reserve,
  item_id_of, take_external, take_from, handle_worker_poll_complete,
}
use oddjobs.Engine.Worker.Runs.{
  Scene, after_poll, after_take, Step, Reach, IsWithin, Reach-IsWithin,
}
use oddjobs.Engine.Worker.Distinct.{AreDistinct, AreFresh, take_external-AreDistinct}

-- Items that are their ids, and jobs that are named after their items.
abbrev plain_id : String → Option String
plain_id item = some item

abbrev plain_job : String → MaterializedState → Option String × MaterializedState
plain_job item s = (some ("job-" ++ item), s)

abbrev a_worker : WorkerState
a_worker = record {
  project_root = "/srv/app";
  runbook_hash = "hash";
  queue_name = "bugs";
  job_kind = "fix";
  concurrency = 2;
  active_jobs = [];
  status = WorkerStatus.running;
  queue_type = QueueType.external;
  item_job_map = [];
  namespace = "";
  poll_interval = none;
  pending_takes = 0;
  inflight_items = [];
}

abbrev a_scene : Scene
a_scene = record { worker = a_worker; state = empty_state; running_takes = 0 }

abbrev polled_scene : Scene
polled_scene = after_poll plain_id plain_job 1 "fixer" true ("a" ∷ "a" ∷ "b" ∷ "c" ∷ []) a_scene

two_takes : 1 ≤ polled_scene.running_takes
unfolding handle_worker_poll_complete active_slots is_stopped take_from take_external item_id_of
    contains reserve insert_member push
two_takes = omega arith

Reach-IsWithin_example :
    IsWithin plain_id plain_job (after_take plain_id plain_job 2 "fixer" "a" "a" true polled_scene)
Reach-IsWithin_example =
    Reach-IsWithin plain_id plain_job ((omega arith, omega arith), refl)
      (Reach.next
        (Reach.next Reach.here
          (Step.poll_completes a_scene 1 "fixer" true ("a" ∷ "a" ∷ "b" ∷ "c" ∷ [])))
        (Step.take_completes polled_scene 2 "fixer" "a" "a" true two_takes))

take_external-AreDistinct_example :
    AreFresh plain_id plain_job a_worker
      (take_external plain_id plain_job 2 ("a" ∷ "a" ∷ "b" ∷ []) a_worker).1
    × AreDistinct (take_external plain_id plain_job 2 ("a" ∷ "a" ∷ "b" ∷ []) a_worker).1
take_external-AreDistinct_example =
    take_external-AreDistinct plain_id plain_job 2 ("a" ∷ "a" ∷ "b" ∷ []) a_worker
