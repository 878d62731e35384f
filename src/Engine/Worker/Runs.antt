-- ===== src/Engine/Worker/Runs.antt =====
-- crates/engine/src/runtime/handlers/worker: what a worker goes through while it is started.
use oddjobs.Prelude.{ℕ, ◌+◌, ◌-◌, ◌≤◌, String, Option, List, Bool, ◌≡◌, arith, length}
use oddjobs.Storage.State.{MaterializedState}
use oddjobs.Engine.Worker.{
  WorkerState, handle_worker_poll_complete, handle_worker_take_complete, release_job,
}
use oddjobs.Engine.Worker.Slots.{HasRoom, poll-Fits, take-HasRoom, release_job-HasRoom}

-- The worker, the state, and the number of take commands that run.
pub record Scene : Type 0 where
  pub worker : WorkerState
  pub state : MaterializedState
  pub running_takes : ℕ

module _ (json_id : String → Option String)
    (create : String → MaterializedState → Option String × MaterializedState) where
  abbrev pub after_poll : ℕ → String → Bool → List String → Scene → Scene
  after_poll now name found items x =
      let o = handle_worker_poll_complete json_id create now name found items x.worker x.state in
      record {
        worker = o.worker;
        state = o.state;
        running_takes = x.running_takes + length o.takes;
      }

  abbrev pub after_take : ℕ → String → String → String → Bool → Scene → Scene
  after_take now name id item ok x =
      let o = handle_worker_take_complete json_id create now name id item ok x.worker x.state in
      record { worker = o.worker; state = o.state; running_takes = x.running_takes - 1 }

  -- A poll comes back, with what it saw at any time before; a take command that runs ends, well or
  -- not; a job ends; or something else changes the state.
  pub data Step : Scene → Scene → Type 0 where
    poll_completes :
        (x : Scene) (now : ℕ) (name : String) (found : Bool) (items : List String)
        → Step x (after_poll now name found items x)
    take_completes :
        (x : Scene) (now : ℕ) (name id item : String) (ok : Bool)
        → 1 ≤ x.running_takes
        → Step x (after_take now name id item ok x)
    job_completes :
        (x : Scene) (job : String) → Step x (record x { worker = release_job job x.worker })
    state_changes : (x : Scene) (s : MaterializedState) → Step x (record x { state = s })

  pub data Reach (x : Scene) : Scene → Type 0 where
    here : Reach x x
    next : {y z : Scene} → Reach x y → Step y z → Reach x z

  -- Every take command that runs has its slot.
  abbrev pub IsWithin : Scene → Type 0
  IsWithin x = HasRoom x.worker × (x.running_takes ≡ x.worker.pending_takes)

  Step-IsWithin : {x y : Scene} → Step x y → IsWithin x → IsWithin y
  Step-IsWithin (poll_completes x now name found items) (h, k) =
      let (a, b) = poll-Fits json_id create now name found items x.worker x.state h in
      (a, omega (arith, b, k))
  Step-IsWithin (take_completes x now name id item ok p) (h, k) =
      let (a, b) =
        take-HasRoom json_id create now name id item ok x.worker x.state h (omega (arith, p, k)) in
      (a, omega (arith, b, k))
  Step-IsWithin (job_completes x job) (h, k) =
      let (a, b) = release_job-HasRoom job x.worker h in (a, omega (arith, b, k))
  Step-IsWithin (state_changes x s) h = h

  -- Polls that overlap, take commands and jobs that end, in any order, never bring a worker above its
  -- concurrency, as long as it is neither stopped nor resized: its jobs and the take commands that
  -- run are together no more than its concurrency, if they are so at the start.
  pub Reach-IsWithin : {x y : Scene} → IsWithin x → Reach x y → IsWithin y
  Reach-IsWithin h here = h
  Reach-IsWithin h (next r s) = Step-IsWithin s (Reach-IsWithin h r)
