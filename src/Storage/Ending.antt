-- ===== src/Storage/Ending.antt =====
-- What the end of a job does to the rest of the state.
use oddjobs.Prelude.{
  ℕ, String, true, false, not, ◌||◌, ◌==◌, ◌≡◌, ◌≢◌, refl, arith, eq_iff, any, retain, List, [],
  ◌∷◌,
}
use oddjobs.Prelude.Map
use oddjobs.Prelude.Map.{Map, AllValues}
use oddjobs.Prelude.Map.Laws.{get-modify}
use oddjobs.Core.Decision.{Decision, is_resolved}
use oddjobs.Core.Event.{Event}
use oddjobs.Core.Job.{is_terminal_step}
use oddjobs.Storage.State.{MaterializedState, WorkerRecord}
use oddjobs.Storage.Apply.{apply_event}
use oddjobs.Storage.Apply.Jobs.{skips, advance, drop_active, survives}

-- The job takes no slot of the worker.
abbrev pub IsFreeOf : String → WorkerRecord → Type 0
IsFreeOf id w = any (λ pid. pid == id) w.active_job_ids ≡ false

-- The decision is another job's, or has been made.
abbrev pub IsClosedFor : String → Decision → Type 0
IsClosedFor id d = (not (d.job_id == id) || is_resolved d) ≡ true

any-retain :
    (id : String) (xs : List String) → any (λ p. p == id) (retain (λ p. not (p == id)) xs) ≡ false
unfolding retain
any-retain id [] = refl
any-retain id (x ∷ xs) = ground (arith, any-retain id xs)

drop_active-AllValues :
    (id : String) (m : Map WorkerRecord)
    → AllValues (IsFreeOf id) (Map.map_values (drop_active id) m)
unfolding Map.map_values drop_active
drop_active-AllValues id [] = tt
drop_active-AllValues id ((k, w) ∷ m) = (any-retain id w.active_job_ids, drop_active-AllValues id m)

retain-IsClosedFor :
    (id : String) (m : Map Decision) → AllValues (IsClosedFor id) (Map.retain (survives id) m)
unfolding Map.retain survives
retain-IsClosedFor id [] = tt
retain-IsClosedFor id ((k, d) ∷ m) = ground (arith, retain-IsClosedFor id m)

-- When a job moves to a terminal step, and is not on it already or has failed, then afterwards no
-- worker counts it as active, it has no open decision, and every other job is as it was.
pub job_advanced-ends :
    (now : ℕ) (id step : String) (s : MaterializedState)
    → skips step (Map.get id s.jobs) ≡ false
    → is_terminal_step step ≡ true
    → let s' = apply_event now (Event.job_advanced id step) s in
      AllValues (IsFreeOf id) s'.workers
      × AllValues (IsClosedFor id) s'.decisions
      × ((k : String) → id ≢ k → Map.get k s'.jobs ≡ Map.get k s.jobs)
unfolding apply_event
job_advanced-ends now id step s h t =
    rw (h, t)
      (
        drop_active-AllValues id s.workers,
        retain-IsClosedFor id s.decisions,
        λ k n. ground (arith, get-modify id k (advance step now) s.jobs, eq_iff id k),
      )
