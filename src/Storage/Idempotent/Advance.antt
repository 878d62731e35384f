-- ===== src/Storage/Idempotent/Advance.antt =====
-- `JobAdvanced`, made twice.
use oddjobs.Prelude.{ℕ, String, false, not, ◌==◌, ◌≡◌, arith, Option-cases, inl, inr}
use oddjobs.Prelude.{retain_idem as list_retain_idem}
use oddjobs.Prelude.Map
use oddjobs.Prelude.Map.Laws.{
  modify_absorb, get-modify_self, map_values_absorb, retain_idem, modify_missing,
}
use oddjobs.Core.Job.{Job}
use oddjobs.Storage.State.{MaterializedState, WorkerRecord}
use oddjobs.Storage.Apply.Jobs.{skips, advance, drop_active, survives, end_job, job_advanced}
use oddjobs.Storage.Idempotent.Jobs.{skips-advance, advance_absorb}

drop_active_idem :
    (id : String) (w : WorkerRecord) → drop_active id (drop_active id w) ≡ drop_active id w
unfolding drop_active
drop_active_idem id w = ground (arith, list_retain_idem (λ pid. not (pid == id)) w.active_job_ids)

-- The jobs after the move, moved again.
modify-advance_absorb :
    (id step : String) (t t' : ℕ) (m : Map.Map Job)
    → skips step (Map.get id (Map.modify id (advance step t) m)) ≡ false
    → Map.modify id (advance step t') (Map.modify id (advance step t) m)
      ≡ Map.modify id (advance step t) m
unfolding skips
modify-advance_absorb id step t t' m h = elim (Option-cases (Map.get id m)) [
  | inl e ↦ rw (modify_missing id (advance step t) m e) (modify_missing id (advance step t') m e)
  | inr (j, e) ↦ modify_absorb id (advance step t) (advance step t') m λ v.
      advance_absorb step t t' v
        (ground (arith, skips-advance step t j, get-modify_self id (advance step t) m))
]

pub job_advanced_absorb :
    (t t' : ℕ) (id step : String) (s : MaterializedState)
    → job_advanced t' id step (job_advanced t id step s) ≡ job_advanced t id step s
unfolding job_advanced end_job
job_advanced_absorb t t' id step s = ground (
  arith,
  modify-advance_absorb id step t t' s.jobs,
  map_values_absorb (drop_active id) (drop_active id) s.workers (drop_active_idem id),
  retain_idem (survives id) s.decisions,
)
