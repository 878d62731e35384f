-- ===== src/Engine/Runtime/Deletion.antt =====
-- What the daemon cleans up when a job is deleted.
use oddjobs.Prelude.{String, none, [], ◌∷◌, false, ◌≡◌, refl, arith, eq_refl, starts_with}
use oddjobs.Prelude.Map
use oddjobs.Prelude.Map.{Map}
use oddjobs.Core.Job.{Job}
use oddjobs.Storage.Apply.{apply_event}
use oddjobs.Storage.Lookup.{get_job, get_by_prefix, prefix_matches, only}
use oddjobs.Storage.Lookup.Prefixes.{HasNoMatch}
use oddjobs.Engine.Runtime.{World, give, Services}
use oddjobs.Engine.Runtime.Handlers.{process_job_deleted, handle_job_deleted, clean_up_job}

no_match-prefix_matches : (id : String) (m : Map Job) → HasNoMatch id m → prefix_matches id m ≡ []
unfolding prefix_matches Map.contains_key
no_match-prefix_matches id [] h = refl
no_match-prefix_matches id ((k, j) ∷ m) h =
    let here : starts_with k id ≡ false = h k (ground (arith, eq_refl k)) in
    rw here (no_match-prefix_matches id m λ i c. h i (ground (arith, c)))

get-removed : (id : String) (m : Map Job) → Map.get id (Map.remove id m) ≡ none
unfolding Map.get Map.remove
get-removed id [] = refl
get-removed id ((k, j) ∷ m) = ground (arith, get-removed id m)

get_job-missing :
    (id : String) (m : Map Job)
    → Map.get id m ≡ none
    → prefix_matches id m ≡ []
    → get_by_prefix id m ≡ none
unfolding get_by_prefix only
get_job-missing id m h k = rw (get_by_prefix, h, k, only) refl

get_job-removed :
    (id : String) (m : Map Job)
    → HasNoMatch id (Map.remove id m)
    → get_by_prefix id (Map.remove id m) ≡ none
get_job-removed id m h =
    get_job-missing id (Map.remove id m) (get-removed id m)
      (no_match-prefix_matches id (Map.remove id m) h)

-- When a job is deleted and its id begins no other job's id, the event is applied before its handler
-- looks for the job, so that the cleanup that needs the job is left out: the job is gone, no effect is
-- executed, and the sessions, the workspaces and the owners of the agents are as they were.
pub process_job_deleted-keeps :
    (v : Services) (id : String) (w : World)
    → HasNoMatch id (Map.remove id w.state.jobs)
    → let w' = (process_job_deleted v id w).0 in
      (Map.get id w'.state.jobs ≡ none)
      × (w'.performed ≡ w.performed)
      × (w'.state.sessions ≡ w.state.sessions)
      × (w'.state.workspaces ≡ w.state.workspaces)
      × (w'.agent_owners ≡ w.agent_owners)
unfolding process_job_deleted handle_job_deleted clean_up_job get_job give apply_event
process_job_deleted-keeps v id w h =
    rw (get_job-removed id w.state.jobs h) (get-removed id w.state.jobs, refl, refl, refl, refl)
