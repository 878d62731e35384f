-- ===== src/Storage/Lookup.antt =====
-- crates/storage/src/state.rs, the queries of `MaterializedState`.
pub mod Prefixes
use oddjobs.Prelude.{String, Option, none, some, List, [], ◌∷◌, ◌==◌, starts_with, if◌then◌else◌}
use oddjobs.Prelude.Map
use oddjobs.Prelude.Map.{Map}
use oddjobs.Core.Decision.{Decision}
use oddjobs.Core.Job.{Job}
use oddjobs.Storage.State.{WorkerRecord, CronRecord, MaterializedState}

module _ {ℓ} {V : Type ℓ} where
  -- `iter().filter(|(k, _)| k.starts_with(id)).collect()`
  unfoldable pub prefix_matches : String → Map V → List V
  prefix_matches id [] = []
  prefix_matches id ((k, v) ∷ m) =
      let rest = prefix_matches id m in if starts_with k id then v ∷ rest else rest

  -- `if matches.len() == 1 { Some(matches[0].1) } else { None }`
  unfoldable pub only : List V → Option V
  only (v ∷ []) = some v
  only _ = none

  -- The body that `get_job` and `get_decision` share.
  unfoldable pub get_by_prefix : String → Map V → Option V
  get_by_prefix id m = elim (Map.get id m) [ some v ↦ some v | none ↦ only (prefix_matches id m) ]

unfoldable pub get_job : String → MaterializedState → Option Job
get_job id s = get_by_prefix id s.jobs

unfoldable pub get_decision : String → MaterializedState → Option Decision
get_decision id s = get_by_prefix id s.decisions

unfoldable pub root_of_workers : String → Map WorkerRecord → Option String
root_of_workers ns [] = none
root_of_workers ns ((k, w) ∷ m) =
    let rest = root_of_workers ns m in if w.namespace == ns then some w.project_root else rest

unfoldable pub root_of_crons : String → Map CronRecord → Option String
root_of_crons ns [] = none
root_of_crons ns ((k, c) ∷ m) =
    let rest = root_of_crons ns m in if c.namespace == ns then some c.project_root else rest

or_else {ℓ} : {A : Type ℓ} → Option A → Option A → Option A
or_else (some a) o = some a
or_else none o = o

unfoldable pub project_root_for_namespace : String → MaterializedState → Option String
unfolding or_else
project_root_for_namespace ns s =
    or_else (Map.get ns s.project_roots)
      (or_else (root_of_workers ns s.workers) (root_of_crons ns s.crons))
