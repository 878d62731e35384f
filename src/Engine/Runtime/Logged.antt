-- ===== src/Engine/Runtime/Logged.antt =====
-- What the log gets of a run: every event that is applied, and of the reload of a worker's runbook
-- (mod.rs, `refresh_worker_runbook`) an event that is not.
use oddjobs.Prelude.{
  ℕ, String, Option, none, some, List, [], ◌∷◌, ◌≡◌, sym, ◌⊎◌, inl, inr, ◌==◌, if_intro,
}
use mathlib.Core.Path.{subst}
use mathlib.Core.List.{◌++◌}
use oddjobs.Prelude.Map
use oddjobs.Core.Event.{Event, Value}
use oddjobs.Storage.State.{MaterializedState}
use oddjobs.Storage.Apply.{apply_event}
use oddjobs.Storage.Recovery.{IsReachedBy}
use oddjobs.Engine.Worker.{WorkerState}
use oddjobs.Engine.Runtime.{Run, World, Services, RunbookLookup, give, raise}
use oddjobs.Engine.Runtime.Reload.{
  replace_runbook, reload_hashed, reload_serialized, reload_found, refresh_state,
  refresh_worker_runbook,
}
use oddjobs.Engine.Runtime.Outcomes.{Outcome, OnOk}
use oddjobs.Runbook.{Runbook}

pub data IsLoad : Event → Type 0 where
  loaded :
      (hash : String) (version : ℕ) (runbook : Value)
      → IsLoad (Event.runbook_loaded hash version runbook)

-- The state `t` comes from `s` by these events, each applied at some time; but a runbook that is
-- loaded may be left out.
abbrev pub IsLoggedBy : List Event → MaterializedState → MaterializedState → Type 0
IsLoggedBy [] s t = s ≡ t
IsLoggedBy (e ∷ es) s t =
    ((now : ℕ) × IsLoggedBy es (apply_event now e s) t) ⊎ (IsLoad e × IsLoggedBy es s t)

pub append-IsLoggedBy :
    (a b : List Event) (s t u : MaterializedState)
    → IsLoggedBy a s t
    → IsLoggedBy b t u
    → IsLoggedBy (a ++ b) s u
append-IsLoggedBy [] b s t u h k = subst (λ x. IsLoggedBy b x u) (sym h) k
append-IsLoggedBy (e ∷ a) b s t u (inl (now, h)) k =
    inl (now, append-IsLoggedBy a b (apply_event now e s) t u h k)
append-IsLoggedBy (e ∷ a) b s t u (inr (l, h)) k = inr (l, append-IsLoggedBy a b s t u h k)

pub IsReachedBy-IsLoggedBy :
    (es : List Event) (s t : MaterializedState) → IsReachedBy es s t → IsLoggedBy es s t
IsReachedBy-IsLoggedBy [] s t h = h
IsReachedBy-IsLoggedBy (e ∷ es) s t (now, h) =
    inl (now, IsReachedBy-IsLoggedBy es (apply_event now e s) t h)

-- The reload leaves the state as it is, and returns nothing or that the runbook is loaded.
module _ (Q : Outcome) (v : Services) (name : String) (w : World) (unchanged : Q [] w.state)
    (load : (hash : String) (json : Value)
      → Q (Event.runbook_loaded hash 1 json ∷ []) w.state) where
  hashed-OnOk :
      (state : WorkerState) (runbook : Runbook) (json : Value) (o : Option String)
      → OnOk Q (reload_hashed name state runbook json o w)
  unfolding reload_hashed replace_runbook raise
  hashed-OnOk state runbook json none = tt
  hashed-OnOk state runbook json (some hash) =
      if_intro (λ (r : Run). OnOk Q (r w)) (state.runbook_hash == hash) _ _
        (unfold give in unchanged) (load hash json)

  serialized-OnOk :
      (state : WorkerState) (runbook : Runbook) (o : Option Value)
      → OnOk Q (reload_serialized v name state runbook o w)
  unfolding reload_serialized raise
  serialized-OnOk state runbook none = tt
  serialized-OnOk state runbook (some json) = hashed-OnOk state runbook json (v.content_hash json)

  found-OnOk : (state : WorkerState) (l : RunbookLookup) → OnOk Q (reload_found v name state l w)
  unfolding reload_found raise
  found-OnOk state (RunbookLookup.broken e) = tt
  found-OnOk state RunbookLookup.missing = tt
  found-OnOk state (RunbookLookup.found runbook) =
      serialized-OnOk state runbook (v.serialize runbook)

  state-OnOk : (o : Option WorkerState) → OnOk Q (refresh_state v name o w)
  unfolding refresh_state give
  state-OnOk none = unchanged
  state-OnOk (some state) = found-OnOk state (v.find_runbook_by_worker state.project_root name)

  pub refresh_worker_runbook-OnOk : OnOk Q (refresh_worker_runbook v name w)
  unfolding refresh_worker_runbook
  refresh_worker_runbook-OnOk = state-OnOk (Map.get name w.worker_states)
