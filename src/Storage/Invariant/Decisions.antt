-- ===== src/Storage/Invariant/Decisions.antt =====
-- How many decisions of an owner are open.
use oddjobs.Prelude.{
  ℕ, suc, ◌+◌, ◌≤◌, String, Option, some, List, [], ◌∷◌, Bool, false, not, ◌&&◌, ◌==◌, ◌≡◌, refl,
  arith, if◌then◌else◌,
}
use oddjobs.Prelude.Map
use oddjobs.Prelude.Map.{Map}
use oddjobs.Core.Decision.{Decision, is_resolved}
use oddjobs.Core.Event.{Event}
use oddjobs.Core.Owner.{OwnerId, owner_eq, owner_eq_iff}
use oddjobs.Storage.State.{MaterializedState}
use oddjobs.Storage.Apply.{apply_event}
use oddjobs.Storage.Apply.Jobs.{survives}
use oddjobs.Storage.Apply.Decisions.{supersede, add_decision}
use oddjobs.Storage.Apply.Runs.{run_survives}
use oddjobs.Storage.Replay.{replay, replay_keeps}

unfoldable pub open_for : OwnerId → Decision → Bool
open_for o d = owner_eq d.owner o && not (is_resolved d)

-- The number of open decisions of an owner.
unfoldable pub open_count : OwnerId → Map Decision → ℕ
open_count o [] = 0
open_count o ((k, d) ∷ m) = if open_for o d then suc (open_count o m) else open_count o m

module _ (o : OwnerId) where
  open_count-retain :
      (p : Decision → Bool) (m : Map Decision) → open_count o (Map.retain p m) ≤ open_count o m
  unfolding open_count Map.retain
  open_count-retain p [] = omega arith
  open_count-retain p ((k, d) ∷ m) = ground (arith, open_count-retain p m)

  open_count-modify :
      (k : String) (f : Decision → Decision) (m : Map Decision)
      → ((d : Decision) → open_for o (f d) ≡ false)
      → open_count o (Map.modify k f m) ≤ open_count o m
  unfolding open_count Map.modify
  open_count-modify k f [] h = omega arith
  open_count-modify k f ((j, d) ∷ m) h = ground (arith, h d, open_count-modify k f m h)

  open_count-resolve :
      (k : String) (c : Option ℕ) (g : Option String) (at : ℕ) (m : Map Decision)
      → open_count o
          (Map.modify k (λ d. record d { chosen = c; message = g; resolved_at_ms = some at }) m)
        ≤ open_count o m
  unfolding open_for is_resolved
  open_count-resolve k c g at m = open_count-modify k _ m (λ d. ground arith)

  open_count-insert :
      (k : String) (d : Decision) (m : Map Decision)
      → open_count o (Map.insert k d m) ≤ open_count o m + (if open_for o d then 1 else 0)
  unfolding open_count Map.insert
  open_count-insert k d [] = ground arith
  open_count-insert k d ((j, w) ∷ m) = ground (arith, open_count-insert k d m)

  open_count-supersede :
      (p : OwnerId) (id : String) (at : ℕ) (m : Map Decision)
      → open_count o (Map.map_values (supersede p id at) m) ≤ open_count o m
  unfolding open_count Map.map_values supersede open_for is_resolved
  open_count-supersede p id at [] = omega arith
  open_count-supersede p id at ((k, d) ∷ m) = ground (arith, open_count-supersede p id at m)

  open_count-supersede_self :
      (id : String) (at : ℕ) (m : Map Decision)
      → open_count o (Map.map_values (supersede o id at) m) ≡ 0
  unfolding open_count Map.map_values supersede open_for is_resolved
  open_count-supersede_self id at [] = refl
  open_count-supersede_self id at ((k, d) ∷ m) = ground (arith, open_count-supersede_self id at m)

  -- Either the decision is another owner's, or every earlier one is superseded.
  add_decision_le :
      (d : Decision) (m : Map Decision) → open_count o m ≤ 1 → open_count o (add_decision d m) ≤ 1
  unfolding add_decision open_for
  add_decision_le d m h = ground (
    arith,
    open_count-insert d.id d (Map.map_values (supersede d.owner d.id d.created_at_ms) m),
    open_count-supersede d.owner d.id d.created_at_ms m,
    open_count-supersede_self d.id d.created_at_ms m,
    owner_eq_iff d.owner o,
  )

  pub apply_event-open_count :
      (t : ℕ) (e : Event) (s : MaterializedState)
      → open_count o s.decisions ≤ 1
      → open_count o (apply_event t e s).decisions ≤ 1
  unfolding apply_event
  apply_event-open_count t (Event.job_advanced id step) s h =
      ground (arith, open_count-retain (survives id) s.decisions)
  apply_event-open_count t (Event.job_deleted id) s h =
      omega (arith, open_count-retain (λ d. not (d.job_id == id)) s.decisions)
  apply_event-open_count t (Event.decision_created _ _ _ _ _ _ _ _ _) s h =
      add_decision_le _ s.decisions h
  apply_event-open_count t (Event.decision_resolved id c m at ns) s h =
      omega (arith, open_count-resolve id c m at s.decisions)
  apply_event-open_count t (Event.agent_run_status_changed id st r) s h =
      ground (arith, open_count-retain (run_survives id) s.decisions)
  apply_event-open_count t (Event.agent_signal a k m) s h = ground arith
  apply_event-open_count t (Event.runbook_loaded hash v r) s h = ground arith
  apply_event-open_count t _ s h = h

-- Replaying a log never leaves an owner with two open decisions, if there were none at the start.
pub replay-open_count :
    (es : List (ℕ × Event)) (s : MaterializedState) (o : OwnerId)
    → open_count o s.decisions ≤ 1
    → open_count o (replay es s).decisions ≤ 1
replay-open_count es s o =
    replay_keeps (λ q. open_count o q.decisions ≤ 1) (apply_event-open_count o) es s
