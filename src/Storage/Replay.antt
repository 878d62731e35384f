-- ===== src/Storage/Replay.antt =====
-- crates/daemon/src/lifecycle/mod.rs: the loop that replays the log over a snapshot. An entry is an
-- event with what the clock reads while it is applied.
use oddjobs.Prelude.{ℕ, List, [], ◌∷◌}
use oddjobs.Core.Event.{Event}
use oddjobs.Storage.State.{MaterializedState}
use oddjobs.Storage.Apply.{apply_event}

unfoldable pub replay : List (ℕ × Event) → MaterializedState → MaterializedState
replay [] s = s
replay ((now, e) ∷ es) s = replay es (apply_event now e s)

-- Entries for events that are applied at one reading of the clock.
unfoldable pub stamped : ℕ → List Event → List (ℕ × Event)
stamped now [] = []
stamped now (e ∷ es) = (now, e) ∷ stamped now es

-- What every event keeps, a replay keeps.
pub replay_keeps {ℓ} :
    (P : MaterializedState → Type ℓ)
    → ((t : ℕ) (e : Event) (s : MaterializedState) → P s → P (apply_event t e s))
    → (es : List (ℕ × Event)) (s : MaterializedState) → P s
    → P (replay es s)
unfolding replay
replay_keeps P step [] s h = h
replay_keeps P step ((t, e) ∷ es) s h = replay_keeps P step es (apply_event t e s) (step t e s h)
