-- ===== src/Engine/Scheduler.antt =====
-- crates/engine/src/scheduler.rs. An `Instant` and a `Duration` are numbers of one unit of time.
pub mod Firing
use oddjobs.Prelude.{
  ℕ, ◌+◌, String, Option, none, some, List, [], ◌∷◌, Bool, true, false, not, starts_with, leb,
  if◌then◌else◌, map,
}
use oddjobs.Prelude.Map
use oddjobs.Prelude.Map.{Map}
use oddjobs.Core.Event.{Event}

pub record Timer : Type 0 where
  pub fires_at : ℕ

pub record Scheduler : Type 0 where
  pub timers : Map Timer

-- `Scheduler::new()`
abbrev pub new_scheduler : Scheduler
new_scheduler = record { timers = [] }

unfoldable pub set_timer : String → ℕ → ℕ → Scheduler → Scheduler
set_timer id duration now s = record s {
  timers = Map.insert id (record { fires_at = now + duration }) s.timers;
}

unfoldable pub cancel_timer : String → Scheduler → Scheduler
cancel_timer id s = record s { timers = Map.remove id s.timers }

-- `retain(|id, _| !id.starts_with(prefix))`
unfoldable pub drop_prefix : String → Map Timer → Map Timer
drop_prefix prefix [] = []
drop_prefix prefix ((id, t) ∷ m) =
    let rest = drop_prefix prefix m in if starts_with id prefix then rest else (id, t) ∷ rest

unfoldable pub cancel_timers_with_prefix : String → Scheduler → Scheduler
cancel_timers_with_prefix prefix s = record s { timers = drop_prefix prefix s.timers }

-- The ids that the first loop of `fired_timers` collects.
unfoldable pub fired_ids : ℕ → Map Timer → List String
fired_ids now [] = []
fired_ids now ((id, t) ∷ m) =
    let rest = fired_ids now m in if leb t.fires_at now then id ∷ rest else rest

-- The second loop.
unfoldable pub remove_all : List String → Map Timer → Map Timer
remove_all [] m = m
remove_all (id ∷ ids) m = remove_all ids (Map.remove id m)

unfoldable pub fired_timers : ℕ → Scheduler → List Event × Scheduler
fired_timers now s =
    let to_remove = fired_ids now s.timers in
    (map Event.timer_start to_remove, record s { timers = remove_all to_remove s.timers })

-- `values().map(|t| t.fires_at).min()`
unfoldable pub earlier : ℕ → Option ℕ → Option ℕ
earlier n none = some n
earlier n (some d) = if leb n d then some n else some d

unfoldable pub earliest : Map Timer → Option ℕ
earliest [] = none
earliest ((id, t) ∷ m) = earlier t.fires_at (earliest m)

unfoldable pub next_deadline : Scheduler → Option ℕ
next_deadline s = earliest s.timers

unfoldable pub has_timers : Scheduler → Bool
has_timers s = not (is_empty s.timers)
  where
    is_empty : Map Timer → Bool
    is_empty [] = true
    is_empty (_ ∷ _) = false
