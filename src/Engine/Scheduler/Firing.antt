-- ===== src/Engine/Scheduler/Firing.antt =====
-- Which timers a call of `fired_timers` reports and takes out, and which deadline is left.
use oddjobs.Prelude.{
  ℕ, ◌<◌, String, Option, none, some, List, [], ◌∷◌, Bool, true, false, ◌||◌, ◌==◌, ◌≡◌, refl, sym,
  ◌∙◌, ◌+◌, ◌⊎◌, arith, leb, if◌then◌else◌, eq_iff, eq_refl, any, map,
}
use oddjobs.Prelude.Map
use oddjobs.Prelude.Map.{Map, AllValues, HasUniqueKeys}
use oddjobs.Prelude.Map.Laws.{get-remove, get-insert, get_missing}
use oddjobs.Prelude.Map.Keys.{insert-HasUniqueKeys, remove-HasUniqueKeys}
use oddjobs.Core.Event.{Event}
use oddjobs.Engine.Scheduler.{
  Timer, Scheduler, set_timer, fired_ids, remove_all, fired_timers, earlier, earliest,
  next_deadline,
}

-- Whether a timer is set for a moment that has come.
unfoldable pub is_due : ℕ → Option Timer → Bool
is_due now none = false
is_due now (some t) = leb t.fires_at now

-- Whether the events report that the timer fired.
unfoldable pub reports : String → List Event → Bool
reports id [] = false
reports id (Event.timer_start j ∷ es) = j == id || reports id es
reports id (_ ∷ es) = reports id es

module _ (now : ℕ) where
  fired_ids-due :
      (id : String) (m : Map Timer)
      → HasUniqueKeys m
      → any (λ j. j == id) (fired_ids now m) ≡ is_due now (Map.get id m)
  unfolding fired_ids is_due Map.get
  fired_ids-due id [] h = refl
  fired_ids-due id ((j, t) ∷ m) h =
      ground (arith, fired_ids-due id m h.1, eq_iff j id, get_missing j m h.0)

get-remove_all :
    (id : String) (ids : List String) (m : Map Timer)
    → Map.get id (remove_all ids m) ≡ (if any (λ j. j == id) ids then none else Map.get id m)
unfolding remove_all
get-remove_all id [] m = refl
get-remove_all id (j ∷ ids) m =
    ground (arith, get-remove_all id ids (Map.remove j m), get-remove j id m)

reports-map :
    (id : String) (ids : List String)
    → reports id (map Event.timer_start ids) ≡ any (λ j. j == id) ids
unfolding reports
reports-map id [] = refl
reports-map id (j ∷ ids) = ground (arith, reports-map id ids)

-- A timer is reported just when it is set for a moment not after `now`; then it is gone, and
-- otherwise it stays as it is set, in a scheduler where no id is set twice.
pub fired_timers-due :
    (now : ℕ) (s : Scheduler) (id : String)
    → HasUniqueKeys s.timers
    → (reports id (fired_timers now s).0 ≡ is_due now (Map.get id s.timers))
      × (Map.get id (fired_timers now s).1.timers
          ≡ (if is_due now (Map.get id s.timers) then none else Map.get id s.timers))
unfolding fired_timers
fired_timers-due now s id h = ground (
  arith,
  fired_ids-due now id s.timers h,
  reports-map id (fired_ids now s.timers),
  get-remove_all id (fired_ids now s.timers) s.timers,
)

-- Whether a deadline, if there is one, is still to come.
abbrev pub IsFuture : ℕ → Option ℕ → Type 0
IsFuture now none = Unit
IsFuture now (some d) = now < d

abbrev pub IsPending : ℕ → Timer → Type 0
IsPending now t = now < t.fires_at

module _ (now : ℕ) where
  earliest-IsFuture : (m : Map Timer) → AllValues (IsPending now) m → IsFuture now (earliest m)
  unfolding earliest earlier
  earliest-IsFuture [] h = tt
  earliest-IsFuture ((j, t) ∷ m) (h, hs) = step (earliest m) (earliest-IsFuture m hs)
    where
      step : (o : Option ℕ) → IsFuture now o → IsFuture now (earlier t.fires_at o)
      step none k = h
      step (some d) k = ground arith

-- A timer is still to fire, or is among those that are taken out.
abbrev PendingOr : ℕ → List String → Map Timer → Type 0
PendingOr now ids [] = Unit
PendingOr now ids ((j, t) ∷ m) =
    ((now < t.fires_at) ⊎ (any (λ i. i == j) ids ≡ true)) × PendingOr now ids m

module _ (now : ℕ) where
  PendingOr-grow :
      (i : String) (ids : List String) (m : Map Timer)
      → PendingOr now ids m
      → PendingOr now (i ∷ ids) m
  PendingOr-grow i ids [] h = tt
  PendingOr-grow i ids ((j, t) ∷ m) h = (ground (arith, h.0), PendingOr-grow i ids m h.1)

  fired_ids-PendingOr : (m : Map Timer) → PendingOr now (fired_ids now m) m
  unfolding fired_ids
  fired_ids-PendingOr [] = tt
  fired_ids-PendingOr ((j, t) ∷ m) = ground (
    arith,
    fired_ids-PendingOr m,
    PendingOr-grow j (fired_ids now m) m (fired_ids-PendingOr m),
    eq_refl j,
  )

  remove-PendingOr :
      (i : String) (ids : List String) (m : Map Timer)
      → PendingOr now (i ∷ ids) m
      → PendingOr now ids (Map.remove i m)
  unfolding Map.remove
  remove-PendingOr i ids [] h = tt
  remove-PendingOr i ids ((j, t) ∷ m) h =
      ground (arith, h.0, remove-PendingOr i ids m h.1, eq_iff i j, eq_iff j i)

  remove_all-IsPending :
      (ids : List String) (m : Map Timer)
      → PendingOr now ids m
      → AllValues (IsPending now) (remove_all ids m)
  unfolding remove_all
  remove_all-IsPending [] [] h = tt
  remove_all-IsPending [] ((j, t) ∷ m) h = (ground (arith, h.0), remove_all-IsPending [] m h.1)
  remove_all-IsPending (i ∷ ids) m h =
      remove_all-IsPending ids (Map.remove i m) (remove-PendingOr i ids m h)

-- After a call of `fired_timers` the next deadline, if there is one, is still to come.
pub fired_timers-next_deadline :
    (now : ℕ) (s : Scheduler) → IsFuture now (next_deadline (fired_timers now s).1)
unfolding fired_timers next_deadline
fired_timers-next_deadline now s =
    earliest-IsFuture now (remove_all (fired_ids now s.timers) s.timers) (
      remove_all-IsPending now (fired_ids now s.timers) s.timers (fired_ids-PendingOr now s.timers))

remove_all-HasUniqueKeys :
    (ids : List String) (m : Map Timer) → HasUniqueKeys m → HasUniqueKeys (remove_all ids m)
unfolding remove_all
remove_all-HasUniqueKeys [] m h = h
remove_all-HasUniqueKeys (i ∷ ids) m h =
    remove_all-HasUniqueKeys ids (Map.remove i m) (remove-HasUniqueKeys i m h)

-- A timer that is set at `now` is reported by a call at `later` just when its duration has passed by
-- then, and once it is reported no later call reports it again.
pub set_timer-fired_timers :
    (id : String) (duration now later again : ℕ) (s : Scheduler)
    → HasUniqueKeys s.timers
    → let called = fired_timers later (set_timer id duration now s) in
      (reports id called.0 ≡ leb (now + duration) later)
      × (reports id called.0 ≡ true → reports id (fired_timers again called.1).0 ≡ false)
set_timer-fired_timers id duration now later again s h =
    let set = set_timer id duration now s in
    let unique : HasUniqueKeys set.timers =
      unfold set_timer in insert-HasUniqueKeys id _ s.timers h in
    let called = fired_timers later set in
    let first = fired_timers-due later set id unique in
    let second = fired_timers-due again called.1 id (
      unfold fired_timers in
      remove_all-HasUniqueKeys (fired_ids later set.timers) set.timers unique) in
    let there : Map.get id set.timers ≡ some (record { fires_at = now + duration }) =
      unfold set_timer in get-insert id id _ s.timers ∙ (rw (eq_refl id) refl) in
    (
      first.0 ∙ (unfold is_due in rw there refl),
      λ fired. second.0 ∙ (unfold is_due in rw (first.1, sym first.0, fired) refl),
    )
