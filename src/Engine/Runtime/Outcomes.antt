-- ===== src/Engine/Runtime/Outcomes.antt =====
-- What a run leaves when it succeeds: rules for the ways in which runs are put together.
use oddjobs.Prelude.{String, Option, none, some, List, [], ◌≡◌, refl}
use mathlib.Core.List.{◌++◌}
use oddjobs.Prelude.Map
use oddjobs.Core.Event.{Event}
use oddjobs.Storage.State.{MaterializedState, StoredRunbook}
use oddjobs.Engine.Runtime.{
  World, Answer, Run, RuntimeError, prepend, continue_with, ◌>>◌, without_events, quietly, raise,
  Services, deserialized, stored, cached, match_runbook, cached_runbook,
}
use oddjobs.Runbook.{Runbook}

abbrev pub Outcome : Type 1
Outcome = List Event → MaterializedState → Type 0

-- What holds of the returned events and the state, unless there is an error.
abbrev pub OnOk : Outcome → World × Answer → Type 0
OnOk Q (w, Answer.ok es) = Q es w.state
OnOk Q (w, Answer.err e) = Unit

pub OnOk-weaken :
    (Q R : Outcome) (x : World × Answer)
    → OnOk Q x
    → ((es : List Event) (t : MaterializedState) → Q es t → R es t)
    → OnOk R x
OnOk-weaken Q R (w, Answer.ok es) h f = f es w.state h
OnOk-weaken Q R (w, Answer.err e) h f = tt

prepend-OnOk :
    (R : Outcome) (es : List Event) (x : World × Answer)
    → OnOk (λ fs t. R (es ++ fs) t) x
    → OnOk R (prepend es x)
unfolding prepend
prepend-OnOk R es (w, Answer.ok fs) h = h
prepend-OnOk R es (w, Answer.err e) h = tt

continue-OnOk :
    (Q R : Outcome) (next : Run) (x : World × Answer)
    → OnOk Q x
    → ((es : List Event) (u : World) → Q es u.state → OnOk (λ fs t. R (es ++ fs) t) (next u))
    → OnOk R (continue_with next x)
unfolding continue_with
continue-OnOk Q R next (w, Answer.ok es) h k = prepend-OnOk R es (next w) (k es w h)
continue-OnOk Q R next (w, Answer.err e) h k = tt

pub then-OnOk :
    (Q R : Outcome) (r next : Run) (w : World)
    → OnOk Q (r w)
    → ((es : List Event) (u : World) → Q es u.state → OnOk (λ fs t. R (es ++ fs) t) (next u))
    → OnOk R ((r >> next) w)
unfolding ◌>>◌
then-OnOk Q R r next w = continue-OnOk Q R next (r w)

dropped-OnOk :
    (R : Outcome) (x : World × Answer) → OnOk (λ es t. R [] t) x → OnOk R (without_events x)
unfolding without_events
dropped-OnOk R (w, Answer.ok es) h = h
dropped-OnOk R (w, Answer.err e) h = tt

pub quietly-OnOk :
    (R : Outcome) (r : Run) (w : World) → OnOk (λ es t. R [] t) (r w) → OnOk R (quietly r w)
unfolding quietly
quietly-OnOk R r w = dropped-OnOk R (r w)

module _ (R : Outcome) (v : Services) (hash : String) (otherwise : RuntimeError → Run)
    (next : Runbook → Run) (w : World) (f : (e : RuntimeError) → OnOk R (otherwise e w))
    (k : (runbook : Runbook) (u : World) → u.state ≡ w.state → OnOk R (next runbook u)) where
  deserialized-OnOk : (o : Option Runbook) → OnOk R (deserialized hash otherwise next o w)
  unfolding deserialized
  deserialized-OnOk none = f (RuntimeError.runbook_load_error hash)
  deserialized-OnOk (some runbook) =
      k runbook (record w { runbook_cache = Map.insert hash runbook w.runbook_cache }) refl

  stored-OnOk : (o : Option StoredRunbook) → OnOk R (stored v hash otherwise next o w)
  unfolding stored
  stored-OnOk none = f (RuntimeError.runbook_load_error hash)
  stored-OnOk (some s) = deserialized-OnOk (v.deserialize s.runbook)

  cached-OnOk : (o : Option Runbook) → OnOk R (cached v hash otherwise next o w)
  unfolding cached
  cached-OnOk none = stored-OnOk (Map.get hash w.state.runbooks)
  cached-OnOk (some runbook) = k runbook w refl

  -- A runbook that is found leaves the state as it is.
  pub match_runbook-OnOk : OnOk R (match_runbook v hash otherwise next w)
  unfolding match_runbook
  match_runbook-OnOk = cached-OnOk (Map.get hash w.runbook_cache)

pub cached_runbook-OnOk :
    (R : Outcome) (v : Services) (hash : String) (next : Runbook → Run) (w : World)
    → ((runbook : Runbook) (u : World) → u.state ≡ w.state → OnOk R (next runbook u))
    → OnOk R (cached_runbook v hash next w)
unfolding cached_runbook raise
cached_runbook-OnOk R v hash next w = λ k. match_runbook-OnOk R v hash raise next w (λ e. tt) k
