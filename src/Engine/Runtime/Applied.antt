-- ===== src/Engine/Runtime/Applied.antt =====
-- The events that a run applies to the state, and those of them that it returns for the log.
use oddjobs.Prelude.{List, [], ◌≡◌, refl, sym}
use mathlib.Core.Path.{subst}
use mathlib.Core.List.{◌++◌}
use oddjobs.Core.Event.{Event}
use oddjobs.Storage.State.{MaterializedState}
use oddjobs.Storage.Recovery.{IsReachedBy, append-IsReachedBy}
use oddjobs.Engine.Runtime.Logged.{IsLoggedBy, append-IsLoggedBy, IsReachedBy-IsLoggedBy}
use oddjobs.Engine.Runtime.{World, Run, ◌>>◌, give}
use oddjobs.Engine.Runtime.Related.{then-Rel, give-Rel}
use oddjobs.Engine.Runtime.Outcomes.{Outcome, OnOk, OnOk-weaken, then-OnOk}

-- The state comes from `s` by the lost events and then the returned ones.
abbrev pub Applies : List Event → MaterializedState → Outcome
Applies lost s es t = IsReachedBy (lost ++ es) s t

-- The same, but for a runbook that a reload returns as loaded and does not apply.
abbrev pub Accounts : List Event → MaterializedState → Outcome
Accounts lost s es t = IsLoggedBy (lost ++ es) s t

-- Every event is lost, and none is returned.
abbrev pub Hides : List Event → MaterializedState → Outcome
Hides lost s es t = (es ≡ []) × IsReachedBy lost s t

-- Every event that is applied is returned.
abbrev pub ReturnsAll : Run → Type 0
ReturnsAll r = (w : World) → OnOk (Accounts [] w.state) (r w)

pub then-ReturnsAll : (r next : Run) → ReturnsAll r → ReturnsAll next → ReturnsAll (r >> next)
then-ReturnsAll = then-Rel IsLoggedBy (λ s. refl) append-IsLoggedBy

-- What is lost first stays lost.
pub then-Accounts :
    (a b : List Event) (s : MaterializedState) (r next : Run) (w : World)
    → OnOk (Hides a s) (r w)
    → ((u : World) → IsReachedBy a s u.state → OnOk (Accounts b u.state) (next u))
    → OnOk (λ es t. IsLoggedBy (a ++ (b ++ es)) s t) ((r >> next) w)
then-Accounts a b s r next w h k =
    then-OnOk (Hides a s) (λ es t. IsLoggedBy (a ++ (b ++ es)) s t) r next w h
      λ es u hidden.
        subst (λ xs. OnOk (λ fs t. IsLoggedBy (a ++ (b ++ (xs ++ fs))) s t) (next u)) (sym hidden.0)
          (OnOk-weaken (Accounts b u.state) (λ fs t. IsLoggedBy (a ++ (b ++ fs)) s t) (next u)
            (k u hidden.1)
            λ fs t more.
              append-IsLoggedBy a (b ++ fs) s u.state t
                (IsReachedBy-IsLoggedBy a s u.state hidden.1) more)

pub then-Hides :
    (a b : List Event) (s : MaterializedState) (r next : Run) (w : World)
    → OnOk (Hides a s) (r w)
    → ((u : World) → OnOk (Hides b u.state) (next u))
    → OnOk (Hides (a ++ b) s) ((r >> next) w)
then-Hides a b s r next w h k = then-OnOk (Hides a s) (Hides (a ++ b) s) r next w h λ es u hidden.
    subst (λ xs. OnOk (λ fs t. Hides (a ++ b) s (xs ++ fs) t) (next u)) (sym hidden.0)
      (OnOk-weaken (Hides b u.state) (Hides (a ++ b) s) (next u) (k u)
        λ fs t more. (more.0, append-IsReachedBy a b s u.state t hidden.1 more.1))

pub give-ReturnsAll : ReturnsAll (give [])
give-ReturnsAll = give-Rel IsLoggedBy (λ s. refl) append-IsLoggedBy
