-- ===== src/Engine/Runtime/Settling.antt =====
-- The runtime settles the item of a job that ended as Engine/Retry says.
use oddjobs.Prelude.{ℕ, String, Option, none, some, List, [], ◌∷◌, ◌≡◌}
use oddjobs.Prelude.Map
use oddjobs.Core.Effect.{Effect}
use oddjobs.Core.Event.{Event}
use oddjobs.Core.Names.{scoped_name}
use oddjobs.Engine.Retry
use oddjobs.Engine.Retry.{RetryConfig, find_item, retry_timer}
use mathlib.Core.Option
use oddjobs.Storage.State.{QueueItem, QueueItemStatus}
use oddjobs.Engine.Retry.Verdict.{IsSettled}
use oddjobs.Engine.Runtime.{World, Answer}
use oddjobs.Runbook.{Runbook}

-- The timer that the last effect sets.
unfoldable pub last_timer : List Effect → Option (String × ℕ)
last_timer [] = none
last_timer (Effect.set_timer timer duration ∷ _) = some (timer, duration)
last_timer (_ ∷ _) = none

-- The item `i` is completed: by what the run leaves and returns, without a timer.
pub record IsCompleted (q id ns : String) (i : QueueItem) (x : World × Answer) : Type 0 where
  pub found :
      find_item (scoped_name ns q) id x.0.state
      ≡ some (record i { status = QueueItemStatus.completed })
  pub answered : x.1 ≡ Answer.ok (Event.queue_completed q id ns ∷ [])
  pub untimed : last_timer x.0.performed ≡ none

-- The failure of the item `i` is settled by what the run leaves and returns.
pub record HasSettled (q id error ns : String) (config : Option RetryConfig) (i : QueueItem)
    (x : World × Answer) : Type 0 where
  pub es : List Event
  pub answered : x.1 ≡ Answer.ok es
  pub settled : IsSettled q id error ns config i x.0.state es (last_timer x.0.performed)
