-- ===== src/Engine/Retry/Firing.antt =====
-- The retry timer of an item fires (crates/engine/src/runtime/handlers/timer.rs).
use mathlib.Core.Option
use Prim.Native.Char.{Char, code}
use oddjobs.Prelude.{
  ◌++◌, ℕ, String, Option, none, some, List, [], ◌∷◌, true, false, ◌≡◌, refl, Bool, any, ◌==◌, ◌&&◌,
  arith, strip_prefix,
}
use oddjobs.Prelude.Map
use oddjobs.Prelude.Map.{Map}
use oddjobs.Core.Event.{Event}
use oddjobs.Core.Names.{scoped_name}
use oddjobs.Core.Names.Laws.{has_char, split_scoped_name-scoped_name}
use oddjobs.Core.Timer.{queue_retry}
use oddjobs.Storage.State.{MaterializedState, QueueItem, QueueItemStatus}
use oddjobs.Engine.Retry.{
  find_item, rsplit_once, WorkerState, retry_item, on_retry_timer, handle_queue_retry_timer,
}

rsplit_once-none : (sep : ℕ) (s : String) → has_char sep s ≡ false → rsplit_once sep s ≡ none
unfolding has_char rsplit_once
rsplit_once-none sep String.[] h = refl
rsplit_once-none sep (String.◌∷◌ c s) h = ground (arith, rsplit_once-none sep s)

rsplit_once-append :
    (sep : ℕ) (s : String) (c : Char) (t : String)
    → has_char sep t ≡ false
    → code c ≡ sep
    → rsplit_once sep (s ++ String.◌∷◌ c t) ≡ some (s, t)
unfolding rsplit_once
rsplit_once-append sep String.[] c t h e = ground (arith, rsplit_once-none sep t h)
rsplit_once-append sep (String.◌∷◌ d s) c t h e = ground (arith, rsplit_once-append sep s c t h e)

-- What `handle_timer` makes of a timer id with the kind "queue-retry:".
unfoldable pub fire_retry :
    ℕ → Option String → Map WorkerState → MaterializedState → MaterializedState × List Event
fire_retry now none workers s = (s, [])
fire_retry now (some rest) workers s = handle_queue_retry_timer now rest workers s

-- The timer's text is read back.
pub fire_retry-queue_retry :
    (now : ℕ) (q id ns : String) (workers : Map WorkerState) (s : MaterializedState)
    → has_char b':' id ≡ false
    → has_char b'/' ns ≡ false
    → (ns ≡ "" → has_char b'/' q ≡ false)
    → fire_retry now (strip_prefix "queue-retry:" (queue_retry (scoped_name ns q) id)) workers s
      ≡ retry_item now (ns, q) id workers s
unfolding fire_retry handle_queue_retry_timer on_retry_timer queue_retry strip_prefix
fire_retry-queue_retry now q id ns workers s h k l =
    rw
      (
        rsplit_once-append b':' (scoped_name ns q) ":" id h refl,
        split_scoped_name-scoped_name ns q k l,
      )
      refl

abbrev pub is_wake : String → String → Event → Bool
is_wake name ns (Event.worker_wake n m) = n == name && m == ns
is_wake name ns _ = false

-- Who takes the item, how often it has failed, and its status.
abbrev pub progress : QueueItem → QueueItemStatus × ℕ × Option String
progress i = (i.status, i.failure_count, i.worker_name)

-- The item is pending again, and its worker is woken, after the event that retries it.
pub record HasRetried (q id ns worker : String) (x : MaterializedState × List Event) : Type 0 where
  pub is_pending :
      Option.map progress (find_item (scoped_name ns q) id x.0)
      ≡ some (QueueItemStatus.pending, 0, none)
  pub rest : List Event
  pub emitted : x.1 ≡ Event.queue_item_retry q id ns ∷ rest
  pub is_woken : any (is_wake worker ns) rest ≡ true
