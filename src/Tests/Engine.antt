-- ===== src/Tests/Engine.antt =====
-- The engine's properties at concrete inputs.
use oddjobs.Prelude.{
  String, Option, none, some, List, [], ◌∷◌, ◌≡◌, refl, true, false, leb, ◌+◌, arith, if◌then◌else◌,
  push, modify_first,
}
use oddjobs.Prelude.Map
use mathlib.Core.Option
use oddjobs.Core.Event.{Event}
use oddjobs.Core.Names.{scoped_name}
use oddjobs.Storage.State.{MaterializedState, QueueItem, QueueItemStatus, empty_state}
use oddjobs.Storage.Apply.{apply_event}
use oddjobs.Storage.Replay.{replay, stamped}
use oddjobs.Core.Names.Laws.{has_char}
use oddjobs.Storage.Apply.Queues.{new_item, push_item, has_id, is_failed_item, take}
use oddjobs.Engine.Retry.{
  RetryConfig, find_item, find_in, find_in_queue, may_retry, max_attempts_of, retry_or_dead,
  fail_item, WorkerState,
}
use oddjobs.Engine.Retry.Firing.{progress}
use oddjobs.Engine.Retry.Cycle.{rounds, rounds-pending}
use oddjobs.Engine.Retry.Redelivery.{standing, fail_item_redelivered}
use oddjobs.Engine.Scheduler.{Scheduler, set_timer, new_scheduler, fired_timers, next_deadline}
use oddjobs.Engine.Scheduler.Firing.{
  is_due, reports, set_timer-fired_timers, fired_timers-due, IsFuture, fired_timers-next_deadline,
}

-- One item that no job has worked on, and one that a worker has taken.
abbrev one_item : MaterializedState
one_item = apply_event 1 (Event.queue_pushed "bugs" "item-1" [] 10 "") empty_state

abbrev pending_item : QueueItem
pending_item = new_item "bugs" "item-1" [] 10

abbrev taken_item : MaterializedState
taken_item = apply_event 2 (Event.queue_taken "bugs" "item-1" "fixer" "") one_item

abbrev three_attempts : Option RetryConfig
three_attempts = some (record { attempts = 3; cooldown = "30s" })

abbrev attached : List (String × WorkerState)
attached = ("fixer", record { queue_name = "bugs"; namespace = "" }) ∷ []

pending_found : find_item (scoped_name "" "bugs") "item-1" one_item ≡ some pending_item
unfolding find_item find_in_queue find_in apply_event scoped_name Map.get new_item Map.modify
    Map.or_insert push_item push has_id
pending_found = refl

taken_found :
    find_item (scoped_name "" "bugs") "item-1" taken_item ≡ some (take "fixer" pending_item)
unfolding find_item find_in_queue find_in apply_event scoped_name Map.get new_item take Map.modify
    Map.or_insert modify_first push_item push has_id
taken_found = refl

rounds-pending_example :
    Option.map progress (
      find_item (scoped_name "" "bugs") "item-1" (
        rounds 5 3 "bugs" "item-1" "fixer" "job reached 'failed'" "" three_attempts attached
          one_item))
    ≡ some (QueueItemStatus.pending, 0, none)
unfolding has_char max_attempts_of
rounds-pending_example =
    rounds-pending 3 "bugs" "item-1" "fixer" "job reached 'failed'" "" three_attempts attached refl
      refl (λ e. refl) (omega arith) 4 one_item pending_item (unfold new_item in refl) pending_found

fail_item_redelivered_example :
    let r = fail_item 3 "bugs" "item-1" "job reached 'failed'" "" none taken_item in
    (Option.map standing (find_item (scoped_name "" "bugs") "item-1" r.after)
      ≡ some (QueueItemStatus.dead, 1))
    × (Option.map standing
          (find_item (scoped_name "" "bugs") "item-1" (replay (stamped 4 r.emitted) r.after))
        ≡ some (QueueItemStatus.dead, 2))
unfolding is_failed_item take may_retry max_attempts_of new_item stamped fail_item retry_or_dead
    replay apply_event
fail_item_redelivered_example =
    fail_item_redelivered 3 "bugs" "item-1" "job reached 'failed'" "" none taken_item
      (take "fixer" pending_item) taken_found refl refl

abbrev two_timers : Scheduler
two_timers = set_timer "liveness:job-1" 30000 0 (set_timer "cron:nightly" 60000 0 new_scheduler)

fired_timers-due_example :
    (reports "liveness:job-1" (fired_timers 30000 two_timers).0
      ≡ is_due 30000 (Map.get "liveness:job-1" two_timers.timers))
    × (Map.get "liveness:job-1" (fired_timers 30000 two_timers).1.timers ≡ (
        if is_due 30000 (Map.get "liveness:job-1" two_timers.timers)
        then none
        else Map.get "liveness:job-1" two_timers.timers))
fired_timers-due_example =
    fired_timers-due 30000 two_timers "liveness:job-1"
      (unfold set_timer Map.insert Map.contains_key in (refl, (refl, tt)))

fired_timers-next_deadline_example :
    IsFuture 30000 (next_deadline (fired_timers 30000 two_timers).1)
fired_timers-next_deadline_example = fired_timers-next_deadline 30000 two_timers

set_timer-fired_timers_example :
    let called = fired_timers 70000 (set_timer "liveness:job-2" 30000 10000 two_timers) in
    (reports "liveness:job-2" called.0 ≡ leb (10000 + 30000) 70000)
    × (reports "liveness:job-2" called.0 ≡ true
        → reports "liveness:job-2" (fired_timers 80000 called.1).0 ≡ false)
set_timer-fired_timers_example =
    set_timer-fired_timers "liveness:job-2" 30000 10000 70000 80000 two_timers
      (unfold set_timer Map.insert Map.contains_key in (refl, (refl, tt)))
