-- ===== src/Storage/Invariant/Queues.antt =====
-- How often an id stands in a queue, and in a worker's list of active jobs.
use oddjobs.Prelude.{
  ℕ, suc, ◌+◌, ◌≤◌, String, List, [], ◌∷◌, Bool, false, not, ◌==◌, ◌≡◌, refl, arith, if◌then◌else◌,
  eq_iff, any, push, retain, modify_first,
}
use oddjobs.Prelude.Map
use oddjobs.Prelude.Map.{Map, AllValues}
use oddjobs.Prelude.Map.Laws.{
  insert-AllValues, or_insert-AllValues, remove-AllValues, modify-AllValues, map_values-AllValues,
}
use oddjobs.Core.Event.{Event}
use oddjobs.Core.Names.{scoped_name}
use oddjobs.Storage.State.{MaterializedState, QueueItem, WorkerRecord}
use oddjobs.Storage.Apply.{apply_event}
use oddjobs.Storage.Apply.Jobs.{drop_active}
use oddjobs.Storage.Apply.Queues.{has_id, new_item, push_item, take, complete, fail, retry, bury}
use oddjobs.Storage.Apply.Workers.{dispatch, active_ids}
use oddjobs.Storage.Replay.{replay, replay_keeps}

-- How many elements pass a test.
unfoldable pub count {ℓ} : {A : Type ℓ} → (A → Bool) → List A → ℕ
count p [] = 0
count p (x ∷ xs) = if p x then suc (count p xs) else count p xs

module _ {ℓ} {A : Type ℓ} (p : A → Bool) where
  count_none : (xs : List A) → any p xs ≡ false → count p xs ≡ 0
  unfolding count
  count_none [] h = refl
  count_none (x ∷ xs) h = ground (arith, count_none xs)

  count-push : (xs : List A) (a : A) → count p (push xs a) ≡ count p xs + (if p a then 1 else 0)
  unfolding count push
  count-push [] a = ground arith
  count-push (x ∷ xs) a = ground (arith, count-push xs a)

  count-retain-le : (q : A → Bool) (xs : List A) → count p (retain q xs) ≤ count p xs
  unfolding count retain
  count-retain-le q [] = omega arith
  count-retain-le q (x ∷ xs) = ground (arith, count-retain-le q xs)

  count-modify_first :
      (q : A → Bool) (f : A → A) (xs : List A)
      → ((a : A) → p (f a) ≡ p a)
      → count p (modify_first q f xs) ≡ count p xs
  unfolding count modify_first
  count-modify_first q f [] h = refl
  count-modify_first q f (x ∷ xs) h = ground (arith, h x, count-modify_first q f xs h)

abbrev pub IsQueue : List QueueItem → Type 0
IsQueue items = (id : String) → count (has_id id) items ≤ 1

push_item-IsQueue : (i : QueueItem) (xs : List QueueItem) → IsQueue xs → IsQueue (push_item i xs)
unfolding push_item has_id
push_item-IsQueue i xs h id = ground (
  arith,
  h id,
  count-push (λ (j : QueueItem). j.id == id) xs i,
  count_none (λ (j : QueueItem). j.id == id) xs,
  eq_iff i.id id,
)

modify_first-IsQueue :
    (q : QueueItem → Bool) (f : QueueItem → QueueItem) (xs : List QueueItem)
    → ((i : QueueItem) → (f i).id ≡ i.id)
    → IsQueue xs
    → IsQueue (modify_first q f xs)
modify_first-IsQueue q f xs k h id =
    omega (arith, h id, count-modify_first (has_id id) q f xs (λ i. unfold has_id in rw (k i)))

abbrev pub IsActiveList : WorkerRecord → Type 0
IsActiveList w = (id : String) → count (λ pid. pid == id) w.active_job_ids ≤ 1

dispatch-IsActiveList :
    (j : String) (w : WorkerRecord) → IsActiveList w → IsActiveList (dispatch j w)
unfolding dispatch
dispatch-IsActiveList j w h id = ground (
  arith,
  h id,
  count-push (λ pid. pid == id) w.active_job_ids j,
  count_none (λ pid. pid == id) w.active_job_ids,
  eq_iff j id,
)

drop_active-IsActiveList :
    (j : String) (w : WorkerRecord) → IsActiveList w → IsActiveList (drop_active j w)
unfolding drop_active
drop_active-IsActiveList j w h id =
    omega (arith, h id, count-retain-le (λ pid. pid == id) (λ pid. not (pid == j)) w.active_job_ids)

active_ids_unique :
    (k : String) (m : Map WorkerRecord)
    → AllValues IsActiveList m
    → (id : String) → count (λ pid. pid == id) (active_ids (Map.get k m)) ≤ 1
unfolding active_ids Map.get count
active_ids_unique k [] a id = omega arith
active_ids_unique k ((j, w) ∷ m) a id = ground (arith, a.0 id, active_ids_unique k m a.1 id)

abbrev pub HasUniqueIds : MaterializedState → Type 0
HasUniqueIds s = AllValues IsQueue s.queue_items × AllValues IsActiveList s.workers

module _ (t : ℕ) (s : MaterializedState) (h : HasUniqueIds s) where
  on_item-IsQueue :
      (q id ns : String) (f : QueueItem → QueueItem)
      → ((i : QueueItem) → (f i).id ≡ i.id)
      → AllValues IsQueue (Map.modify (scoped_name ns q) (modify_first (has_id id) f) s.queue_items)
  on_item-IsQueue q id ns f k =
      modify-AllValues IsQueue (scoped_name ns q) (modify_first (has_id id) f) s.queue_items
        (λ xs. modify_first-IsQueue (has_id id) f xs k) h.0

  drop-AllValues :
      (id : String) → AllValues IsActiveList (Map.map_values (drop_active id) s.workers)
  drop-AllValues id =
      map_values-AllValues IsActiveList (drop_active id) s.workers (drop_active-IsActiveList id) h.1

  job_advanced-HasUniqueIds :
      (id step : String) → HasUniqueIds (apply_event t (Event.job_advanced id step) s)
  unfolding apply_event
  job_advanced-HasUniqueIds id step = ground (arith, drop-AllValues id)

pub apply_event-HasUniqueIds :
    (t : ℕ) (e : Event) (s : MaterializedState) → HasUniqueIds s → HasUniqueIds (apply_event t e s)
unfolding apply_event count
apply_event-HasUniqueIds t (Event.job_advanced id step) s h =
    job_advanced-HasUniqueIds t s h id step
apply_event-HasUniqueIds t (Event.runbook_loaded hash v r) s h = ground arith
apply_event-HasUniqueIds t (Event.agent_signal a k m) s h = ground arith
apply_event-HasUniqueIds t (Event.worker_started w root hash q c ns) s h = (
  h.0,
  insert-AllValues IsActiveList (scoped_name ns w) _ s.workers
      (active_ids_unique (scoped_name ns w) s.workers h.1) h.1,
)
apply_event-HasUniqueIds t (Event.worker_item_dispatched w item id ns) s h = (
  h.0,
  modify-AllValues IsActiveList (scoped_name ns w) (dispatch id) s.workers
      (dispatch-IsActiveList id) h.1,
)
apply_event-HasUniqueIds t (Event.worker_stopped w ns) s h =
    (h.0, modify-AllValues IsActiveList (scoped_name ns w) _ s.workers (λ r k. k) h.1)
apply_event-HasUniqueIds t (Event.worker_resized w c ns) s h =
    (h.0, modify-AllValues IsActiveList (scoped_name ns w) _ s.workers (λ r k. k) h.1)
apply_event-HasUniqueIds t (Event.worker_deleted w ns) s h =
    (h.0, remove-AllValues IsActiveList (scoped_name ns w) s.workers h.1)
apply_event-HasUniqueIds t (Event.queue_pushed q id fields at ns) s h = (
  modify-AllValues IsQueue (scoped_name ns q) _ _ (push_item-IsQueue (new_item q id fields at))
      (or_insert-AllValues IsQueue (scoped_name ns q) [] s.queue_items (λ i. omega arith) h.0),
  h.1,
)
apply_event-HasUniqueIds t (Event.queue_taken q id w ns) s h =
    (on_item-IsQueue t s h q id ns (take w) (λ i. unfold take in refl), h.1)
apply_event-HasUniqueIds t (Event.queue_completed q id ns) s h =
    (on_item-IsQueue t s h q id ns complete (λ i. unfold complete in refl), h.1)
apply_event-HasUniqueIds t (Event.queue_failed q id error ns) s h =
    (on_item-IsQueue t s h q id ns fail (λ i. unfold fail in refl), h.1)
apply_event-HasUniqueIds t (Event.queue_item_retry q id ns) s h =
    (on_item-IsQueue t s h q id ns retry (λ i. unfold retry in refl), h.1)
apply_event-HasUniqueIds t (Event.queue_item_dead q id ns) s h =
    (on_item-IsQueue t s h q id ns bury (λ i. unfold bury in refl), h.1)
apply_event-HasUniqueIds t (Event.queue_dropped q id ns) s h = (
  modify-AllValues IsQueue (scoped_name ns q) _ s.queue_items
      (λ xs k i. omega (arith, k i, count-retain-le (has_id i) (λ j. not (has_id id j)) xs)) h.0,
  h.1,
)
apply_event-HasUniqueIds t _ s h = h

-- Replaying a log never puts an item id twice into one queue, nor a job id twice into one worker's
-- list of active jobs, if none was there twice at the start.
pub replay-HasUniqueIds :
    (es : List (ℕ × Event)) (s : MaterializedState) → HasUniqueIds s → HasUniqueIds (replay es s)
replay-HasUniqueIds es s = replay_keeps HasUniqueIds apply_event-HasUniqueIds es s
