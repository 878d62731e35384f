-- ===== src/Daemon/Queues/Retry.antt =====
-- crates/daemon/src/listener/queues.rs, `handle_queue_retry`: which items are retried.
use oddjobs.Prelude.{
  ◌+◌, String, Option, none, some, List, [], ◌∷◌, Bool, true, false, not, ◌&&◌, ◌||◌, ◌≡◌, refl,
  sym, ap, ◌∙◌, arith, inl, inr, Option-cases, is_some, eqb, length, push, All, if_intro, if_cases,
}
use mathlib.Core.Path.{subst}
use oddjobs.Core.Event.{Event}
use oddjobs.Storage.State.{MaterializedState, QueueItem}
use oddjobs.Engine.Retry.{find_in}
use oddjobs.Engine.Worker.{QueueType}
use oddjobs.Daemon.Queues.{
  LoadedQueue, Answer, refuse, not_persisted, items_of, Resolved, resolve_queue_item_id,
  with_persisted, is_dead, is_failed,
}
use oddjobs.Daemon.Queues.Resolving.{resolve-found}
use oddjobs.Daemon.Queues.Retrying.{
  retry_event, retry_found, retry_single, Bulk, sort_found, sort_item, retry_loop, empty_bulk,
  answer_bulk, retry_ids, is_filtering, filtered_ids, handle_queue_retry,
}

abbrev pub is_retryable : Option QueueItem → Bool
is_retryable none = false
is_retryable (some i) = is_dead i.status || is_failed i.status

module _ (namespace queue_name : String) (items : List QueueItem) where
  -- An event that retries an item of the queue which is dead or failed.
  abbrev pub IsRetry : Event → Type 0
  IsRetry e =
      (id : String) × (e ≡ retry_event namespace queue_name id)
      × (is_retryable (find_in id items) ≡ true)

  -- Only such events are emitted, and the workers are woken just when there are any.
  abbrev pub OnlyRetries : Answer → Type 0
  OnlyRetries a = All IsRetry a.emitted × (a.wakes ≡ not (eqb (length a.emitted) 0))

  push-All : (es : List Event) (e : Event) → All IsRetry es → IsRetry e → All IsRetry (push es e)
  unfolding push
  push-All [] e h k = (k, tt)
  push-All (x ∷ es) e (h, hs) k = (h, push-All es e hs k)

  length-push : {A : Type 0} (xs : List A) (a : A) → length (push xs a) ≡ length xs + 1
  unfolding push
  length-push [] a = refl
  length-push (x ∷ xs) a = ground (arith, length-push xs a)

  abbrev AreSorted : Bulk → Type 0
  AreSorted b = All IsRetry b.emitted × (length b.retried ≡ length b.emitted)

  sort_found-AreSorted :
      (item_id id : String) (b : Bulk)
      → AreSorted b
      → AreSorted (sort_found namespace queue_name item_id id (find_in id items) b)
  unfolding sort_found
  sort_found-AreSorted item_id id b h =
      let P =
        λ (o : Option QueueItem). AreSorted (sort_found namespace queue_name item_id id o b) in
      elim (Option-cases (find_in id items)) [
        | inl e ↦ subst P (sym e) h
        | inr (i, e) ↦ subst P (sym e) (
            if_cases AreSorted (is_dead i.status || is_failed i.status)
              (record b {
                retried = push b.retried id;
                emitted = push b.emitted (retry_event namespace queue_name id);
              })
              (record b { already_retried = push b.already_retried id })
              (λ f. (
                push-All b.emitted (retry_event namespace queue_name id) h.0
                    (id, refl, ap is_retryable e ∙ f),
                ground (
                  arith,
                  h.1,
                  length-push b.retried id,
                  length-push b.emitted (retry_event namespace queue_name id),
                ),
              ))
              (λ f. h))
      ]

  sort_item-AreSorted :
      (item_id : String) (r : Resolved) (b : Bulk)
      → AreSorted b
      → AreSorted (sort_item namespace queue_name items item_id r b)
  unfolding sort_item
  sort_item-AreSorted item_id (Resolved.err r) b h = h
  sort_item-AreSorted item_id (Resolved.ok id) b h = sort_found-AreSorted item_id id b h

  retry_loop-AreSorted :
      (ids : List String) (b : Bulk)
      → AreSorted b
      → AreSorted (retry_loop namespace queue_name items ids b)
  unfolding retry_loop
  retry_loop-AreSorted [] b h = h
  retry_loop-AreSorted (item_id ∷ ids) b h =
      let r = resolve_queue_item_id queue_name item_id items in
      retry_loop-AreSorted ids (sort_item namespace queue_name items item_id r b)
        (sort_item-AreSorted item_id r b h)

  bulk-OnlyRetries :
      (ids : List String)
      → OnlyRetries (answer_bulk queue_name (retry_loop namespace queue_name items ids empty_bulk))
  unfolding answer_bulk empty_bulk
  bulk-OnlyRetries ids =
      let (h, k) = retry_loop-AreSorted ids empty_bulk (tt, refl) in (h, ap (λ n. not (eqb n 0)) k)

  retry_found-OnlyRetries :
      (id : String)
      → is_some (find_in id items) ≡ true
      → OnlyRetries (retry_found namespace queue_name id (find_in id items))
  unfolding retry_found refuse
  retry_found-OnlyRetries id h = elim (Option-cases (find_in id items)) [
    | inl e ↦ ground (arith, h, e)
    | inr (i, e) ↦
        subst (λ o. OnlyRetries (retry_found namespace queue_name id o)) (sym e)
          (if_cases OnlyRetries (not (is_dead i.status) && not (is_failed i.status)) _ _
            (λ f. (tt, refl))
            (λ f. (((id, refl, ap is_retryable e ∙ ground (arith, f)), tt), refl)))
  ]

module _ (namespace queue_name : String) (items : List QueueItem) where
  single-OnlyRetries :
      (r : Resolved)
      → ((id : String) → r ≡ Resolved.ok id → is_some (find_in id items) ≡ true)
      → OnlyRetries namespace queue_name items (retry_single namespace queue_name items r)
  unfolding retry_single refuse
  single-OnlyRetries (Resolved.err r) h = (tt, refl)
  single-OnlyRetries (Resolved.ok id) h =
      retry_found-OnlyRetries namespace queue_name items id (h id refl)

  ids-OnlyRetries :
      (ids : List String)
      → OnlyRetries namespace queue_name items (retry_ids namespace queue_name items ids)
  unfolding retry_ids
  ids-OnlyRetries [] = bulk-OnlyRetries namespace queue_name items []
  ids-OnlyRetries (item_id ∷ []) =
      single-OnlyRetries (resolve_queue_item_id queue_name item_id items)
        (λ id. resolve-found queue_name item_id id items)
  ids-OnlyRetries (i ∷ j ∷ ids) = bulk-OnlyRetries namespace queue_name items (i ∷ j ∷ ids)

  persisted-OnlyRetries :
      (loaded : LoadedQueue) (a : Answer)
      → OnlyRetries namespace queue_name items a
      → OnlyRetries namespace queue_name items (with_persisted queue_name loaded a)
  unfolding with_persisted refuse not_persisted
  persisted-OnlyRetries (LoadedQueue.failed r) a h = (tt, refl)
  persisted-OnlyRetries LoadedQueue.unknown a h = (tt, refl)
  persisted-OnlyRetries (LoadedQueue.found QueueType.external) a h = (tt, refl)
  persisted-OnlyRetries (LoadedQueue.found QueueType.persisted) a h = h

-- Whatever a request to retry asks for, by ids, prefixes of ids or filters, only items of the queue
-- that are dead or failed are retried, and the queue's workers are woken just when one is.
pub handle_queue_retry-OnlyRetries :
    (loaded : LoadedQueue) (namespace queue_name : String) (item_ids : List String)
    (all_dead : Bool) (status_filter : Option String) (s : MaterializedState)
    → OnlyRetries namespace queue_name
        (items_of namespace queue_name s)
        (handle_queue_retry loaded namespace queue_name item_ids all_dead status_filter s)
unfolding handle_queue_retry
handle_queue_retry-OnlyRetries loaded namespace queue_name item_ids all_dead status_filter s =
    let items = items_of namespace queue_name s in
    let ids = filtered_ids all_dead status_filter items in
    persisted-OnlyRetries namespace queue_name items loaded _ (
      if_intro (OnlyRetries namespace queue_name items) (is_filtering all_dead status_filter)
        (answer_bulk queue_name (retry_loop namespace queue_name items ids empty_bulk))
        (retry_ids namespace queue_name items item_ids)
        (bulk-OnlyRetries namespace queue_name items ids)
        (ids-OnlyRetries namespace queue_name items item_ids))
