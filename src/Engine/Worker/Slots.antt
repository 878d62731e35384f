-- ===== src/Engine/Worker/Slots.antt =====
-- crates/engine/src/runtime/handlers/worker: a worker's jobs and take commands within its concurrency.
use oddjobs.Prelude.{
  some, none, ℕ, zero, suc, ◌+◌, ◌-◌, ◌^◌, ◌≤◌, ◌<◌, String, Option, List, [], ◌∷◌, Bool, true,
  false, ◌≡◌, ◌∙◌, refl, arith, inl, inr, Bool-cases, if◌then◌else◌, ◌||◌, not, ◌==◌, length, push,
  retain, eqb, if_intro,
}
use oddjobs.Prelude.Map
use oddjobs.Core.Event.{Event}
use oddjobs.Storage.Apply.{apply_event}
use oddjobs.Storage.State.{MaterializedState}
use oddjobs.Engine.Worker.{
  QueueType, WorkerStatus, WorkerState, is_stopped, contains, insert_member, remove_member,
  active_slots, reserve, track, Outcome, unchanged, item_id_of, take_external, dispatched,
  dispatch_queue_item, still_pending, take_item, take_persisted, take_from,
  handle_worker_poll_complete, handle_worker_take_complete, forget_item, release_job,
}

-- The jobs and the take commands together are no more than the worker may have.
abbrev pub HasRoom : WorkerState → Type 0
HasRoom w = (length w.active_jobs + w.pending_takes ≤ w.concurrency) × (w.concurrency < 2 ^ 32)

module _ {ℓ} {A : Type ℓ} where
  length-push : (xs : List A) (a : A) → length (push xs a) ≡ length xs + 1
  unfolding push
  length-push [] a = refl
  length-push (x ∷ xs) a = ground (arith, length-push xs a)

  length-retain : (p : A → Bool) (xs : List A) → length (retain p xs) ≤ length xs
  unfolding retain
  length-retain p [] = omega arith
  length-retain p (x ∷ xs) = ground (arith, length-retain p xs)

length-insert_member : (x : String) (xs : List String) → length (insert_member x xs) ≤ length xs + 1
unfolding insert_member
length-insert_member x xs = ground (arith, length-push xs x)

active_slots-sum :
    (w : WorkerState) → HasRoom w → active_slots w ≡ length w.active_jobs + w.pending_takes
unfolding active_slots
active_slots-sum w (h, k) = ground (arith, h, k)

-- A handler that fires no take command and starts at most `n` jobs.
abbrev Grows : ℕ → WorkerState → Outcome → Type 0
Grows n w o =
    (o.worker.concurrency ≡ w.concurrency)
    × (o.worker.pending_takes ≡ w.pending_takes)
    × (length o.worker.active_jobs ≤ length w.active_jobs + n)
    × (o.takes ≡ [])

-- A handler that keeps to the slots, and counts the take commands that it fires.
abbrev pub Fits : WorkerState → Outcome → Type 0
Fits w o = HasRoom o.worker × (o.worker.pending_takes ≡ w.pending_takes + length o.takes)

module _ (json_id : String → Option String)
    (create : String → MaterializedState → Option String × MaterializedState) where
  take_external-pending :
      (n : ℕ) (items : List String) (w : WorkerState)
      → w.pending_takes + n < 2 ^ 32
      → ((take_external json_id create n items w).0.active_jobs ≡ w.active_jobs)
        × ((take_external json_id create n items w).0.concurrency ≡ w.concurrency)
        × ((take_external json_id create n items w).0.pending_takes
            ≡ w.pending_takes + length (take_external json_id create n items w).1)
        × (length (take_external json_id create n items w).1 ≤ n)
  unfolding take_external reserve
  take_external-pending n [] w h = (refl, refl, omega arith, omega arith)
  take_external-pending zero (item ∷ items) w h = (refl, refl, omega arith, omega arith)
  take_external-pending (suc n) (item ∷ items) w h =
      let id = item_id_of json_id create item in
      elim (Bool-cases (contains id w.inflight_items)) [
        | inl e ↦ rw e (take_external-pending (suc n) items w h)
        | inr e ↦
            let (a, b, c, d) = take_external-pending n items (reserve id w) (ground (arith, h)) in
            rw e (a, b, ground (arith, c, h), omega (arith, d))
      ]

  dispatched-Grows :
      (now : ℕ) (name id : String) (w : WorkerState) (p : Option String × MaterializedState)
      → Grows 1 w (dispatched json_id create now name id w p)
  unfolding dispatched track
  dispatched-Grows now name id w (none, t) = (refl, refl, omega arith, refl)
  dispatched-Grows now name id w (some job, t) =
      (refl, refl, length-insert_member job w.active_jobs, refl)

  dispatch_queue_item-Grows :
      (now : ℕ) (name item : String) (w : WorkerState) (s : MaterializedState)
      → Grows 1 w (dispatch_queue_item json_id create now name item w s)
  unfolding dispatch_queue_item unchanged
  dispatch_queue_item-Grows now name item w s = elim (Bool-cases (is_stopped w.status)) [
    | inl e ↦ rw e (refl, refl, omega arith, refl)
    | inr e ↦ rw e (dispatched-Grows now name _ w (create item s))
  ]

  take_item-Grows :
      (now : ℕ) (name item : String) (w : WorkerState) (s : MaterializedState)
      → Grows 1 w (take_item json_id create now name item w s)
  unfolding take_item
  take_item-Grows now name item w s = dispatch_queue_item-Grows now name item w (
      apply_event now
        (Event.queue_taken w.queue_name (item_id_of json_id create item) name w.namespace) s)

  take_persisted-Grows :
      (now : ℕ) (name : String) (n : ℕ) (items : List String) (w : WorkerState)
      (s : MaterializedState)
      → Grows n w (take_persisted json_id create now name n items w s)
  unfolding take_persisted unchanged
  take_persisted-Grows now name n [] w s = (refl, refl, omega arith, refl)
  take_persisted-Grows now name zero (item ∷ items) w s = (refl, refl, omega arith, refl)
  take_persisted-Grows now name (suc n) (item ∷ items) w s =
      let o = take_item json_id create now name item w s in
      let (a, b, c, g) = take_item-Grows now name item w s in
      let (d, e, f, k) = take_persisted-Grows now name n items o.worker o.state in
      let P = λ (r : Outcome). Grows (suc n) w r in
      if_intro P (still_pending json_id create (item_id_of json_id create item) w s)
        (if o.is_ok then take_persisted json_id create now name n items o.worker o.state else o)
        (take_persisted json_id create now name (suc n) items w s)
        (if_intro P o.is_ok (take_persisted json_id create now name n items o.worker o.state) o
          (d ∙ a, e ∙ b, omega (arith, c, f), k) (a, b, omega (arith, c), g))
        (take_persisted-Grows now name (suc n) items w s)

  take_from-Fits :
      (now : ℕ) (name : String) (q : QueueType) (n : ℕ) (items : List String) (w : WorkerState)
      (s : MaterializedState)
      → HasRoom w
      → length w.active_jobs + w.pending_takes + n ≤ w.concurrency
      → Fits w (take_from json_id create now name q n items w s)
  unfolding take_from
  take_from-Fits now name QueueType.external n items w s (h, k) r =
      let (a, b, c, d) = take_external-pending n items w (omega (arith, r, k)) in
      ((rw (a, b, c) (omega (arith, r, d)), rw b k), c)
  take_from-Fits now name QueueType.persisted n items w s (h, k) r =
      let (a, b, c, d) = take_persisted-Grows now name n items w s in
      ((omega (arith, a, b, c, r), rw a k), ground (arith, b, d))

  -- A poll keeps the worker within its concurrency, and every take command that it fires is counted.
  pub poll-Fits :
      (now : ℕ) (name : String) (found : Bool) (items : List String) (w : WorkerState)
      (s : MaterializedState)
      → HasRoom w
      → Fits w (handle_worker_poll_complete json_id create now name found items w s)
  unfolding handle_worker_poll_complete unchanged
  poll-Fits now name found items w s (h, k) =
      let P = Fits w in
      let awake : WorkerState = record w { status = WorkerStatus.running } in
      let available = w.concurrency - active_slots w in
      let taken = take_from json_id create now name w.queue_type available items awake s in
      let here : WorkerState → Outcome =
        λ v. record { worker = v; state = s; takes = []; is_ok = true } in
      let lost : Outcome = record { worker = w; state = s; takes = []; is_ok = false } in
      let same : Fits w (here w) = ((h, k), omega arith) in
      if_intro P (is_stopped w.status) (here w)
        (if eqb available 0 || eqb (length items) 0
          then here awake
          else if found
          then taken
          else lost)
        same
        (if_intro P (eqb available 0 || eqb (length items) 0) (here awake)
          (if found then taken else lost) same
          (if_intro P found taken lost
            (take_from-Fits now name w.queue_type available items awake s (h, k)
              (omega (arith, h, active_slots-sum w (h, k))))
            same))

  -- A take command that ends frees its slot, and takes it again for the job it starts.
  pub take-HasRoom :
      (now : ℕ) (name id item : String) (ok : Bool) (w : WorkerState) (s : MaterializedState)
      → HasRoom w
      → 1 ≤ w.pending_takes
      → HasRoom (handle_worker_take_complete json_id create now name id item ok w s).worker
        × ((handle_worker_take_complete json_id create now name id item ok w s).worker.pending_takes
            ≡ w.pending_takes - 1)
  unfolding handle_worker_take_complete unchanged
  take-HasRoom now name id item true w s (h, k) p =
      let released : WorkerState = record w { pending_takes = w.pending_takes - 1 } in
      let (a, b, c, d) = dispatch_queue_item-Grows now name item released s in
      ((omega (arith, h, p, a, b, c), rw a k), b)
  take-HasRoom now name id item false w s (h, k) p = ((omega (arith, h), k), refl)

pub release_job-HasRoom :
    (job : String) (w : WorkerState)
    → HasRoom w
    → HasRoom (release_job job w) × ((release_job job w).pending_takes ≡ w.pending_takes)
unfolding release_job remove_member
release_job-HasRoom job w (h, k) =
    let fewer = length-retain (λ y. not (y == job)) w.active_jobs in
    if_intro (λ v. HasRoom v × (v.pending_takes ≡ w.pending_takes)) (contains job w.active_jobs)
      (record w {
        active_jobs = remove_member job w.active_jobs;
        item_job_map = Map.remove job w.item_job_map;
        inflight_items = forget_item (Map.get job w.item_job_map) w.inflight_items;
      })
      w ((omega (arith, h, fewer), k), refl) ((h, k), refl)
