-- ===== src/Daemon/Queues/Resolving.antt =====
-- crates/daemon/src/listener/queues.rs, `resolve_queue_item_id`: what it finds.
use oddjobs.Prelude.{
  String, none, some, List, [], ◌∷◌, true, ◌==◌, eq_iff, starts_with, ◌≡◌, refl, sym, ap, ◌∙◌,
  arith, inl, inr, Bool-cases, Option-cases, is_some,
}
use mathlib.Core.Path.{subst}
use oddjobs.Storage.State.{QueueItem}
use oddjobs.Storage.Apply.Queues.{has_id}
use oddjobs.Engine.Retry.{find_in}
use oddjobs.Daemon.Queues.{with_prefix, Resolved, only_match, resolve_queue_item_id}

with_prefix-found :
    (p : String) (is js : List QueueItem) (i : QueueItem)
    → with_prefix p is ≡ i ∷ js
    → is_some (find_in i.id is) ≡ true
unfolding with_prefix find_in has_id
with_prefix-found p [] js i h = ground (arith, h)
with_prefix-found p (j ∷ is) js i h = elim (Bool-cases (starts_with j.id p)) [
  | inl e ↦
      let same : j ≡ i = ground (arith, e, h) in
      let yes = (eq_iff j.id i.id).1 (ap (λ (x : QueueItem). x.id) same) in rw yes refl
  | inr e ↦ ground (arith, e, h, with_prefix-found p is js i (ground (arith, e, h)))
]

only_match-ok :
    (queue_name item_id id : String) (ws : List QueueItem)
    → only_match item_id queue_name ws ≡ Resolved.ok id
    → (i : QueueItem) × (ws ≡ i ∷ []) × (i.id ≡ id)
unfolding only_match
only_match-ok queue_name item_id id [] h = ground (arith, h)
only_match-ok queue_name item_id id (i ∷ []) h = (i, refl, ground (arith, h))
only_match-ok queue_name item_id id (i ∷ j ∷ ws) h = ground (arith, h)

find_in-id :
    (item_id : String) (is : List QueueItem) (i : QueueItem)
    → find_in item_id is ≡ some i
    → i.id ≡ item_id
unfolding find_in has_id
find_in-id item_id [] i h = ground (arith, h)
find_in-id item_id (j ∷ is) i h = elim (Bool-cases (j.id == item_id)) [
  | inl e ↦
      let same : j ≡ i = ground (arith, e, h) in
      ap (λ (x : QueueItem). x.id) (sym same) ∙ (eq_iff j.id item_id).0 e
  | inr e ↦ find_in-id item_id is i (ground (arith, e, h))
]

resolve-exact :
    (queue_name item_id id : String) (is : List QueueItem) (j : QueueItem)
    → find_in item_id is ≡ some j
    → resolve_queue_item_id queue_name item_id is ≡ Resolved.ok id
    → j.id ≡ id
unfolding resolve_queue_item_id
resolve-exact queue_name item_id id is j f h = ground (arith, f, h)

resolve-prefix :
    (queue_name item_id id : String) (is : List QueueItem)
    → find_in item_id is ≡ none
    → resolve_queue_item_id queue_name item_id is ≡ Resolved.ok id
    → only_match item_id queue_name (with_prefix item_id is) ≡ Resolved.ok id
unfolding resolve_queue_item_id
resolve-prefix queue_name item_id id is f h = ground (arith, f, h)

pub resolve-found :
    (queue_name item_id id : String) (is : List QueueItem)
    → resolve_queue_item_id queue_name item_id is ≡ Resolved.ok id
    → is_some (find_in id is) ≡ true
resolve-found queue_name item_id id is h = elim (Option-cases (find_in item_id is)) [
  | inl f ↦
      let (i, e, k) =
        only_match-ok queue_name item_id id (with_prefix item_id is)
          (resolve-prefix queue_name item_id id is f h) in
      subst (λ x. is_some (find_in x is) ≡ true) k (with_prefix-found item_id is [] i e)
  | inr (j, f) ↦
      subst (λ x. is_some (find_in x is) ≡ true)
        (sym (find_in-id item_id is j f) ∙ resolve-exact queue_name item_id id is j f h)
        (ap is_some f)
]
