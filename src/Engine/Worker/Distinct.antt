-- ===== src/Engine/Worker/Distinct.antt =====
-- crates/engine/src/runtime/handlers/worker/dispatch.rs: no item of an external queue is taken twice.
use oddjobs.Prelude.{
  ℕ, zero, suc, String, Option, List, [], ◌∷◌, false, ◌==◌, ◌≡◌, ap, eq_iff, arith, inl, inr,
  Bool-cases, All, any-push,
}
use oddjobs.Storage.State.{MaterializedState}
use oddjobs.Engine.Worker.{WorkerState, contains, insert_member, reserve, item_id_of, take_external}

-- No id stands twice.
abbrev pub AreDistinct : List (String × String) → Type 0
AreDistinct [] = Unit
AreDistinct (t ∷ ts) = All (λ (u : String × String). (t.0 == u.0) ≡ false) ts × AreDistinct ts

contains-insert_member :
    (x y : String) (xs : List String)
    → contains x (insert_member y xs) ≡ false
    → (contains x xs ≡ false) × ((y == x) ≡ false)
unfolding insert_member contains
contains-insert_member x y xs h = elim (Bool-cases (y == x)) [
  | inl e ↦
      let same = ap (λ v. contains v xs) ((eq_iff y x).0 e) in
      ground (arith, e, h, same, any-push (λ z. z == x) xs y)
  | inr e ↦ ground (arith, e, h, any-push (λ z. z == x) xs y)
]

module _ (json_id : String → Option String)
    (create : String → MaterializedState → Option String × MaterializedState) where
  abbrev pub AreFresh : WorkerState → List (String × String) → Type 0
  AreFresh w ts = All (λ (t : String × String). contains t.0 w.inflight_items ≡ false) ts

  unreserve :
      (id : String) (w : WorkerState) (ts : List (String × String))
      → AreFresh (reserve id w) ts
      → AreFresh w ts × All (λ (u : String × String). (id == u.0) ≡ false) ts
  unfolding reserve
  unreserve id w [] h = (tt, tt)
  unreserve id w (t ∷ ts) (h, hs) =
      let (a, b) = contains-insert_member t.0 id w.inflight_items h in
      let (c, d) = unreserve id w ts hs in ((a, c), (b, d))

  -- The items that a poll takes from an external queue were not in flight before, and no id is among
  -- them twice, however often the poll lists it.
  pub take_external-AreDistinct :
      (n : ℕ) (items : List String) (w : WorkerState)
      → AreFresh w (take_external json_id create n items w).1
        × AreDistinct (take_external json_id create n items w).1
  unfolding take_external
  take_external-AreDistinct n [] w = (tt, tt)
  take_external-AreDistinct zero (item ∷ items) w = (tt, tt)
  take_external-AreDistinct (suc n) (item ∷ items) w =
      let id = item_id_of json_id create item in
      elim (Bool-cases (contains id w.inflight_items)) [
        | inl e ↦ rw e (take_external-AreDistinct (suc n) items w)
        | inr e ↦
            let (a, b) = take_external-AreDistinct n items (reserve id w) in
            let (c, d) = unreserve id w (take_external json_id create n items (reserve id w)).1 a in
            rw e ((e, c), (d, b))
      ]
