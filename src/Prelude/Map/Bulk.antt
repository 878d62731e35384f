-- ===== src/Prelude/Map/Bulk.antt =====
-- Inserting many entries, twice.
use Prim.Native.String.{String}
use text.Mathlib.Text.{◌==◌}
use text.Mathlib.TextEquality.{eq_iff}
use text.Mathlib.TextPositions.{eq_refl}
use mathlib.Core.Path.{◌≡◌, refl, ap}
use mathlib.Core.Logic.{inl, inr}
use mathlib.Core.Bool.{true, false, ◌||◌}
use mathlib.Core.Option.{some}
use mathlib.Core.List.{[], ◌∷◌}
use native.Mathlib.Omega.{arith}
use oddjobs.Prelude.Tests.{if◌then◌else◌, Bool-cases}
use oddjobs.Prelude.Map.{Map, get, contains_key, insert, insert_all}
use oddjobs.Prelude.Map.Laws.{get-insert, insert_absorb}

module _ {ℓ} {V : Type ℓ} where
  contains_key_of_insert :
      (k j : String) (v : V) (m : Map V)
      → contains_key j (insert k v m) ≡ (k == j || contains_key j m)
  unfolding contains_key insert
  contains_key_of_insert k j v [] = refl
  contains_key_of_insert k j v ((i, w) ∷ m) =
      ground (arith, eq_iff k j, eq_iff i k, eq_iff i j, contains_key_of_insert k j v m)

  insert_self : (k : String) (v : V) (m : Map V) → get k m ≡ some v → insert k v m ≡ m
  unfolding get insert
  insert_self k v [] h = cc
  insert_self k v ((i, w) ∷ m) h = ground (arith, insert_self k v m)

  -- A key that is there keeps its place.
  insert_swap :
      (j k : String) (w v : V) (m : Map V)
      → (j == k) ≡ false
      → contains_key k m ≡ true
      → insert j w (insert k v m) ≡ insert k v (insert j w m)
  unfolding insert contains_key
  insert_swap j k w v [] n h = cc
  insert_swap j k w v ((i, u) ∷ m) n h =
      ground (arith, eq_iff j k, eq_iff i k, eq_iff i j, insert_swap j k w v m n)

  insert_all-insert :
      (new : Map V) (k : String) (v : V) (m : Map V)
      → contains_key k m ≡ true
      → insert_all new (insert k v m)
        ≡ (if contains_key k new then insert_all new m else insert k v (insert_all new m))
  unfolding insert_all contains_key
  insert_all-insert [] k v m h = refl
  insert_all-insert ((j, w) ∷ new) k v m h = elim (Bool-cases (j == k)) [
    | inl e ↦ rw e (ap (insert_all new) (ground (arith, eq_iff j k, insert_absorb j v w m)))
    | inr n ↦
        rw (n, insert_swap j k w v m n h)
          (insert_all-insert new k v (insert j w m) (rw (contains_key_of_insert j k w m, n) h))
  ]

  contains_key-insert_all :
      (new : Map V) (k : String) (m : Map V)
      → contains_key k m ≡ true
      → contains_key k (insert_all new m) ≡ true
  unfolding insert_all
  contains_key-insert_all [] k m h = h
  contains_key-insert_all ((j, w) ∷ new) k m h =
      contains_key-insert_all new k (insert j w m) (ground (arith, contains_key_of_insert j k w m))

  get-insert_all_missing :
      (new : Map V) (k : String) (m : Map V)
      → contains_key k new ≡ false
      → get k (insert_all new m) ≡ get k m
  unfolding insert_all contains_key
  get-insert_all_missing [] k m h = refl
  get-insert_all_missing ((j, w) ∷ new) k m h =
      ground (arith, get-insert_all_missing new k (insert j w m), get-insert j k w m)

  pub insert_all_idem : (new m : Map V) → insert_all new (insert_all new m) ≡ insert_all new m
  unfolding insert_all
  insert_all_idem [] m = refl
  insert_all_idem ((k, v) ∷ new) m =
      let m' = insert k v m in
      ground (
        arith,
        insert_all-insert new k v (insert_all new m'),
        insert_all_idem new m',
        contains_key-insert_all new k m',
        contains_key_of_insert k k v m,
        eq_refl k,
        get-insert_all_missing new k m',
        get-insert k k v m,
        insert_self k v (insert_all new m'),
      )
