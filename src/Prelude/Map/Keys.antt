-- ===== src/Prelude/Map/Keys.antt =====
-- Updates of a map keep its keys apart, and a map is rebuilt from its entries.
use Prim.Native.String.{String}
use text.Mathlib.Text.{◌==◌}
use text.Mathlib.TextEquality.{eq_iff}
use mathlib.Core.Path.{◌≡◌, refl, ◌∙◌, ap}
use mathlib.Core.Bool.{false}
use mathlib.Core.List.{[], ◌∷◌}
use native.Mathlib.Omega.{arith}
use oddjobs.Prelude.Lists.{push}
use oddjobs.Prelude.Map.{Map, contains_key, insert, insert_all, remove, HasUniqueKeys}

module _ {ℓ} {V : Type ℓ} where
  contains_key-insert_other :
      (j i : String) (t : V) (m : Map V)
      → (j == i) ≡ false
      → contains_key j (insert i t m) ≡ contains_key j m
  unfolding contains_key insert
  contains_key-insert_other j i t [] h = ground (arith, eq_iff i j, eq_iff j i)
  contains_key-insert_other j i t ((k, u) ∷ m) h =
      ground (arith, contains_key-insert_other j i t m, eq_iff i j, eq_iff j i, eq_iff k i)

  pub insert-HasUniqueKeys :
      (i : String) (t : V) (m : Map V) → HasUniqueKeys m → HasUniqueKeys (insert i t m)
  unfolding insert
  insert-HasUniqueKeys i t [] h = (unfold contains_key in refl, tt)
  insert-HasUniqueKeys i t ((j, u) ∷ m) h =
      ground
        (arith, insert-HasUniqueKeys i t m h.1, contains_key-insert_other j i t m, h.0, eq_iff j i)

  contains_key-remove :
      (j i : String) (m : Map V) → contains_key j m ≡ false → contains_key j (remove i m) ≡ false
  unfolding contains_key remove
  contains_key-remove j i [] h = refl
  contains_key-remove j i ((k, u) ∷ m) h = ground (arith, contains_key-remove j i m)

  pub remove-HasUniqueKeys : (i : String) (m : Map V) → HasUniqueKeys m → HasUniqueKeys (remove i m)
  unfolding remove
  remove-HasUniqueKeys i [] h = tt
  remove-HasUniqueKeys i ((j, u) ∷ m) h =
      ground (arith, remove-HasUniqueKeys i m h.1, contains_key-remove j i m h.0, h.0)

  pub insert_all-HasUniqueKeys :
      (new m : Map V) → HasUniqueKeys m → HasUniqueKeys (insert_all new m)
  unfolding insert_all
  insert_all-HasUniqueKeys [] m h = h
  insert_all-HasUniqueKeys ((k, v) ∷ new) m h =
      insert_all-HasUniqueKeys new (insert k v m) (insert-HasUniqueKeys k v m h)

  -- No key of the first map is one of the second.
  abbrev IsFresh : Map V → Map V → Type 0
  IsFresh [] m = Unit
  IsFresh ((k, v) ∷ new) m = (contains_key k m ≡ false) × IsFresh new m

  contains_key-push :
      (j k : String) (v : V) (m : Map V)
      → contains_key j m ≡ false
      → (k == j) ≡ false
      → contains_key j (push m (k, v)) ≡ false
  unfolding contains_key push
  contains_key-push j k v [] h n = ground arith
  contains_key-push j k v ((i, w) ∷ m) h n = ground (arith, contains_key-push j k v m)

  IsFresh-push :
      (k : String) (v : V) (new m : Map V)
      → contains_key k new ≡ false
      → IsFresh new m
      → IsFresh new (push m (k, v))
  unfolding contains_key
  IsFresh-push k v [] m c h = tt
  IsFresh-push k v ((j, w) ∷ new) m c h = (
    contains_key-push j k v m h.0 (ground (arith, eq_iff k j, eq_iff j k)),
    IsFresh-push k v new m (ground arith) h.1,
  )

  insert-push :
      (k : String) (v : V) (m : Map V) → contains_key k m ≡ false → insert k v m ≡ push m (k, v)
  unfolding contains_key insert push
  insert-push k v [] h = refl
  insert-push k v ((j, w) ∷ m) h = ground (arith, insert-push k v m)

  push_all : Map V → Map V → Map V
  push_all m [] = m
  push_all m (e ∷ new) = push_all (push m e) new

  push_all-cons : (e : String × V) (m new : Map V) → push_all (e ∷ m) new ≡ e ∷ push_all m new
  unfolding push_all push
  push_all-cons e m [] = refl
  push_all-cons e m (f ∷ new) = push_all-cons e (push m f) new

  push_all-nil : (new : Map V) → push_all [] new ≡ new
  unfolding push_all push
  push_all-nil [] = refl
  push_all-nil (e ∷ new) = push_all-cons e [] new ∙ ap (λ l. e ∷ l) (push_all-nil new)

  insert_all-push_all :
      (new m : Map V) → HasUniqueKeys new → IsFresh new m → insert_all new m ≡ push_all m new
  unfolding insert_all push_all
  insert_all-push_all [] m u h = refl
  insert_all-push_all ((k, v) ∷ new) m u h =
      ap (insert_all new) (insert-push k v m h.0)
      ∙ insert_all-push_all new (push m (k, v)) u.1 (IsFresh-push k v new m u.0 h.1)

  IsFresh-nil : (new : Map V) → IsFresh new []
  unfolding contains_key
  IsFresh-nil [] = tt
  IsFresh-nil ((k, v) ∷ new) = (refl, IsFresh-nil new)

  -- Collecting the entries of a map gives the map.
  pub insert_all-nil : (m : Map V) → HasUniqueKeys m → insert_all m [] ≡ m
  insert_all-nil m u = insert_all-push_all m [] u (IsFresh-nil m) ∙ push_all-nil m
