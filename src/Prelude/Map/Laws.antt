-- ===== src/Prelude/Map/Laws.antt =====
-- What the operations on a map satisfy: lookups after updates, and updates made twice.
use Prim.Native.String.{String}
use text.Mathlib.Text.{◌==◌}
use text.Mathlib.TextEquality.{eq_iff}
use text.Mathlib.TextPositions.{eq_refl}
use mathlib.Core.Path.{◌≡◌, refl, ◌∙◌, subst}
use mathlib.Core.Logic.{inl, inr}
use mathlib.Core.Bool.{Bool, true, false}
use mathlib.Core.Option
use mathlib.Core.Option.{Option, none, some}
use mathlib.Core.List.{[], ◌∷◌}
use native.Mathlib.Omega.{arith}
use oddjobs.Prelude.Tests.{if◌then◌else◌, Bool-cases}
use oddjobs.Prelude.Map.{
  Map, get, contains_key, insert, or_insert, remove, modify, map_values, retain, any_value,
  modify_first, AllValues,
}

module _ {ℓ} {V : Type ℓ} where
  pub get-insert :
      (k i : String) (v : V) (m : Map V)
      → get i (insert k v m) ≡ (if k == i then some v else get i m)
  unfolding get insert
  get-insert k i v [] = refl
  get-insert k i v ((j, w) ∷ m) =
      ground (arith, eq_iff k i, eq_iff j k, eq_iff j i, get-insert k i v m)

  pub get-modify :
      (k i : String) (f : V → V) (m : Map V)
      → get i (modify k f m) ≡ (if k == i then Option.map f (get i m) else get i m)
  unfolding get modify
  get-modify k i f [] = ground arith
  get-modify k i f ((j, w) ∷ m) =
      ground (arith, eq_iff k i, eq_iff j k, eq_iff j i, get-modify k i f m)

  pub get-remove :
      (k i : String) (m : Map V) → get i (remove k m) ≡ (if k == i then none else get i m)
  unfolding get remove
  get-remove k i [] = ground arith
  get-remove k i ((j, w) ∷ m) = ground (arith, eq_iff k i, eq_iff j k, eq_iff j i, get-remove k i m)

  pub contains_key-insert : (k : String) (v : V) (m : Map V) → contains_key k (insert k v m) ≡ true
  unfolding contains_key insert
  contains_key-insert k v [] = ground (arith, eq_refl k)
  contains_key-insert k v ((j, w) ∷ m) = ground (arith, contains_key-insert k v m)

  pub insert_absorb : (k : String) (v w : V) (m : Map V) → insert k w (insert k v m) ≡ insert k w m
  unfolding insert
  insert_absorb k v w [] = ground (arith, eq_refl k)
  insert_absorb k v w ((j, u) ∷ m) = ground (arith, insert_absorb k v w m)

  pub or_insert_absorb :
      (k : String) (v w : V) (m : Map V) → or_insert k w (or_insert k v m) ≡ or_insert k v m
  unfolding or_insert
  or_insert_absorb k v w [] = ground (arith, eq_refl k)
  or_insert_absorb k v w ((j, u) ∷ m) = ground (arith, or_insert_absorb k v w m)

  pub remove_idem : (k : String) (m : Map V) → remove k (remove k m) ≡ remove k m
  unfolding remove
  remove_idem k [] = refl
  remove_idem k ((j, v) ∷ m) = ground (arith, remove_idem k m)

  pub modify_absorb :
      (k : String) (f g : V → V) (m : Map V)
      → ((v : V) → g (f v) ≡ f v)
      → modify k g (modify k f m) ≡ modify k f m
  unfolding modify
  modify_absorb k f g [] h = refl
  modify_absorb k f g ((j, v) ∷ m) h = ground (arith, h v, modify_absorb k f g m h)

  pub map_values_absorb :
      (f g : V → V) (m : Map V)
      → ((v : V) → g (f v) ≡ f v)
      → map_values g (map_values f m) ≡ map_values f m
  unfolding map_values
  map_values_absorb f g [] h = refl
  map_values_absorb f g ((j, v) ∷ m) h = ground (arith, h v, map_values_absorb f g m h)

  pub retain_idem : (p : V → Bool) (m : Map V) → retain p (retain p m) ≡ retain p m
  unfolding retain
  retain_idem p [] = refl
  retain_idem p ((j, v) ∷ m) = ground (arith, retain_idem p m)

  pub modify_first_absorb :
      (p : V → Bool) (f g : V → V) (m : Map V)
      → ((v : V) → g (f v) ≡ f v)
      → ((v : V) → p (f v) ≡ p v)
      → modify_first p g (modify_first p f m) ≡ modify_first p f m
  unfolding modify_first
  modify_first_absorb p f g [] h k = refl
  modify_first_absorb p f g ((j, v) ∷ m) h k =
      ground (arith, h v, k v, modify_first_absorb p f g m h k)

  pub any_value-modify_first :
      (p : V → Bool) (f : V → V) (m : Map V)
      → ((v : V) → p (f v) ≡ p v)
      → any_value p (modify_first p f m) ≡ any_value p m
  unfolding any_value modify_first
  any_value-modify_first p f [] k = refl
  any_value-modify_first p f ((j, v) ∷ m) k = ground (arith, k v, any_value-modify_first p f m k)

  pub modify_missing : (k : String) (f : V → V) (m : Map V) → get k m ≡ none → modify k f m ≡ m
  unfolding get modify
  modify_missing k f [] h = refl
  modify_missing k f ((j, v) ∷ m) h = ground (arith, modify_missing k f m)

  pub get-modify_self :
      (k : String) (f : V → V) (m : Map V) → get k (modify k f m) ≡ Option.map f (get k m)
  get-modify_self k f m = get-modify k k f m ∙ (rw (eq_refl k))

  pub get-map_values :
      (k : String) (f : V → V) (m : Map V) → get k (map_values f m) ≡ Option.map f (get k m)
  unfolding get map_values
  get-map_values k f [] = refl
  get-map_values k f ((j, v) ∷ m) = ground (arith, get-map_values k f m)

  pub get_missing : (k : String) (m : Map V) → contains_key k m ≡ false → get k m ≡ none
  unfolding get contains_key
  get_missing k [] h = refl
  get_missing k ((j, v) ∷ m) h = ground (arith, get_missing k m)

module _ {ℓ κ} {V : Type ℓ} (P : V → Type κ) where
  pub insert-AllValues :
      (k : String) (v : V) (m : Map V) → P v → AllValues P m → AllValues P (insert k v m)
  unfolding insert
  insert-AllValues k v [] h a = (h, tt)
  insert-AllValues k v ((j, w) ∷ m) h a = ground (arith, insert-AllValues k v m h a.1)

  pub or_insert-AllValues :
      (k : String) (v : V) (m : Map V) → P v → AllValues P m → AllValues P (or_insert k v m)
  unfolding or_insert
  or_insert-AllValues k v [] h a = (h, tt)
  or_insert-AllValues k v ((j, w) ∷ m) h a = ground (arith, or_insert-AllValues k v m h a.1)

  pub remove-AllValues : (k : String) (m : Map V) → AllValues P m → AllValues P (remove k m)
  unfolding remove
  remove-AllValues k [] a = tt
  remove-AllValues k ((j, w) ∷ m) a = ground (arith, remove-AllValues k m a.1)

  pub retain-AllValues : (p : V → Bool) (m : Map V) → AllValues P m → AllValues P (retain p m)
  unfolding retain
  retain-AllValues p [] a = tt
  retain-AllValues p ((j, w) ∷ m) a = ground (arith, retain-AllValues p m a.1)

  pub modify-AllValues :
      (k : String) (f : V → V) (m : Map V)
      → ((v : V) → P v → P (f v))
      → AllValues P m
      → AllValues P (modify k f m)
  unfolding modify
  modify-AllValues k f [] h a = tt
  modify-AllValues k f ((j, w) ∷ m) h a = ground (arith, h w a.0, modify-AllValues k f m h a.1)

  pub map_values-AllValues :
      (f : V → V) (m : Map V)
      → ((v : V) → P v → P (f v))
      → AllValues P m
      → AllValues P (map_values f m)
  unfolding map_values
  map_values-AllValues f [] h a = tt
  map_values-AllValues f ((j, w) ∷ m) h a = (h w a.0, map_values-AllValues f m h a.1)

  pub modify_first-AllValues :
      (p : V → Bool) (f : V → V) (m : Map V)
      → ((v : V) → P v → P (f v))
      → AllValues P m
      → AllValues P (modify_first p f m)
  unfolding modify_first
  modify_first-AllValues p f [] h a = tt
  modify_first-AllValues p f ((j, w) ∷ m) h a =
      ground (arith, h w a.0, modify_first-AllValues p f m h a.1)

  pub get-AllValues : (k : String) (v : V) (m : Map V) → AllValues P m → get k m ≡ some v → P v
  unfolding get
  get-AllValues k v [] a h = ground arith
  get-AllValues k v ((j, w) ∷ m) a h = elim (Bool-cases (j == k)) [
    | inl e ↦ subst P (Option.some-injective w v (rw e at h)) a.0
    | inr e ↦ get-AllValues k v m a.1 (rw e at h)
  ]
