-- ===== src/Prelude/Map.antt =====
-- Rust's `HashMap<String, V>` as a list of entries in the map's iteration order, which Rust leaves
-- open: a statement for every list holds for every order. A new key goes to the end.
pub mod Laws
pub mod Bulk
pub mod Keys
use Prim.Native.String.{String}
use text.Mathlib.Text.{◌==◌}
use mathlib.Core.Path.{◌≡◌}
use mathlib.Core.Bool.{Bool, false, ◌||◌}
use mathlib.Core.Option.{Option, none, some}
use mathlib.Core.List.{List, [], ◌∷◌}
use oddjobs.Prelude.Tests.{if◌then◌else◌}

abbrev pub Map {ℓ} : Type ℓ → Type ℓ
Map V = List (String × V)

module _ {ℓ} {V : Type ℓ} where
  unfoldable pub get : String → Map V → Option V
  get k [] = none
  get k ((j, v) ∷ m) = let rest = get k m in if j == k then some v else rest

  unfoldable pub contains_key : String → Map V → Bool
  contains_key k [] = false
  contains_key k ((j, v) ∷ m) = j == k || contains_key k m

  unfoldable pub insert : String → V → Map V → Map V
  insert k v [] = (k, v) ∷ []
  insert k v ((j, w) ∷ m) = let rest = insert k v m in if j == k then (j, v) ∷ m else (j, w) ∷ rest

  -- `for (k, v) in new { m.insert(k, v) }`
  unfoldable pub insert_all : Map V → Map V → Map V
  insert_all [] m = m
  insert_all ((k, v) ∷ new) m = insert_all new (insert k v m)

  -- `entry(k).or_insert(v)`
  unfoldable pub or_insert : String → V → Map V → Map V
  or_insert k v [] = (k, v) ∷ []
  or_insert k v ((j, w) ∷ m) =
      let rest = or_insert k v m in if j == k then (j, w) ∷ m else (j, w) ∷ rest

  unfoldable pub remove : String → Map V → Map V
  remove k [] = []
  remove k ((j, v) ∷ m) = let rest = remove k m in if j == k then rest else (j, v) ∷ rest

  -- `if let Some(v) = get_mut(k) { *v = f(*v) }`
  unfoldable pub modify : String → (V → V) → Map V → Map V
  modify k f [] = []
  modify k f ((j, v) ∷ m) =
      let rest = modify k f m in if j == k then (j, f v) ∷ m else (j, v) ∷ rest

  -- `for v in values_mut() { *v = f(*v) }`
  unfoldable pub map_values : (V → V) → Map V → Map V
  map_values f [] = []
  map_values f ((j, v) ∷ m) = (j, f v) ∷ map_values f m

  -- `retain(|_, v| p(v))`
  unfoldable pub retain : (V → Bool) → Map V → Map V
  retain p [] = []
  retain p ((j, v) ∷ m) = let rest = retain p m in if p v then (j, v) ∷ rest else rest

  -- `values().any(p)`, which is whether `values_mut().find(p)` finds an entry.
  unfoldable pub any_value : (V → Bool) → Map V → Bool
  any_value p [] = false
  any_value p ((j, v) ∷ m) = p v || any_value p m

  -- `if let Some(v) = values_mut().find(p) { *v = f(*v) }`
  unfoldable pub modify_first : (V → Bool) → (V → V) → Map V → Map V
  modify_first p f [] = []
  modify_first p f ((j, v) ∷ m) =
      let rest = modify_first p f m in if p v then (j, f v) ∷ m else (j, v) ∷ rest

  abbrev pub AllValues {κ} : (V → Type κ) → Map V → Type κ
  AllValues P [] = Unit
  AllValues P ((j, v) ∷ m) = P v × AllValues P m

  -- What a `HashMap` keeps: no key stands twice.
  abbrev pub HasUniqueKeys : Map V → Type 0
  HasUniqueKeys [] = Unit
  HasUniqueKeys ((j, v) ∷ m) = (contains_key j m ≡ false) × HasUniqueKeys m
