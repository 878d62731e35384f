-- ===== src/Prelude/Lists.antt =====
-- Lists as Rust's `Vec`: length, the last element in place, push, and searches by a Boolean test.
use Prim.Native.Nat.{ℕ, suc}
use mathlib.Core.Path.{◌≡◌, refl, ap}
use mathlib.Core.Bool.{Bool, false, ◌||◌}
use mathlib.Core.Option.{Option, none, some}
use mathlib.Core.List.{List, [], ◌∷◌}
use native.Mathlib.Omega.{arith}
use oddjobs.Prelude.Tests.{if◌then◌else◌}

module _ {ℓ} {A : Type ℓ} where
  abbrev pub length : List A → ℕ
  length [] = 0
  length (x ∷ xs) = suc (length xs)

  -- `iter().any(p)`
  abbrev pub any : (A → Bool) → List A → Bool
  any p [] = false
  any p (x ∷ xs) = p x || any p xs

  -- `retain(p)`
  unfoldable pub retain : (A → Bool) → List A → List A
  retain p [] = []
  retain p (x ∷ xs) = let rest = retain p xs in if p x then x ∷ rest else rest

  -- `push(x)`
  unfoldable pub push : List A → A → List A
  push [] a = a ∷ []
  push (x ∷ xs) a = x ∷ push xs a

  -- `last()`
  unfoldable pub last? : List A → Option A
  last? [] = none
  last? (x ∷ []) = some x
  last? (x ∷ y ∷ ys) = last? (y ∷ ys)

  -- `if let Some(x) = last_mut() { *x = f(*x) }`
  unfoldable pub modify_last : (A → A) → List A → List A
  modify_last f [] = []
  modify_last f (x ∷ []) = f x ∷ []
  modify_last f (x ∷ y ∷ ys) = x ∷ modify_last f (y ∷ ys)

  -- `if let Some(x) = iter_mut().find(p) { *x = f(*x) }`
  unfoldable pub modify_first : (A → Bool) → (A → A) → List A → List A
  modify_first p f [] = []
  modify_first p f (x ∷ xs) = let rest = modify_first p f xs in if p x then f x ∷ xs else x ∷ rest

  abbrev pub All {κ} : (A → Type κ) → List A → Type κ
  All P [] = Unit
  All P (x ∷ xs) = P x × All P xs

  pub retain_idem : (p : A → Bool) (xs : List A) → retain p (retain p xs) ≡ retain p xs
  unfolding retain
  retain_idem p [] = refl
  retain_idem p (x ∷ xs) = ground (arith, retain_idem p xs)

  pub any-push : (p : A → Bool) (xs : List A) (a : A) → any p (push xs a) ≡ (any p xs || p a)
  unfolding push
  any-push p [] a = ground arith
  any-push p (x ∷ xs) a = ground (arith, any-push p xs a)

  pub last?-push : (xs : List A) (a : A) → last? (push xs a) ≡ some a
  unfolding last? push
  last?-push [] a = refl
  last?-push (x ∷ []) a = refl
  last?-push (x ∷ y ∷ ys) a = last?-push (y ∷ ys) a

  pub modify_last_absorb :
      (f g : A → A) (xs : List A)
      → ((a : A) → g (f a) ≡ f a)
      → modify_last g (modify_last f xs) ≡ modify_last f xs
  unfolding modify_last
  modify_last_absorb f g [] h = refl
  modify_last_absorb f g (x ∷ []) h = rw (h x)
  modify_last_absorb f g (x ∷ y ∷ []) h = rw (h y)
  modify_last_absorb f g (x ∷ y ∷ z ∷ zs) h =
      ap (λ l. x ∷ l) (modify_last_absorb f g (y ∷ z ∷ zs) h)

  pub modify_last_fuse :
      (f g : A → A) (xs : List A) → modify_last f (modify_last g xs) ≡ modify_last (λ a. f (g a)) xs
  unfolding modify_last
  modify_last_fuse f g [] = refl
  modify_last_fuse f g (x ∷ []) = refl
  modify_last_fuse f g (x ∷ y ∷ []) = refl
  modify_last_fuse f g (x ∷ y ∷ z ∷ zs) = ap (λ l. x ∷ l) (modify_last_fuse f g (y ∷ z ∷ zs))

  pub modify_first_absorb :
      (p : A → Bool) (f g : A → A) (xs : List A)
      → ((a : A) → g (f a) ≡ f a)
      → ((a : A) → p (f a) ≡ p a)
      → modify_first p g (modify_first p f xs) ≡ modify_first p f xs
  unfolding modify_first
  modify_first_absorb p f g [] h k = refl
  modify_first_absorb p f g (x ∷ xs) h k =
      ground (arith, h x, k x, modify_first_absorb p f g xs h k)
