-- ===== src/Storage/Migration/Termination.antt =====
-- crates/storage/src/migration.rs: the migrations end.
use oddjobs.Prelude.{
  ℕ, zero, suc, ◌-◌, ◌%◌, ◌^◌, ◌≤◌, ◌<◌, Option, none, some, List, [], ◌∷◌, true, false, ◌≡◌, refl,
  sym, ◌⊎◌, arith, inl, inr, Bool-cases, Option-cases, eqb, ltb, unwrap_or,
}
use mathlib.Core.Path.{subst}
use oddjobs.Storage.Migration.{
  MigrationError, MigrationResult, Json, Migration, find_migration, set_version, migrate_loop,
  version_of, migrate_to,
}

module _ {V : Type 0} (json : Json V) where
  -- Every migration leads to a later version.
  abbrev pub AreRising : List (Migration V) → Type 0
  AreRising [] = Unit
  AreRising (m ∷ ms) = (m.source_version < m.target_version) × AreRising ms

  some_injective : (n m : Migration V) → some n ≡ some m → n ≡ m
  some_injective n m h = ground (arith, h)

  find_migration-rises :
      (version : ℕ) (ms : List (Migration V)) (m : Migration V)
      → AreRising ms
      → find_migration json version ms ≡ some m
      → version < m.target_version
  unfolding find_migration
  find_migration-rises version [] m h k = ground arith
  find_migration-rises version (n ∷ ms) m (h, hs) k =
      elim (Bool-cases (eqb n.source_version version)) [
        | inl e ↦
            let same : n ≡ m = some_injective n m (ground (arith, e, k)) in
            subst (λ (x : Migration V). version < x.target_version) same (ground (arith, h, e))
        | inr e ↦ find_migration-rises version ms m hs (ground (arith, e, k))
      ]

  -- A result that the loop ends with. A success is a snapshot of the target's version or a later
  -- one, or no object.
  abbrev pub EndsWell : ℕ → Option (MigrationResult V) → Type 0
  EndsWell target none = ⊥
  EndsWell target (some (MigrationResult.err e)) = Unit
  EndsWell target (some (MigrationResult.ok v)) =
      (json.is_object v ≡ false) ⊎ (target ≤ unwrap_or (json.get_version v) 1)

  -- The version that is inserted into an object is read back.
  abbrev pub IsReadBack : Type 0
  IsReadBack =
      (n : ℕ) (x : V)
      → json.is_object x ≡ true
      → json.get_version (json.insert_version n x) ≡ some n

  set_version-EndsWell :
      (n target : ℕ) (x : V)
      → IsReadBack
      → target ≤ n
      → EndsWell target (some (MigrationResult.ok (set_version json n x)))
  unfolding set_version
  set_version-EndsWell n target x g h = elim (Bool-cases (json.is_object x)) [
    | inl e ↦ rw (e, g n x e) (inr h)
    | inr e ↦ rw e (inl e)
  ]

  result_cases :
      (r : MigrationResult V)
      → ((v : V) × (r ≡ MigrationResult.ok v))
        ⊎ ((e : MigrationError) × (r ≡ MigrationResult.err e))
  result_cases (MigrationResult.ok v) = inl (v, refl)
  result_cases (MigrationResult.err e) = inr (e, refl)

  loop_done :
      (fuel version target : ℕ) (ms : List (Migration V)) (v : V)
      → ltb version target ≡ false
      → migrate_loop json fuel ms version target v ≡ some (MigrationResult.ok v)
  unfolding migrate_loop
  loop_done zero version target ms v h = rw h refl
  loop_done (suc fuel) version target ms v h = ground (arith, h)

  loop_lost :
      (fuel version target : ℕ) (ms : List (Migration V)) (v : V)
      → ltb version target ≡ true
      → find_migration json version ms ≡ none
      → migrate_loop json (suc fuel) ms version target v
        ≡ some (MigrationResult.err (MigrationError.no_path version target))
  unfolding migrate_loop
  loop_lost fuel version target ms v h k = ground (arith, h, k)

  loop_failed :
      (fuel version target : ℕ) (ms : List (Migration V)) (v : V) (m : Migration V)
      (e : MigrationError)
      → ltb version target ≡ true
      → find_migration json version ms ≡ some m
      → m.migrate v ≡ MigrationResult.err e
      → migrate_loop json (suc fuel) ms version target v ≡ some (MigrationResult.err e)
  unfolding migrate_loop
  loop_failed fuel version target ms v m e h k l = ground (arith, h, k, l)

  loop_step :
      (fuel version target : ℕ) (ms : List (Migration V)) (v w : V) (m : Migration V)
      → ltb version target ≡ true
      → find_migration json version ms ≡ some m
      → m.migrate v ≡ MigrationResult.ok w
      → migrate_loop json (suc fuel) ms version target v
        ≡ migrate_loop json fuel ms m.target_version target (set_version json m.target_version w)
  unfolding migrate_loop
  loop_step fuel version target ms v w m h k l = ground (arith, h, k, l)

  migrate_loop-EndsWell :
      (fuel : ℕ) (ms : List (Migration V)) (version target : ℕ) (v : V)
      → AreRising ms
      → IsReadBack
      → (target ≤ version → EndsWell target (some (MigrationResult.ok v)))
      → target - version ≤ fuel
      → EndsWell target (migrate_loop json fuel ms version target v)
  migrate_loop-EndsWell zero ms version target v r g h k =
      subst (EndsWell target) (sym (loop_done zero version target ms v (ground (arith, k))))
        (h (omega (arith, k)))
  migrate_loop-EndsWell (suc fuel) ms version target v r g h k =
      elim (Bool-cases (ltb version target)) [
        | inl l ↦ elim (Option-cases (find_migration json version ms)) [
          | inl e ↦ subst (EndsWell target) (sym (loop_lost fuel version target ms v l e)) tt
          | inr (m, e) ↦ elim (result_cases (m.migrate v)) [
            | inl (w, f) ↦
                subst (EndsWell target) (sym (loop_step fuel version target ms v w m l e f)) (
                  migrate_loop-EndsWell fuel ms m.target_version target
                    (set_version json m.target_version w) r g
                    (set_version-EndsWell m.target_version target w g)
                    (omega (arith, find_migration-rises version ms m r e, k)))
            | inr (x, f) ↦
                subst (EndsWell target) (sym (loop_failed fuel version target ms v m x l e f)) tt
          ]
        ]
        | inr l ↦
            subst (EndsWell target) (sym (loop_done (suc fuel) version target ms v l))
              (h (ground (arith, l)))
      ]

  -- Migrating ends, with an error or with a snapshot, when every migration leads to a later version:
  -- the loop takes at most `target` rounds. A snapshot that it ends with has the target's version or
  -- a later one, or is no JSON object.
  pub migrate_to-EndsWell :
      (fuel : ℕ) (ms : List (Migration V)) (v : V) (target : ℕ)
      → AreRising ms
      → IsReadBack
      → target ≤ fuel
      → EndsWell target (migrate_to json fuel ms v target)
  unfolding migrate_to version_of
  migrate_to-EndsWell fuel ms v target r g k =
      let current = unwrap_or (json.get_version v) 1 % 2 ^ 32 in
      elim (Bool-cases (eqb current target)) [
        | inl e ↦ rw e (inr (ground (arith, e)))
        | inr e ↦ elim (Bool-cases (ltb target current)) [
          | inl l ↦ rw (e, l) tt
          | inr l ↦
              rw (e, l)
                (migrate_loop-EndsWell fuel ms current target v r g
                  (λ b. inr (ground (arith, b, e, l))) (omega (arith, k)))
        ]
      ]
