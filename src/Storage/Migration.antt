-- ===== src/Storage/Migration.antt =====
-- crates/storage/src/migration.rs: snapshots of older versions are brought up to the current one.
pub mod Termination
use oddjobs.Prelude.{
  ℕ, zero, suc, ◌+◌, ◌-◌, ◌%◌, ◌^◌, ◌≤◌, ◌<◌, String, Option, none, some, List, [], ◌∷◌, Bool, true,
  false, ◌≡◌, refl, ◌∙◌, ap, arith, inl, inr, Bool-cases, Option-cases, eqb, ltb, if◌then◌else◌,
  unwrap_or,
}

pub data MigrationError : Type 0 where
  failed : (from_version to_version : ℕ) → (reason : String) → MigrationError
  no_path : (version target : ℕ) → MigrationError
  too_new : (version target : ℕ) → MigrationError

-- `Result<_, MigrationError>`
pub data MigrationResult (A : Type 0) : Type 0 where
  ok : (value : A) → MigrationResult A
  err : (error : MigrationError) → MigrationResult A

-- serde_json's `Value`, as far as migrations look at it themselves: the number under "v", whether
-- the value is an object, and the insertion of "v" into one.
pub record Json (V : Type 0) : Type 0 where
  pub get_version : V → Option ℕ
  pub is_object : V → Bool
  pub insert_version : ℕ → V → V

-- The trait `Migration`.
pub record Migration (V : Type 0) : Type 0 where
  pub source_version : ℕ
  pub target_version : ℕ
  pub migrate : V → MigrationResult V

module _ {V : Type 0} (json : Json V) where
  -- `iter().find(|m| m.source_version() == version)`
  unfoldable pub find_migration : ℕ → List (Migration V) → Option (Migration V)
  find_migration version [] = none
  find_migration version (m ∷ ms) =
      let rest = find_migration version ms in if eqb m.source_version version then some m else rest

  -- `if let Some(obj) = snapshot.as_object_mut() { obj.insert("v", version) }`
  unfoldable pub set_version : ℕ → V → V
  set_version version snapshot =
      if json.is_object snapshot then json.insert_version version snapshot else snapshot

  -- The loop: none when the fuel runs out, which stands for a loop that goes on.
  unfoldable pub migrate_loop : ℕ → List (Migration V) → ℕ → ℕ → V → Option (MigrationResult V)
  migrate_loop zero migrations version target snapshot =
      if ltb version target then none else some (MigrationResult.ok snapshot)
  migrate_loop (suc fuel) migrations version target snapshot = elim (ltb version target) [
    | false ↦ some (MigrationResult.ok snapshot)
    | true ↦ elim (find_migration version migrations) [
      | none ↦ some (MigrationResult.err (MigrationError.no_path version target))
      | some m ↦ elim (m.migrate snapshot) [
        | MigrationResult.err e ↦ some (MigrationResult.err e)
        | MigrationResult.ok migrated ↦
            migrate_loop fuel migrations m.target_version target
              (set_version m.target_version migrated)
      ]
    ]
  ]

  -- `as u32` keeps the low 32 bits.
  unfoldable pub version_of : V → ℕ
  version_of snapshot = unwrap_or (json.get_version snapshot) 1 % 2 ^ 32

  -- `migrate_to`, with fuel for the loop.
  unfoldable pub migrate_to : ℕ → List (Migration V) → V → ℕ → Option (MigrationResult V)
  migrate_to fuel migrations snapshot target =
      let current = version_of snapshot in
      if eqb current target
      then some (MigrationResult.ok snapshot)
      else if ltb target current
      then some (MigrationResult.err (MigrationError.too_new current target))
      else migrate_loop fuel migrations current target snapshot
