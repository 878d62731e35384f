-- ===== src/Core/Owner.antt =====
-- crates/core/src/owner.rs: who owns an agent, a session, a workspace or a decision.
use oddjobs.Prelude.{String, Bool, true, false, ◌==◌, eq_iff, ◌≡◌, ◌↔◌, refl, arith}

pub data OwnerId : Type 0 where
  job : String → OwnerId
  agent_run : String → OwnerId

-- The derived `PartialEq`.
unfoldable pub owner_eq : OwnerId → OwnerId → Bool
owner_eq (OwnerId.job a) (OwnerId.job b) = a == b
owner_eq (OwnerId.agent_run a) (OwnerId.agent_run b) = a == b
owner_eq _ _ = false

pub owner_eq_iff : (a b : OwnerId) → (owner_eq a b ≡ true) ↔ (a ≡ b)
unfolding owner_eq
owner_eq_iff (OwnerId.job a) (OwnerId.job b) = ground (arith, eq_iff a b)
owner_eq_iff (OwnerId.agent_run a) (OwnerId.agent_run b) = ground (arith, eq_iff a b)
owner_eq_iff (OwnerId.job a) (OwnerId.agent_run b) = ground arith
owner_eq_iff (OwnerId.agent_run a) (OwnerId.job b) = ground arith

pub owner_eq_refl : (a : OwnerId) → owner_eq a a ≡ true
owner_eq_refl a = (owner_eq_iff a a).1 refl
