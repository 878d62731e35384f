-- ===== src/Core/Decision.antt =====
-- crates/core/src/decision.rs: decisions that wait for a human.
use oddjobs.Prelude.{ℕ, String, Option, Bool, List, is_some}
use oddjobs.Core.Owner.{OwnerId}

pub data DecisionSource : Type 0 where
  question approval gate error idle : DecisionSource

pub record DecisionOption : Type 0 where
  pub label : String
  pub description : Option String
  pub recommended : Bool

pub record Decision : Type 0 where
  pub id : String
  pub job_id : String
  pub agent_id : Option String
  pub owner : OwnerId
  pub source : DecisionSource
  pub context : String
  pub options : List DecisionOption
  pub chosen : Option ℕ
  pub message : Option String
  pub created_at_ms : ℕ
  pub resolved_at_ms : Option ℕ
  pub superseded_by : Option String
  pub namespace : String

unfoldable pub is_resolved : Decision → Bool
is_resolved d = is_some d.resolved_at_ms
