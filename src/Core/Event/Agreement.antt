-- ===== src/Core/Event/Agreement.antt =====
-- The agent events and the agent states that they stand for.
use oddjobs.Prelude.{String, some, ◌≡◌, refl}
use oddjobs.Core.Agent.{AgentState}
use oddjobs.Core.Owner.{OwnerId}
use oddjobs.Core.Event.Views.{from_agent_state, as_agent_state}

-- The event made for an agent's state is read back as that agent, state and owner.
as_agent_state-from_agent_state :
    (id : String) (state : AgentState) (owner : OwnerId)
    → as_agent_state (from_agent_state id state owner) ≡ some (id, state, owner)
unfolding as_agent_state from_agent_state
as_agent_state-from_agent_state id AgentState.working o = refl
as_agent_state-from_agent_state id AgentState.waiting_for_input o = refl
as_agent_state-from_agent_state id (AgentState.failed e) o = refl
as_agent_state-from_agent_state id (AgentState.exited c) o = refl
as_agent_state-from_agent_state id AgentState.session_gone o = refl
