-- ===== src/Core/Timer/Owners.antt =====
-- The owner that a timer was made for is the owner that is read off its id.
use Prim.Native.Char.{Char, code}
use mathlib.Core.Path.{ap₂}
use text.Mathlib.TextEquality.{Char-path}
use oddjobs.Prelude.{
  ◌≢◌, ◌++◌, ℕ, String, none, some, false, ◌≡◌, refl, arith, strip_prefix, decimal,
}
use oddjobs.Core.Names.Laws.{has_char, split_once-append}
use oddjobs.Core.Owner.{OwnerId}
use oddjobs.Core.Timer.{
  liveness, exit_deferred, cooldown, idle_grace, liveness_agent_run, exit_deferred_agent_run,
  cooldown_agent_run, idle_grace_agent_run, owner_liveness, owner_exit_deferred, owner_cooldown,
  owner_idle_grace, first_part, agent_run_id_str, is_agent_run_timer, job_id_str, owner_id,
}

-- A job's id is not taken for the marker of a standalone run.
abbrev pub IsPlain : OwnerId → Type 0
IsPlain (OwnerId.job id) = strip_prefix "ar:" id ≡ none
IsPlain (OwnerId.agent_run id) = Unit {0}

-- Liveness, deferred exit and idle grace timers name their owner back, for a job whose id does not
-- begin with "ar:" and for every standalone run.
owner_id_of_timers :
    (o : OwnerId)
    → IsPlain o
    → (owner_id (owner_liveness o) ≡ some o)
      × (owner_id (owner_exit_deferred o) ≡ some o)
      × (owner_id (owner_idle_grace o) ≡ some o)
unfolding owner_id owner_liveness liveness liveness_agent_run owner_exit_deferred exit_deferred
    exit_deferred_agent_run owner_idle_grace idle_grace idle_grace_agent_run agent_run_id_str
    job_id_str is_agent_run_timer strip_prefix
owner_id_of_timers (OwnerId.job id) h = (rw h, rw h, rw h)
owner_id_of_timers (OwnerId.agent_run id) h = (refl, refl, refl)

-- An id that stands whole before a colon, and is not the marker.
abbrev pub HasPlainText : OwnerId → Type 0
HasPlainText (OwnerId.job id) = (has_char b':' id ≡ false) × (id ≢ "ar")
HasPlainText (OwnerId.agent_run id) = has_char b':' id ≡ false

not_marked :
    (id rest : String)
    → has_char b':' id ≡ false
    → id ≢ "ar"
    → strip_prefix "ar:" (id ++ ":" ++ rest) ≡ none
unfolding has_char strip_prefix
not_marked String.[] rest h n = refl
not_marked (String.◌∷◌ c String.[]) rest h n = ground arith
not_marked (String.◌∷◌ c (String.◌∷◌ d String.[])) rest h n =
    ground (arith, λ (e : code c ≡ b'a') (k : code d ≡ b'r'). n (marker c d e k))
  where
    marker :
        (c d : Char) → code c ≡ b'a' → code d ≡ b'r' → String.◌∷◌ c (String.◌∷◌ d String.[]) ≡ "ar"
    marker c d e k =
        ap₂ (λ a b. String.◌∷◌ a (String.◌∷◌ b String.[])) (Char-path c "a" e) (Char-path d "r" k)
not_marked (String.◌∷◌ c (String.◌∷◌ d (String.◌∷◌ e s))) rest h n = ground arith

first_part-append :
    (id rest : String) → has_char b':' id ≡ false → first_part (id ++ ":" ++ rest) ≡ some id
unfolding first_part
first_part-append id rest h = rw (split_once-append b':' id _ rest h refl, first_part) refl

-- A cooldown timer names its owner back, for an id without a colon that is not "ar".
pub owner_id_of_cooldown :
    (o : OwnerId) (trigger : String) (chain_pos : ℕ)
    → HasPlainText o
    → owner_id (owner_cooldown o trigger chain_pos) ≡ some o
unfolding owner_id owner_cooldown cooldown cooldown_agent_run agent_run_id_str job_id_str
    is_agent_run_timer
owner_id_of_cooldown (OwnerId.job id) trigger pos (h, n) =
    let rest = trigger ++ ":" ++ decimal pos in
    unfold strip_prefix in rw (not_marked id rest h n, first_part-append id rest h) refl
owner_id_of_cooldown (OwnerId.agent_run id) trigger pos h =
    unfold strip_prefix in rw (first_part-append id (trigger ++ ":" ++ decimal pos) h) refl
