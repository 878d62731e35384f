-- ===== src/Storage/Invariant/Steps.antt =====
-- Every event keeps the step history of every job coherent.
use oddjobs.Prelude.{
  ℕ, ◌%◌, ◌^◌, String, Option, none, some, true, false, ◌≡◌, refl, arith, eq_iff, modify_last,
  last?-push, unwrap_or, Bool-cases, if_intro, inl, inr,
}
use oddjobs.Prelude.Map
use oddjobs.Prelude.Map.{Map, AllValues}
use oddjobs.Prelude.Map.Laws.{get-insert}
use oddjobs.Core.Agent.{ℤ}
use oddjobs.Core.Job.{
  Job, StepRecord, StepOutcome, get_step_visits, is_terminal, is_terminal_step, if_open,
  update_last_open, finalize_current_step, update_current_step_outcome, set_current_step_agent_id,
  set_current_step_agent_name, clear_agent_signal, reset_action_attempts, push_step,
  record_step_visit, open_record,
}
use oddjobs.Core.Tracker.{inc_u32}
use oddjobs.Storage.Apply.Agents.{unless_terminal, fail_job}
use oddjobs.Storage.Apply.Jobs.{
  complete_step, fail_step, exit_shell, revive, closing_outcome, keep_or_reset, enter_step,
  leave_step, advance, when_some, start_step, wait_step,
}
use oddjobs.Storage.Invariant.Histories.{
  is_closed, IsCoherent, Closed, revisits, is_nil, modify_last-ClosedButLast, modify_last-Closed,
  is_nil-modify_last, last?-modify_last, revisits-modify_last, push-ClosedButLast, is_nil-push,
  revisits-push, Closed-ClosedButLast,
}

-- What leaves the step, its history and the counters alone keeps the history coherent.
pub IsCoherent-of_same :
    (j k : Job)
    → k.step_history ≡ j.step_history
    → k.step ≡ j.step
    → k.step_visits ≡ j.step_visits
    → IsCoherent j
    → IsCoherent k
unfolding is_terminal get_step_visits
IsCoherent-of_same j k eh es ev c = record {
  begun = rw eh c.begun;
  closed_before = rw eh c.closed_before;
  current = rw (eh, es) c.current;
  counted = λ n. rw (eh, ev) (c.counted n);
}

update_last_open-IsCoherent :
    (f : StepRecord → StepRecord) (j : Job)
    → ((r : StepRecord) → (f r).name ≡ r.name)
    → IsCoherent j
    → IsCoherent (update_last_open f j)
unfolding update_last_open if_open is_terminal get_step_visits
update_last_open-IsCoherent f j k c =
    let g = if_open f in
    let kg = λ (r : StepRecord). keeps_name r in
    record {
      begun = rw (is_nil-modify_last g j.step_history) c.begun;
      closed_before = modify_last-ClosedButLast g j.step_history c.closed_before;
      current = rw (last?-modify_last g j.step_history kg) c.current;
      counted = λ n. rw (revisits-modify_last g n j.step_history kg) (c.counted n);
    }
  where
    keeps_name : (r : StepRecord) → (if_open f r).name ≡ r.name
    keeps_name r = ground (arith, k r)

finalize-IsCoherent :
    (o : StepOutcome) (t : ℕ) (j : Job) → IsCoherent j → IsCoherent (finalize_current_step o t j)
unfolding finalize_current_step
finalize-IsCoherent o t j c = update_last_open-IsCoherent _ j (λ r. refl) c

pub complete_step-IsCoherent : (t : ℕ) (j : Job) → IsCoherent j → IsCoherent (complete_step t j)
unfolding complete_step
complete_step-IsCoherent t j c = finalize-IsCoherent _ t _ (IsCoherent-of_same j _ refl refl refl c)

pub fail_step-IsCoherent :
    (e : String) (t : ℕ) (j : Job) → IsCoherent j → IsCoherent (fail_step e t j)
unfolding fail_step fail_job
fail_step-IsCoherent e t j c = finalize-IsCoherent _ t _ (IsCoherent-of_same j _ refl refl refl c)

pub exit_shell-IsCoherent : (x : ℤ) (t : ℕ) (j : Job) → IsCoherent j → IsCoherent (exit_shell x t j)
unfolding exit_shell
exit_shell-IsCoherent x t j c =
    if_intro IsCoherent _ _ _ (complete_step-IsCoherent t j c) (fail_step-IsCoherent _ t j c)

pub start_step-IsCoherent :
    (a n : Option String) (j : Job) → IsCoherent j → IsCoherent (start_step a n j)
unfolding start_step when_some update_current_step_outcome set_current_step_agent_id
    set_current_step_agent_name
start_step-IsCoherent a n j c =
    update_last_open-IsCoherent _ _ (λ r. refl)
      (named n _ (identified a _ (IsCoherent-of_same j _ refl refl refl c)))
  where
    identified :
        (a : Option String) (k : Job)
        → IsCoherent k
        → IsCoherent (when_some set_current_step_agent_id a k)
    identified none k d = d
    identified (some t) k d = update_last_open-IsCoherent _ k (λ r. refl) d

    named :
        (n : Option String) (k : Job)
        → IsCoherent k
        → IsCoherent (when_some set_current_step_agent_name n k)
    named none k d = d
    named (some t) k d = update_last_open-IsCoherent _ k (λ r. refl) d

pub wait_step-IsCoherent :
    (r d : Option String) (j : Job) → IsCoherent j → IsCoherent (wait_step r d j)
unfolding wait_step update_current_step_outcome
wait_step-IsCoherent r d j c =
    update_last_open-IsCoherent _ _ (λ q. refl) (IsCoherent-of_same j _ refl refl refl c)

pub unless_terminal-IsCoherent :
    (f : Job → Job) (j : Job) → IsCoherent j → IsCoherent (f j) → IsCoherent (unless_terminal f j)
unfolding unless_terminal
unless_terminal-IsCoherent f j c d = if_intro IsCoherent (is_terminal j) _ _ c d

-- A job that has just moved to the step, with its old records closed.
module _ (step : String) (t : ℕ) (k : Job) (begun : is_nil k.step_history ≡ false) where
  visit_counted :
      (n : String)
      → get_step_visits n k ≡ revisits n k.step_history % 2 ^ 32
      → get_step_visits n (push_step step t (record_step_visit step k))
        ≡ revisits n (push_step step t (record_step_visit step k)).step_history % 2 ^ 32
  unfolding push_step record_step_visit get_step_visits open_record
  visit_counted n h = ground (
    arith,
    get-insert step n (inc_u32 (unwrap_or (Map.get step k.step_visits) 0)) k.step_visits,
    revisits-push (open_record step t) n k.step_history begun,
    eq_iff step n,
  )

  enter_step-IsCoherent :
      k.step ≡ step
      → Closed k.step_history
      → ((n : String) → get_step_visits n k ≡ revisits n k.step_history % 2 ^ 32)
      → IsCoherent (enter_step step t k)
  unfolding enter_step
  enter_step-IsCoherent here closed counted = elim (Bool-cases (is_terminal_step step)) [
    | inl e ↦ rw e (record {
      begun = begun;
      closed_before = Closed-ClosedButLast k.step_history closed;
      current = λ live. unfold is_terminal in ground (arith, here);
      counted = counted;
    })
    | inr e ↦ rw e (record {
      begun = unfold push_step record_step_visit in is_nil-push (open_record step t) k.step_history;
      closed_before =
          unfold push_step record_step_visit in
          push-ClosedButLast (open_record step t) k.step_history closed;
      current =
          λ live. unfold push_step record_step_visit open_record in rw (last?-push, here) refl;
      counted = λ n. visit_counted n (counted n);
    })
  ]

module _ (step : String) (t : ℕ) (j : Job) where
  leave_step-step : (leave_step step t j).step ≡ step
  unfolding leave_step clear_agent_signal keep_or_reset reset_action_attempts
  leave_step-step = ground arith

  leave_step-step_visits : (leave_step step t j).step_visits ≡ j.step_visits
  unfolding leave_step clear_agent_signal keep_or_reset reset_action_attempts finalize_current_step
      update_last_open revive
  leave_step-step_visits = ground arith

  -- How the last record is closed.
  closes : StepRecord → StepRecord
  closes = if_open λ r. record r {
    finished_at_ms = some t;
    outcome = closing_outcome step (revive step j).error;
  }

  closes_name : (r : StepRecord) → (closes r).name ≡ r.name
  unfolding closes if_open
  closes_name r = ground arith

  closes_closed : (r : StepRecord) → is_closed (closes r) ≡ true
  unfolding closes if_open
  closes_closed r = ground arith

  leave_step-step_history : (leave_step step t j).step_history ≡ modify_last closes j.step_history
  unfolding leave_step clear_agent_signal keep_or_reset reset_action_attempts finalize_current_step
      update_last_open revive closes
  leave_step-step_history = ground arith

  left_counted :
      (n : String)
      → get_step_visits n j ≡ revisits n j.step_history % 2 ^ 32
      → get_step_visits n (leave_step step t j)
        ≡ revisits n (leave_step step t j).step_history % 2 ^ 32
  unfolding get_step_visits
  left_counted n h =
      rw
        (
          leave_step-step_visits,
          leave_step-step_history,
          revisits-modify_last closes n j.step_history closes_name,
        )
        h

  pub advance-IsCoherent : IsCoherent j → IsCoherent (advance step t j)
  unfolding advance
  advance-IsCoherent c =
      enter_step-IsCoherent step t (leave_step step t j)
        (rw (leave_step-step_history, is_nil-modify_last closes j.step_history) c.begun)
        leave_step-step
        (rw leave_step-step_history
          (modify_last-Closed closes j.step_history closes_closed c.closed_before))
        (λ n. left_counted n (c.counted n))
