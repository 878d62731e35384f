-- ===== src/Storage/Invariant/Histories.antt =====
-- The step history of a job against its current step and its visit counters.
use mathlib.Core.Option
use oddjobs.Prelude.{
  ℕ, suc, ◌+◌, ◌%◌, ◌^◌, String, some, List, [], ◌∷◌, Bool, true, false, ◌==◌, ◌≡◌, refl, arith,
  if◌then◌else◌, is_some, last?, push, modify_last,
}
use oddjobs.Core.Job.{Job, StepRecord, get_step_visits, is_terminal}

abbrev pub is_closed : StepRecord → Bool
is_closed r = is_some r.finished_at_ms

-- Every record but the last is finished.
abbrev pub ClosedButLast : List StepRecord → Type 0
ClosedButLast [] = Unit
ClosedButLast (x ∷ []) = Unit
ClosedButLast (x ∷ y ∷ ys) = (is_closed x ≡ true) × ClosedButLast (y ∷ ys)

abbrev pub Closed : List StepRecord → Type 0
Closed [] = Unit
Closed (x ∷ xs) = (is_closed x ≡ true) × Closed xs

-- How many records of a step there are.
abbrev pub visits_in : String → List StepRecord → ℕ
visits_in n [] = 0
visits_in n (r ∷ rs) = if r.name == n then suc (visits_in n rs) else visits_in n rs

-- The same without the first record, with which the job was created.
abbrev pub revisits : String → List StepRecord → ℕ
revisits n [] = 0
revisits n (r ∷ rs) = visits_in n rs

abbrev pub is_nil : List StepRecord → Bool
is_nil [] = true
is_nil (x ∷ xs) = false

pub record IsCoherent (j : Job) : Type 0 where
  pub begun : is_nil j.step_history ≡ false
  pub closed_before : ClosedButLast j.step_history
  pub current :
      is_terminal j ≡ false → Option.map (λ r. r.name) (last? j.step_history) ≡ some j.step
  pub counted : (n : String) → get_step_visits n j ≡ revisits n j.step_history % 2 ^ 32

module _ (f : StepRecord → StepRecord) where
  pub modify_last-ClosedButLast :
      (h : List StepRecord) → ClosedButLast h → ClosedButLast (modify_last f h)
  unfolding modify_last
  modify_last-ClosedButLast [] c = tt
  modify_last-ClosedButLast (x ∷ []) c = tt
  modify_last-ClosedButLast (x ∷ y ∷ []) c = c
  modify_last-ClosedButLast (x ∷ y ∷ z ∷ zs) c = (c.0, modify_last-ClosedButLast (y ∷ z ∷ zs) c.1)

  pub modify_last-Closed :
      (h : List StepRecord)
      → ((r : StepRecord) → is_closed (f r) ≡ true)
      → ClosedButLast h
      → Closed (modify_last f h)
  unfolding modify_last
  modify_last-Closed [] k c = tt
  modify_last-Closed (x ∷ []) k c = (k x, tt)
  modify_last-Closed (x ∷ y ∷ []) k c = (c.0, (k y, tt))
  modify_last-Closed (x ∷ y ∷ z ∷ zs) k c = (c.0, modify_last-Closed (y ∷ z ∷ zs) k c.1)

  pub is_nil-modify_last : (h : List StepRecord) → is_nil (modify_last f h) ≡ is_nil h
  unfolding modify_last
  is_nil-modify_last [] = refl
  is_nil-modify_last (x ∷ []) = refl
  is_nil-modify_last (x ∷ y ∷ ys) = refl

  pub last?-modify_last :
      (h : List StepRecord)
      → ((r : StepRecord) → (f r).name ≡ r.name)
      → Option.map (λ (r : StepRecord). r.name) (last? (modify_last f h))
        ≡ Option.map (λ r. r.name) (last? h)
  unfolding modify_last last?
  last?-modify_last [] k = refl
  last?-modify_last (x ∷ []) k = ground (arith, k x)
  last?-modify_last (x ∷ y ∷ []) k = ground (arith, k y)
  last?-modify_last (x ∷ y ∷ z ∷ zs) k = last?-modify_last (y ∷ z ∷ zs) k

  visits_in-modify_last :
      (n : String) (h : List StepRecord)
      → ((r : StepRecord) → (f r).name ≡ r.name)
      → visits_in n (modify_last f h) ≡ visits_in n h
  unfolding modify_last
  visits_in-modify_last n [] k = refl
  visits_in-modify_last n (x ∷ []) k = rw (k x)
  visits_in-modify_last n (x ∷ y ∷ ys) k = rw (visits_in-modify_last n (y ∷ ys) k)

  pub revisits-modify_last :
      (n : String) (h : List StepRecord)
      → ((r : StepRecord) → (f r).name ≡ r.name)
      → revisits n (modify_last f h) ≡ revisits n h
  unfolding modify_last
  revisits-modify_last n [] k = refl
  revisits-modify_last n (x ∷ []) k = refl
  revisits-modify_last n (x ∷ y ∷ ys) k = visits_in-modify_last n (y ∷ ys) k

module _ (r : StepRecord) where
  pub push-ClosedButLast : (h : List StepRecord) → Closed h → ClosedButLast (push h r)
  unfolding push
  push-ClosedButLast [] c = tt
  push-ClosedButLast (x ∷ []) c = (c.0, tt)
  push-ClosedButLast (x ∷ y ∷ ys) c = (c.0, push-ClosedButLast (y ∷ ys) c.1)

  pub is_nil-push : (h : List StepRecord) → is_nil (push h r) ≡ false
  unfolding push
  is_nil-push [] = refl
  is_nil-push (x ∷ xs) = refl

  visits_in-push :
      (n : String) (h : List StepRecord)
      → visits_in n (push h r) ≡ visits_in n h + (if r.name == n then 1 else 0)
  unfolding push
  visits_in-push n [] = ground arith
  visits_in-push n (x ∷ xs) = ground (arith, visits_in-push n xs)

  pub revisits-push :
      (n : String) (h : List StepRecord)
      → is_nil h ≡ false
      → revisits n (push h r) ≡ revisits n h + (if r.name == n then 1 else 0)
  unfolding push
  revisits-push n [] b = cc
  revisits-push n (x ∷ xs) b = visits_in-push n xs

pub Closed-ClosedButLast : (h : List StepRecord) → Closed h → ClosedButLast h
Closed-ClosedButLast [] c = tt
Closed-ClosedButLast (x ∷ []) c = tt
Closed-ClosedButLast (x ∷ y ∷ ys) c = (c.0, Closed-ClosedButLast (y ∷ ys) c.1)
