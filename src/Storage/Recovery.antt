-- ===== src/Storage/Recovery.antt =====
-- crates/daemon/src/lifecycle/mod.rs, step 4 of the startup: the state from the snapshot and the log.
use oddjobs.Prelude.{
  ℕ, ◌≤◌, ◌<◌, Option, none, some, List, [], ◌∷◌, ◌≡◌, refl, sym, ap, ◌∙◌, arith, inl, inr,
  Bool-cases, ltb, leb, All, if◌then◌else◌,
}
use mathlib.Core.Path.{subst, ap₂}
use mathlib.Core.List.{◌++◌}
use oddjobs.Core.Event.{Event}
use oddjobs.Storage.State.{MaterializedState, empty_state}
use oddjobs.Storage.Apply.{apply_event}
use oddjobs.Storage.Replay.{replay, stamped}
use oddjobs.Storage.Wal.{WalEntry, Codec, RawLine, entries_after_in}
use oddjobs.Storage.Wal.Operations.{Wal, open_wal, entries_after}
use oddjobs.Storage.Wal.Cursor.{AreAscending, after, after-All, entries_in, entries_after_in-after}
use oddjobs.Storage.Wal.Corruption.{entries_after-open_wal}

-- crates/storage/src/snapshot.rs; the time of its creation is not read again.
pub record Snapshot : Type 0 where
  pub version : ℕ
  pub seq : ℕ
  pub state : MaterializedState

abbrev pub current_snapshot_version : ℕ
current_snapshot_version = 1

unfoldable pub start_state : Option Snapshot → MaterializedState
start_state none = empty_state
start_state (some s) = s.state

unfoldable pub start_seq : Option Snapshot → ℕ
start_seq none = 0
start_seq (some s) = s.seq

unfoldable pub events_of : List (WalEntry Event) → List Event
events_of [] = []
events_of (e ∷ es) = e.event ∷ events_of es

-- The log that the startup opens, and the state: every event is applied at the startup's time.
unfoldable pub recover_wal : Codec Event → ℕ → Option Snapshot → List RawLine → Wal
recover_wal c now snapshot file = open_wal c now file (start_seq snapshot)

unfoldable pub recover : Codec Event → ℕ → Option Snapshot → List RawLine → MaterializedState
recover c now snapshot file =
    let processed_seq = start_seq snapshot in
    replay
      (stamped now (events_of (entries_after c processed_seq (recover_wal c now snapshot file))))
      (start_state snapshot)

-- The state `t` comes from `s` by these events, each applied at some time.
abbrev pub IsReachedBy : List Event → MaterializedState → MaterializedState → Type 0
IsReachedBy [] s t = s ≡ t
IsReachedBy (e ∷ es) s t = (now : ℕ) × IsReachedBy es (apply_event now e s) t

module _ {E : Type 0} where
  unfoldable pub upto : ℕ → List (WalEntry E) → List (WalEntry E)
  upto p [] = []
  upto p (e ∷ es) = let rest = upto p es in if leb e.seq p then e ∷ rest else rest

upto_none :
    (p n : ℕ) (es : List (WalEntry Event))
    → p ≤ n
    → All (λ (x : WalEntry Event). n < x.seq) es
    → upto p es ≡ []
unfolding upto
upto_none p n [] h k = refl
upto_none p n (e ∷ es) h (k, ks) = ground (arith, upto_none p n es h ks)

stamped-IsReachedBy :
    (now : ℕ) (es : List Event) (s : MaterializedState)
    → IsReachedBy es s (replay (stamped now es) s)
unfolding replay stamped
stamped-IsReachedBy now [] s = refl
stamped-IsReachedBy now (e ∷ es) s = (now, stamped-IsReachedBy now es (apply_event now e s))

pub append-IsReachedBy :
    (a b : List Event) (s t u : MaterializedState)
    → IsReachedBy a s t
    → IsReachedBy b t u
    → IsReachedBy (a ++ b) s u
append-IsReachedBy [] b s t u h k = subst (λ x. IsReachedBy b x u) (sym h) k
append-IsReachedBy (e ∷ a) b s t u (now, h) k =
    (now, append-IsReachedBy a b (apply_event now e s) t u h k)

-- The events after `q`, in two parts at `p`.
after_split :
    (q p : ℕ) (es : List (WalEntry Event))
    → q ≤ p
    → AreAscending es
    → events_of (after q es) ≡ events_of (upto p (after q es)) ++ events_of (after p es)
unfolding after upto events_of
after_split q p [] h k = refl
after_split q p (e ∷ es) h (k, ks) = elim (Bool-cases (ltb p e.seq)) [
  | inl l ↦
      let le : p ≤ e.seq = ground (arith, l) in
      ground (
        arith,
        l,
        after-All q e.seq es (omega (arith, h, le)) k,
        after-All p e.seq es le k,
        upto_none p e.seq es le k,
      )
  | inr l ↦ ground (arith, l, after_split q p es h ks)
]

-- What a startup finds, it brings forward by the entries after the snapshot.
pub recover-IsReachedBy :
    (c : Codec Event) (now : ℕ) (snapshot : Option Snapshot) (file : List RawLine)
    → IsReachedBy
        (events_of (entries_after_in c (start_seq snapshot) file))
        (start_state snapshot)
        (recover c now snapshot file)
unfolding recover recover_wal
recover-IsReachedBy c now snapshot file =
    let p = start_seq snapshot in
    subst (λ es. IsReachedBy (events_of es) (start_state snapshot) (recover c now snapshot file))
      (entries_after-open_wal c now p p file)
      (stamped-IsReachedBy now (events_of (entries_after c p (open_wal c now file p)))
        (start_state snapshot))

-- A snapshot of `p` and `state` that a checkpoint takes over the log `file`, whose entries after the
-- old snapshot lead up to it.
pub record IsCheckpoint (c : Codec Event) (old : Option Snapshot) (file : List RawLine)
    (new : Snapshot) : Type 0 where
  pub later : start_seq old ≤ new.seq
  pub leads :
      IsReachedBy
        (events_of (upto new.seq (entries_after_in c (start_seq old) file)))
        (start_state old)
        new.state

-- What a startup is to restore: the old snapshot brought forward by every entry of the log.
abbrev pub IsRestored : Codec Event → Option Snapshot → List RawLine → MaterializedState → Type 0
IsRestored c old file t =
    IsReachedBy (events_of (entries_after_in c (start_seq old) file)) (start_state old) t

pub recover_new-IsRestored :
    (c : Codec Event) (now : ℕ) (old : Option Snapshot) (new : Snapshot) (file kept : List RawLine)
    → AreAscending (entries_in c file)
    → IsCheckpoint c old file new
    → entries_after_in c new.seq kept ≡ entries_after_in c new.seq file
    → IsRestored c old file (recover c now (some new) kept)
unfolding start_state start_seq
recover_new-IsRestored c now old new file kept a k e =
    let q = start_seq old in
    let p = new.seq in
    let es = entries_in c file in
    let split =
      ap events_of (entries_after_in-after c q file)
      ∙ after_split q p es k.later a
      ∙ ap₂ (λ x y. events_of (upto p x) ++ events_of y) (sym (entries_after_in-after c q file))
          (sym (entries_after_in-after c p file) ∙ sym e) in
    subst (λ x. IsReachedBy x (start_state old) (recover c now (some new) kept)) (sym split)
      (append-IsReachedBy (events_of (upto p (entries_after_in c q file)))
        (events_of (entries_after_in c p kept)) (start_state old) new.state
        (recover c now (some new) kept) k.leads (recover-IsReachedBy c now (some new) kept))
