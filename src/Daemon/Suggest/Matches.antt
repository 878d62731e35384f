-- ===== src/Daemon/Suggest/Matches.antt =====
-- crates/daemon/src/listener/suggest.rs, `find_similar`: which names it finds, and in what order.
use oddjobs.Prelude.{
  ℕ, ◌≤◌, String, List, [], ◌∷◌, Bool, not, ◌&&◌, ◌||◌, ◌==◌, ◌*◌, ◌/◌, starts_with, if◌then◌else◌,
  ◌≡◌, refl, ap, ◌∙◌, arith, inl, inr, Bool-cases, eq_iff, leb, leb→le, any, All, if_intro,
}
use mathlib.Core.Path.{subst}
use oddjobs.Storage.Wal.{utf8_len}
use oddjobs.Daemon.Suggest.Distance.{levenshtein, backwards, edit_distance-levenshtein}
use oddjobs.Daemon.Suggest.{
  edit_distance, threshold, is_similar, close_matches, insert_by_key, sort_by_key, names_of,
  find_similar,
}

-- Whether a name is suggested for the input, if it is a candidate: another name that is at most two
-- edits away, or at most a third of the input's bytes, or of which one begins with the other.
abbrev pub is_suggested : String → String → Bool
is_suggested input name =
    let distance = levenshtein (backwards input) (backwards name) in
    not (name == input)
    && (leb distance 2
        || leb (3 * distance) (utf8_len input)
        || starts_with name input
        || starts_with input name)

near_lem : (d n : ℕ) → leb d (if leb (n / 3) 2 then 2 else n / 3) ≡ (leb d 2 || leb (3 * d) n)
near_lem d n = ground arith

-- The test of the code.
abbrev is_chosen : String → String → Bool
is_chosen input name = not (name == input) && is_similar input name

is_chosen-is_suggested : (input name : String) → is_chosen input name ≡ is_suggested input name
unfolding is_similar threshold
is_chosen-is_suggested input name =
    let distance = levenshtein (backwards input) (backwards name) in
    rw (edit_distance-levenshtein input name) (
      ap (λ near. not (name == input) && (near || starts_with name input || starts_with input name))
        (near_lem distance (utf8_len input)))

any-insert_by_key :
    (p : String → Bool) (m : ℕ × String) (ms : List (ℕ × String))
    → any p (names_of (insert_by_key m ms)) ≡ (p m.1 || any p (names_of ms))
unfolding insert_by_key names_of
any-insert_by_key p m [] = refl
any-insert_by_key p m (n ∷ ms) = ground (arith, any-insert_by_key p m ms)

any-sort_by_key :
    (p : String → Bool) (ms : List (ℕ × String))
    → any p (names_of (sort_by_key ms)) ≡ any p (names_of ms)
unfolding sort_by_key names_of
any-sort_by_key p [] = refl
any-sort_by_key p (m ∷ ms) =
    ground (arith, any-sort_by_key p ms, any-insert_by_key p m (sort_by_key ms))

any-close_matches :
    (input name : String) (cs : List String)
    → any (λ y. y == name) (names_of (close_matches input cs))
      ≡ (any (λ y. y == name) cs && is_chosen input name)
unfolding close_matches names_of
any-close_matches input name [] = refl
any-close_matches input name (c ∷ cs) = elim (Bool-cases (c == name)) [
  | inl e ↦
      let same = ap (is_chosen input) ((eq_iff c name).0 e) in
      ground (arith, e, same, any-close_matches input name cs)
  | inr e ↦ ground (arith, e, any-close_matches input name cs)
]

-- Every key is the distance of its name.
AreKeyed : String → List (ℕ × String) → Type 0
AreKeyed input ms = All (λ (m : ℕ × String). m.0 ≡ edit_distance input m.1) ms

AreOrdered : List (ℕ × String) → Type 0
AreOrdered [] = Unit
AreOrdered (m ∷ ms) = All (λ (n : ℕ × String). m.0 ≤ n.0) ms × AreOrdered ms

module _ {ℓ} (P : ℕ × String → Type ℓ) where
  insert_by_key-All :
      (m : ℕ × String) (ms : List (ℕ × String)) → P m → All P ms → All P (insert_by_key m ms)
  unfolding insert_by_key
  insert_by_key-All m [] h k = (h, tt)
  insert_by_key-All m (n ∷ ms) h (k, ks) =
      if_intro (All P) (leb m.0 n.0) (m ∷ n ∷ ms) (n ∷ insert_by_key m ms) (h, (k, ks))
        (k, insert_by_key-All m ms h ks)

  sort_by_key-All : (ms : List (ℕ × String)) → All P ms → All P (sort_by_key ms)
  unfolding sort_by_key
  sort_by_key-All [] h = tt
  sort_by_key-All (m ∷ ms) (h, hs) = insert_by_key-All m (sort_by_key ms) h (sort_by_key-All ms hs)

All-le :
    (a b : ℕ) (ms : List (ℕ × String))
    → a ≤ b
    → All (λ (n : ℕ × String). b ≤ n.0) ms
    → All (λ (n : ℕ × String). a ≤ n.0) ms
All-le a b [] h k = tt
All-le a b (m ∷ ms) h (k, ks) = (omega (arith, h, k), All-le a b ms h ks)

insert_by_key-AreOrdered :
    (m : ℕ × String) (ms : List (ℕ × String)) → AreOrdered ms → AreOrdered (insert_by_key m ms)
unfolding insert_by_key AreOrdered
insert_by_key-AreOrdered m [] h = (tt, tt)
insert_by_key-AreOrdered m (n ∷ ms) (h, hs) = elim (Bool-cases (leb m.0 n.0)) [
  | inl e ↦ let le = leb→le m.0 n.0 e in rw e ((le, All-le m.0 n.0 ms le h), (h, hs))
  | inr e ↦ rw e (
    insert_by_key-All (λ (x : ℕ × String). n.0 ≤ x.0) m ms (ground (arith, e)) h,
    insert_by_key-AreOrdered m ms hs,
  )
]

sort_by_key-AreOrdered : (ms : List (ℕ × String)) → AreOrdered (sort_by_key ms)
unfolding sort_by_key AreOrdered
sort_by_key-AreOrdered [] = tt
sort_by_key-AreOrdered (m ∷ ms) =
    insert_by_key-AreOrdered m (sort_by_key ms) (sort_by_key-AreOrdered ms)

close_matches-AreKeyed :
    (input : String) (cs : List String) → AreKeyed input (close_matches input cs)
unfolding close_matches AreKeyed
close_matches-AreKeyed input [] = tt
close_matches-AreKeyed input (c ∷ cs) =
    if_intro (All (λ (m : ℕ × String). m.0 ≡ edit_distance input m.1)) (is_chosen input c)
      ((edit_distance input c, c) ∷ close_matches input cs) (close_matches input cs)
      (refl, close_matches-AreKeyed input cs) (close_matches-AreKeyed input cs)

-- No name is farther from the input than a later one.
abbrev pub AreByDistance : String → List String → Type 0
AreByDistance input [] = Unit
AreByDistance input (x ∷ xs) =
    All (λ y. edit_distance input x ≤ edit_distance input y) xs × AreByDistance input xs

names_le :
    (input : String) (d : ℕ) (ms : List (ℕ × String))
    → AreKeyed input ms
    → All (λ (n : ℕ × String). d ≤ n.0) ms
    → All (λ y. d ≤ edit_distance input y) (names_of ms)
unfolding AreKeyed names_of
names_le input d [] h k = tt
names_le input d (m ∷ ms) (h, hs) (k, ks) = (omega (arith, h, k), names_le input d ms hs ks)

names_of-AreByDistance :
    (input : String) (ms : List (ℕ × String))
    → AreKeyed input ms
    → AreOrdered ms
    → AreByDistance input (names_of ms)
unfolding AreKeyed AreOrdered names_of
names_of-AreByDistance input [] h k = tt
names_of-AreByDistance input (m ∷ ms) (h, hs) (k, ks) = (
  subst (λ d. All (λ y. d ≤ edit_distance input y) (names_of ms)) h (names_le input m.0 ms hs k),
  names_of-AreByDistance input ms hs ks,
)

-- What is suggested is just the candidates other than the input that are at most two edits or a third
-- of the input's bytes away from it, or of which one begins with the other; the closest come first.
pub find_similar_lem :
    (input : String) (candidates : List String)
    → ((name : String)
        → any (λ y. y == name) (find_similar input candidates)
          ≡ (any (λ y. y == name) candidates && is_suggested input name))
      × AreByDistance input (find_similar input candidates)
unfolding find_similar AreKeyed
find_similar_lem input candidates =
    let ms = close_matches input candidates in
    (
      λ name.
          any-sort_by_key (λ y. y == name) ms
          ∙ any-close_matches input name candidates
          ∙ ap (λ b. any (λ y. y == name) candidates && b) (is_chosen-is_suggested input name),
      names_of-AreByDistance input (sort_by_key ms)
          (sort_by_key-All (λ (m : ℕ × String). m.0 ≡ edit_distance input m.1) ms
            (close_matches-AreKeyed input candidates))
          (sort_by_key-AreOrdered ms),
    )
