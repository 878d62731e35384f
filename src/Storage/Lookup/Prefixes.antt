-- ===== src/Storage/Lookup/Prefixes.antt =====
-- What a lookup by an id or a prefix of it finds.
use oddjobs.Prelude.{
  String, none, some, List, [], ◌∷◌, true, false, ◌==◌, ◌≡◌, refl, ◌∙◌, sym, ◌⊎◌, inl, inr, arith,
  starts_with, eq_iff, eq_refl, Bool-cases, Option-cases,
}
use oddjobs.Prelude.Map
use oddjobs.Prelude.Map.{Map}
use oddjobs.Storage.Lookup.{prefix_matches, only, get_by_prefix}

module _ {V : Type 0} where
  -- No key starts with the text.
  abbrev pub HasNoMatch : String → Map V → Type 0
  HasNoMatch id m = (j : String) → Map.contains_key j m ≡ true → starts_with j id ≡ false

  -- One key starts with the text, and has the value.
  pub record IsOnlyMatch (id : String) (v : V) (m : Map V) : Type 0 where
    pub key : String
    pub found : Map.get key m ≡ some v
    pub starts : starts_with key id ≡ true
    pub alone : (j : String) → Map.contains_key j m ≡ true → starts_with j id ≡ true → j ≡ key

  prefix_matches-none :
      (id j : String) (m : Map V)
      → prefix_matches id m ≡ []
      → Map.contains_key j m ≡ true
      → starts_with j id ≡ false
  unfolding prefix_matches Map.contains_key
  prefix_matches-none id j [] h c = ground arith
  prefix_matches-none id j ((k, w) ∷ m) h c = elim (Bool-cases (k == j)) [
    | inl e ↦ rw (sym ((eq_iff k j).0 e)) (ground arith)
    | inr e ↦ ground (arith, prefix_matches-none id j m)
  ]

  only_here :
      (id k : String) (v w : V) (m : Map V)
      → prefix_matches id ((k, w) ∷ m) ≡ v ∷ []
      → starts_with k id ≡ true
      → (w ≡ v) × (prefix_matches id m ≡ [])
  unfolding prefix_matches
  only_here id k v w m h e = ground arith

  get_has_key :
      (k : String) (v : V) (m : Map V) → Map.get k m ≡ some v → Map.contains_key k m ≡ true
  unfolding Map.get Map.contains_key
  get_has_key k v [] h = ground arith
  get_has_key k v ((j, w) ∷ m) h = ground (arith, get_has_key k v m)

  prefix_matches-one :
      (id : String) (v : V) (m : Map V) → prefix_matches id m ≡ v ∷ [] → IsOnlyMatch id v m
  unfolding prefix_matches Map.get Map.contains_key
  prefix_matches-one id v [] h = ground arith
  prefix_matches-one id v ((k, w) ∷ m) h = elim (Bool-cases (starts_with k id)) [
    | inl e ↦
        let (same, no_more) = only_here id k v w m h e in
        record {
          key = k;
          found = rw (eq_refl k, same) refl;
          starts = e;
          alone = λ j c t. ground (arith, eq_iff k j, prefix_matches-none id j m no_more);
        }
    | inr e ↦
        let rest = prefix_matches-one id v m (ground arith) in
        record {
          key = rest.key;
          found = ground (arith, eq_iff k rest.key, rest.found, rest.starts);
          starts = rest.starts;
          alone = λ j c t. ground (arith, eq_iff k j, rest.alone j);
        }
  ]

  only-some : (v : V) (l : List V) → only l ≡ some v → l ≡ v ∷ []
  unfolding only
  only-some v [] k = ground arith
  only-some v (x ∷ []) k = ground arith
  only-some v (x ∷ y ∷ l) k = ground arith

  -- A lookup that finds a value finds it under the very id, or, when the id is no key, under the only
  -- key that starts with it.
  pub get_by_prefix-some :
      (id : String) (v : V) (m : Map V)
      → get_by_prefix id m ≡ some v
      → (Map.get id m ≡ some v) ⊎ ((Map.get id m ≡ none) × IsOnlyMatch id v m)
  unfolding get_by_prefix
  get_by_prefix-some id v m h = elim (Option-cases (Map.get id m)) [
    | inl e ↦ inr (
      e,
      prefix_matches-one id v m (only-some v (prefix_matches id m) (rw (e, get_by_prefix) at h)),
    )
    | inr (w, e) ↦ inl (e ∙ (rw (e, get_by_prefix) at h))
  ]
