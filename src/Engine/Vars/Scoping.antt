-- ===== src/Engine/Vars/Scoping.antt =====
-- Variables that are under a scope stay as they are.
use oddjobs.Prelude.{
  String, [], ◌∷◌, true, ◌≡◌, refl, ◌∙◌, ap, arith, strip_prefix, Bool-cases, inl, inr,
}
use oddjobs.Prelude.Map
use oddjobs.Prelude.Map.{Map, HasUniqueKeys}
use oddjobs.Prelude.Map.Keys.{insert_all-HasUniqueKeys, insert_all-nil}
use oddjobs.Engine.Vars.{has_scope_prefix, scoped_key, scoped_entries, namespace_vars}

-- Every key carries a scope.
abbrev pub AreScoped : Map String → Type 0
AreScoped [] = Unit
AreScoped ((k, v) ∷ m) = (has_scope_prefix k ≡ true) × AreScoped m

scoped_key-scoped : (k : String) → has_scope_prefix (scoped_key k) ≡ true
unfolding scoped_key
scoped_key-scoped k = elim (Bool-cases (has_scope_prefix k)) [
  | inl e ↦ rw (e, e) refl
  | inr e ↦ rw e (unfold has_scope_prefix strip_prefix in refl)
]

insert-AreScoped :
    (k v : String) (m : Map String)
    → has_scope_prefix k ≡ true
    → AreScoped m
    → AreScoped (Map.insert k v m)
unfolding Map.insert
insert-AreScoped k v [] h a = (h, tt)
insert-AreScoped k v ((j, w) ∷ m) h a = ground (arith, insert-AreScoped k v m h a.1)

insert_all-AreScoped :
    (new m : Map String) → AreScoped new → AreScoped m → AreScoped (Map.insert_all new m)
unfolding Map.insert_all
insert_all-AreScoped [] m h a = a
insert_all-AreScoped ((k, v) ∷ new) m h a =
    insert_all-AreScoped new (Map.insert k v m) h.1 (insert-AreScoped k v m h.0 a)

scoped_entries-AreScoped : (m : Map String) → AreScoped (scoped_entries m)
unfolding scoped_entries
scoped_entries-AreScoped [] = tt
scoped_entries-AreScoped ((k, v) ∷ m) = (scoped_key-scoped k, scoped_entries-AreScoped m)

scoped_entries-scoped : (m : Map String) → AreScoped m → scoped_entries m ≡ m
unfolding scoped_entries scoped_key
scoped_entries-scoped [] h = refl
scoped_entries-scoped ((k, v) ∷ m) h = rw (h.0, scoped_entries-scoped m h.1) refl

-- After scoping, every variable carries a scope, and scoping again changes nothing.
pub namespace_vars-twice :
    (input : Map String)
    → AreScoped (namespace_vars input)
      × (namespace_vars (namespace_vars input) ≡ namespace_vars input)
unfolding namespace_vars
namespace_vars-twice input =
    let once = Map.insert_all (scoped_entries input) [] in
    let scoped : AreScoped once =
      insert_all-AreScoped (scoped_entries input) [] (scoped_entries-AreScoped input) tt in
    (
      scoped,
      ap (λ m. Map.insert_all m []) (scoped_entries-scoped once scoped)
          ∙ insert_all-nil once (insert_all-HasUniqueKeys (scoped_entries input) [] tt),
    )
