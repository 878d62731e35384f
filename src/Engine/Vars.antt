-- ===== src/Engine/Vars.antt =====
-- crates/engine/src/vars.rs: variables under the scope "var.".
pub mod Scoping
use oddjobs.Prelude.{◌++◌, String, List, [], ◌∷◌, Bool, strip_prefix, is_some, any, if◌then◌else◌}
use oddjobs.Prelude.Map
use oddjobs.Prelude.Map.{Map}

abbrev pub scope_prefixes : List String
scope_prefixes = "var." ∷ "invoke." ∷ "workspace." ∷ "local." ∷ "args." ∷ "item." ∷ []

unfoldable pub has_scope_prefix : String → Bool
has_scope_prefix key = any (λ p. is_some (strip_prefix p key)) scope_prefixes

-- The closure of the iterator's `map`, on the key.
unfoldable pub scoped_key : String → String
scoped_key k = if has_scope_prefix k then k else "var." ++ k

unfoldable pub scoped_entries : Map String → Map String
scoped_entries [] = []
scoped_entries ((k, v) ∷ input) = (scoped_key k, v) ∷ scoped_entries input

-- `collect()` inserts the entries in turn.
unfoldable pub namespace_vars : Map String → Map String
namespace_vars input = Map.insert_all (scoped_entries input) []
