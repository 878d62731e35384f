-- ===== src/Core/Names.antt =====
-- crates/core/src/namespace.rs: keys scoped by a namespace. A text is Rust's `String` or `&str`.
pub mod Laws
use Prim.Native.Char.{Char, code}
use oddjobs.Prelude.{◌++◌, ℕ, String, Option, none, some, ◌==◌, eqb, if◌then◌else◌}

unfoldable pub namespace_to_option : String → Option String
namespace_to_option ns = if ns == "" then none else some ns

-- `format!("{}/{}", namespace, name)`, or the bare name.
unfoldable pub scoped_name : String → String → String
scoped_name namespace name = if namespace == "" then name else namespace ++ "/" ++ name

-- Rust's `split_once` at a character.
prefix_head : Char → Option (String × String) → Option (String × String)
prefix_head c none = none
prefix_head c (some (s, t)) = some (String.◌∷◌ c s, t)

unfoldable pub split_once : ℕ → String → Option (String × String)
unfolding prefix_head
split_once sep String.[] = none
split_once sep (String.◌∷◌ c s) =
    let rest = split_once sep s in
    if eqb (code c) sep then some (String.[], s) else prefix_head c rest

or_bare : String → Option (String × String) → String × String
or_bare scoped none = ("", scoped)
or_bare scoped (some p) = p

unfoldable pub split_scoped_name : String → String × String
unfolding or_bare
split_scoped_name scoped = or_bare scoped (split_once b'/' scoped)
