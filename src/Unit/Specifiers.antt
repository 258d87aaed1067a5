-- ===== src/Unit/Specifiers.antt =====
-- crates/rinit-core/src/unit/template.rs: the specifiers of a template's text.
use rinit.Prelude.{
  ℕ, Bool, true, false, ◌==◌, if◌then◌else◌, Option, none, some, [], ◌∷◌, ◌++◌, Text, ◌≡◌,
}
use rinit.Unit.Name.{UnitName, instance_of, prefix_of}
pub mod Expansion
mod Samples

-- What stands for the character behind a `%`.
unfoldable pub specifier : UnitName → Text → ℕ → Option Text
specifier n inst c =
    if c == b'i'
    then some inst
    else if c == b'n'
    then some n.canonical
    else if c == b'p'
    then some (prefix_of n)
    else if c == b'%'
    then some (b'%' ∷ [])
    else none

-- The loop over the characters; `out` is what has been written.
unfoldable pub expand : UnitName → Text → Text → Text → Option Text
expand n inst out [] = some out
expand n inst out (c ∷ []) = if c == b'%' then none else some (out ++ c ∷ [])
expand n inst out (c ∷ d ∷ rest) = elim (c == b'%') [
  | true ↦ elim (specifier n inst d) [ none ↦ none | some s ↦ expand n inst (out ++ s) rest ]
  | false ↦ expand n inst (out ++ c ∷ []) (d ∷ rest)
]

unfoldable pub substitute : Text → UnitName → Option Text
unfolding expand
substitute text n = elim (instance_of n) [ none ↦ none | some inst ↦ expand n inst [] text ]
