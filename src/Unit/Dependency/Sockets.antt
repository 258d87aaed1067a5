-- ===== src/Unit/Dependency/Sockets.antt =====
-- crates/rinit-core/src/unit/dependency.rs: the sockets that units provide and need.
use rinit.Prelude.{
  none, some, List, [], ◌∷◌, ◌++◌, if◌then◌else◌, Text, codes, Result, ok, err, ◌>>=◌,
}
use rinit.Prelude.Order.{text_order}
use rinit.Prelude.OrdMap.{Entries, lookup, insert}
use rinit.Unit.Name.{UnitName, name_eq}
use rinit.Unit.Dependency.{DependencyError, duplicate_socket}
use rinit.Unit.Config.{UnitConfig, Dependencies, has_name}

abbrev pub Providers : Type 0
Providers = Entries Text UnitName

unfoldable pub claim : UnitName → List Text → Providers → Result DependencyError Providers
claim name [] providers = ok providers
claim name (path ∷ paths) providers = elim (lookup text_order path providers) [
  | some first ↦ err (duplicate_socket path first name)
  | none ↦ claim name paths (insert text_order path name providers)
]

unfoldable pub claim_all : List UnitConfig → Providers → Result DependencyError Providers
unfolding claim
claim_all [] providers = ok providers
claim_all (c ∷ cs) providers = claim c.name c.sockets providers >>= λ p. claim_all cs p

abbrev pub no_provider : UnitName → Text → Text
no_provider name path =
    name.canonical
    ++ codes ": NeedsSocket="
    ++ path
    ++ codes " has no unit declaring it; waiting for the path anyway"

-- The providers that a unit needs, and the warnings for the paths without one.
unfoldable pub needed : Providers → UnitName → List Text → List UnitName × List Text
needed providers name [] = ([], [])
needed providers name (path ∷ paths) =
    let (requires, warnings) = needed providers name paths in
    elim (lookup text_order path providers) [
      | none ↦ (requires, no_provider name path ∷ warnings)
      | some provider ↦
          if name_eq provider name then (requires, warnings) else (provider ∷ requires, warnings)
    ]

abbrev pub add_name : UnitName → List UnitName → List UnitName
add_name name names = if has_name name names then names else names ++ name ∷ []

unfoldable pub require_all : List UnitName → Dependencies → Dependencies
require_all [] deps = deps
require_all (provider ∷ rest) deps = require_all rest (record deps {
  requires = add_name provider deps.requires;
  after = add_name provider deps.after;
})

unfoldable pub resolve_needs : Providers → List UnitConfig → List UnitConfig × List Text
unfolding needed require_all
resolve_needs providers [] = ([], [])
resolve_needs providers (c ∷ cs) =
    let (requires, warnings) = needed providers c.name c.needs_socket in
    let (rest, later) = resolve_needs providers cs in
    (record c { deps = require_all requires c.deps } ∷ rest, warnings ++ later)

-- The configurations with their new dependencies, and the warnings.
unfoldable pub resolve_sockets :
    List UnitConfig → Result DependencyError (List UnitConfig × List Text)
unfolding claim_all resolve_needs
resolve_sockets configs = claim_all configs [] >>= λ p. ok (resolve_needs p configs)
