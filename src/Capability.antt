-- ===== src/Capability.antt =====
-- model/capability.go: sets of capabilities with wildcards.
pub mod Grants
pub mod Static
pub mod Resolver
pub mod Keto
mod Tests
use thesa.Prelude.{
  ◌-◌, Bool, true, false, not, ◌&&◌, Option, none, some, List, any, all, is_empty, length, take,
  if◌then◌else◌,
}
use thesa.Prelude.Text.{Text, codes, text_eq, has_prefix, has_suffix}
use thesa.Prelude.Maps.{Map, lookup}

abbrev pub CapabilitySet : Type 0
CapabilitySet = Map Bool

-- The value of `m[k]` in a map[string]bool
abbrev pub is_set : Option Bool → Bool
is_set none = false
is_set (some b) = b

-- pattern[:len(pattern)-1] is the pattern without its `*`.
unfoldable pub match_wildcard : Text → Text → Bool
match_wildcard pattern cap =
    if text_eq pattern (codes "*")
    then true
    else if not (has_suffix pattern (codes ":*"))
    then false
    else has_prefix cap (take (length pattern - 1) pattern)

-- `range cs` visits every key, whatever its value.
unfoldable pub has : CapabilitySet → Text → Bool
has cs cap = if is_set (lookup cap cs) then true else any (λ entry. match_wildcard entry.0 cap) cs

unfoldable pub has_all : CapabilitySet → List Text → Bool
has_all cs caps = all (has cs) caps

unfoldable pub has_any : CapabilitySet → List Text → Bool
has_any cs caps = any (has cs) caps

-- The guard of every provider, `len(required) > 0 && !caps.HasAll(required...)`, negated.
unfoldable pub allowed : CapabilitySet → List Text → Bool
allowed cs required = not (not (is_empty required) && not (has_all cs required))
