-- ===== src/RequestLogic/Version.antt =====
-- packages/request-logic/src/version.ts and config.ts.
use request_network.Base.{
  Bool, false, not, ◌&&◌, ◌||◌, String, List, [], ◌∷◌, Option, none, some, str_eq,
}
use request_network.RequestLogic.Library.{Library}

-- `IVersionSupportConfig`
pub record VersionConfiguration : Type 0 where
  pub current : String
  pub exceptions : List String

-- `Config.specificationVersion`
abbrev pub specification_version : VersionConfiguration
specification_version = record { current = "2.0.3"; exceptions = [] }

-- `exceptions.indexOf(version) !== -1`
unfoldable pub contains : String → List String → Bool
contains v [] = false
contains v (w ∷ ws) = str_eq w v || contains v ws

abbrev is_major : Option String → Bool
is_major none = false
is_major (some kind) = str_eq kind "major"

module _ {N : Type 0} (lib : Library N) where
  unfoldable pub is_supported_by : VersionConfiguration → String → Bool
  unfolding contains
  is_supported_by configuration version =
      lib.semver_valid version
      && not (is_major (lib.semver_diff version configuration.current))
      && lib.semver_lte version configuration.current
      && not (contains version configuration.exceptions)

  unfoldable pub is_supported : String → Bool
  unfolding is_supported_by
  is_supported = is_supported_by specification_version
