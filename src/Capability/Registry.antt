-- ===== src/Capability/Registry.antt =====
-- capability.rs, `CapabilityRegistry`: documents that expire. Times are seconds since 1970, which
-- the model takes from zero on; `expires_at_unix` saturates at `i64::MAX`.
use momo_core.Prelude.{
  ℕ, ◌+◌, ◌-◌, ◌*◌, ◌^◌, min, max, Bool, not, ◌||◌, Option, none, some, List, [], ◌∷◌, ltb, ◌==◌,
  if◌then◌else◌, Text, trim, is_empty, utf8_len, length, lookup, put, Outcome, ok, ◌>>=◌, ◌>>◌,
  unless,
}
use momo_core.Capability.Profile.{
  CapabilityProfile, CapabilityError, unsupported_schema, invalid_identifier, empty_discovery,
  capability_schema_version, default_profile, validate,
}

abbrev pub max_discovery_ttl_seconds : ℕ
max_discovery_ttl_seconds = 24 * 60 * 60

abbrev pub i64_max : ℕ
i64_max = 2 ^ 63 - 1

pub record CapabilityDiscoveryDocument : Type 0 where
  pub schema_version : ℕ
  pub ttl_seconds : ℕ
  pub models : List (Text × CapabilityProfile)

pub data CapabilitySource : Type 0 where
  cached_discovery conservative_fallback : CapabilitySource

pub record ResolvedCapability : Type 0 where
  pub profile : CapabilityProfile
  pub source : CapabilitySource

pub record CachedProviderCapabilities : Type 0 where
  pub expires_at_unix : ℕ
  pub models : List (Text × CapabilityProfile)

pub record CapabilityRegistry : Type 0 where
  pub providers : List (Text × CachedProviderCapabilities)

unfoldable pub identifier_refused : Text → Bool
identifier_refused value = is_empty (trim value) || ltb 256 (utf8_len value)

unfoldable pub validate_identifier : Text → Outcome CapabilityError (Unit {0})
validate_identifier value = unless (identifier_refused value) invalid_identifier

-- `for (model, profile) in &document.models`
unfoldable pub check_models : List (Text × CapabilityProfile) → Outcome CapabilityError (Unit {0})
unfolding validate_identifier
check_models [] = ok tt
check_models ((model, profile) ∷ rest) = do
  validate_identifier model
  validate profile
  check_models rest

-- `ttl_seconds.clamp(1, MAX_DISCOVERY_TTL_SECONDS)`
unfoldable pub clamp_ttl : ℕ → ℕ
clamp_ttl seconds = min (max seconds 1) max_discovery_ttl_seconds

-- What a registration stores.
unfoldable pub cached : CapabilityDiscoveryDocument → ℕ → CachedProviderCapabilities
unfolding clamp_ttl
cached document now_unix = record {
  expires_at_unix = min (now_unix + clamp_ttl document.ttl_seconds) i64_max;
  models = document.models;
}

unfoldable pub register_document :
    CapabilityRegistry
    → Text
    → CapabilityDiscoveryDocument
    → ℕ
    → Outcome CapabilityError (ℕ × CapabilityRegistry)
unfolding validate_identifier
register_document registry provider_id document now_unix = do
  validate_identifier provider_id
  unless (not (document.schema_version == capability_schema_version))
      (unsupported_schema document.schema_version)
  unless (is_empty document.models) empty_discovery
  check_models document.models
  ok (
    length document.models,
    record { providers = put registry.providers provider_id (cached document now_unix) },
  )

abbrev fallback : ResolvedCapability
fallback = record { profile = default_profile; source = conservative_fallback }

-- The conditions of the `if`, one after the other.
unfoldable pub resolve_at : Option CachedProviderCapabilities → Text → ℕ → ResolvedCapability
resolve_at none model now_unix = fallback
resolve_at (some provider) model now_unix =
    if ltb now_unix provider.expires_at_unix
    then elim (lookup provider.models model) [
      | none ↦ fallback
      | some profile ↦ record { profile = profile; source = cached_discovery }
    ]
    else fallback

unfoldable pub resolve : CapabilityRegistry → Text → Text → ℕ → ResolvedCapability
unfolding resolve_at
resolve registry provider_id model now_unix =
    resolve_at (lookup registry.providers provider_id) model now_unix

-- `retain`
unfoldable pub retain_fresh :
    ℕ → List (Text × CachedProviderCapabilities) → List (Text × CachedProviderCapabilities)
retain_fresh now_unix [] = []
retain_fresh now_unix ((id, provider) ∷ rest) =
    let later = retain_fresh now_unix rest in
    if ltb now_unix provider.expires_at_unix then (id, provider) ∷ later else later

unfoldable pub remove_expired : CapabilityRegistry → ℕ → ℕ × CapabilityRegistry
unfolding retain_fresh
remove_expired registry now_unix =
    let kept = retain_fresh now_unix registry.providers in
    (length registry.providers - length kept, record { providers = kept })

-- `fetch_capability_document` does the network request; `fetched` is what it returned.
unfoldable pub discover_and_cache :
    CapabilityRegistry
    → Outcome CapabilityError CapabilityDiscoveryDocument
    → Text
    → ℕ
    → Outcome CapabilityError (ℕ × CapabilityRegistry)
unfolding validate_identifier register_document
discover_and_cache registry fetched provider_id now_unix = do
  validate_identifier provider_id
  document ← fetched
  register_document registry provider_id document now_unix
