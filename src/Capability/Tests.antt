-- ===== src/Capability/Tests.antt =====
-- Runs of the capability registry, and instances of its theorems.
use momo_core.Prelude.{
  ◌+◌, ◌≤◌, ◌<◌, ◌≡◌, refl, [], ◌∷◌, arith, codes, trim, any, member, text_eq, utf8_len, lookup,
  put, some, ok,
}
use momo_core.Capability.Profile.{CapabilityProfile, default_profile, validate, name_refused}
use momo_core.Capability.Registry.{
  CapabilityDiscoveryDocument, CapabilityRegistry, cached_discovery, conservative_fallback, cached,
  clamp_ttl, check_models, identifier_refused, register_document, resolve,
}
use momo_core.Capability.Freshness.{IsWellFormed, register_document-IsWellFormed, register-resolve}

abbrev small : CapabilityProfile
small = record default_profile { context_window = 4_096 }

abbrev document : CapabilityDiscoveryDocument
document = record { schema_version = 1; ttl_seconds = 0; models = (codes "mini", small) ∷ [] }

abbrev nothing_known : CapabilityRegistry
nothing_known = record { providers = [] }

abbrev one_known : CapabilityRegistry
one_known = record {
  providers =
      (codes "acme", record { expires_at_unix = 101; models = (codes "mini", small) ∷ [] }) ∷ [];
}

-- A lifetime of zero is raised to a second.
registered : register_document nothing_known (codes "acme") document 100 ≡ ok (1, one_known)
unfolding register_document check_models identifier_refused validate name_refused trim utf8_len any
    member text_eq put cached
registered = refl

one_known-IsWellFormed : IsWellFormed one_known
one_known-IsWellFormed =
    register_document-IsWellFormed nothing_known (codes "acme") document 100 1 one_known
      (record { distinct = tt; valid = tt }) registered

mini_listed : lookup document.models (codes "mini") ≡ some small
unfolding lookup text_eq
mini_listed = refl

register-resolve_example :
    (100 < 100 + clamp_ttl 0
      → resolve one_known (codes "acme") (codes "mini") 100
        ≡ record { profile = small; source = cached_discovery })
    × (100 + clamp_ttl 0 ≤ 100
        → resolve one_known (codes "acme") (codes "mini") 100
          ≡ record { profile = default_profile; source = conservative_fallback })
register-resolve_example =
    register-resolve nothing_known (codes "acme") (codes "mini") document 100 100 1 one_known small
      registered mini_listed (omega arith)
