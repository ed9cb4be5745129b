-- ===== src/Capability/Freshness.antt =====
-- The registry keeps only valid profiles, and hands out none that has expired.
use momo_core.Prelude.{
  ℕ, ◌+◌, ◌≤◌, ◌<◌, ◌≡◌, refl, sym, ◌∙◌, ap, subst, not, Option, none, some, List, [], ◌∷◌, arith,
  ltb, ◌==◌, if◌then◌else◌, Text, text_eq, eq_of_text_eq, trim, any, member, lookup, put,
  DistinctKeys, Values, lookup-Values, put-Values, lookup-put, put-DistinctKeys, length, is_empty,
  ok, unless-passed, >>-ok, ok-injective, Bool-cases, Option-cases, inl, inr,
}
use momo_core.Capability.Profile.{
  CapabilityProfile, unsupported_schema, empty_discovery, capability_schema_version,
  default_profile, validate, IsValid, validate-IsValid, name_refused,
}
use momo_core.Capability.Registry.{
  CapabilityDiscoveryDocument, CapabilityRegistry, CachedProviderCapabilities, cached_discovery,
  conservative_fallback, cached, clamp_ttl, i64_max, check_models, validate_identifier,
  register_document, resolve_at, resolve, retain_fresh, remove_expired, max_discovery_ttl_seconds,
}

-- A registry as the operations leave it: one entry for a provider, and valid profiles only.
pub record IsWellFormed (r : CapabilityRegistry) : Type 0 where
  pub distinct : DistinctKeys r.providers
  pub valid : Values (λ provider. Values IsValid provider.models) r.providers

check_models-Values :
    (models : List (Text × CapabilityProfile)) → check_models models ≡ ok tt → Values IsValid models
unfolding check_models
check_models-Values [] h = tt
check_models-Values ((model, profile) ∷ rest) h =
    let (a, h1) = >>-ok (validate_identifier model) _ h in
    let (b, h2) = >>-ok (validate profile) (check_models rest) h1 in
    ((validate-IsValid profile).0 b, check_models-Values rest h2)

-- What a registration that succeeds did.
register-parts :
    (r : CapabilityRegistry) (id : Text) (d : CapabilityDiscoveryDocument) (now : ℕ)
    {done : ℕ × CapabilityRegistry}
    → register_document r id d now ≡ ok done
    → Values IsValid d.models
      × (done ≡ (length d.models, record { providers = put r.providers id (cached d now) }))
unfolding register_document
register-parts r id d now h =
    let (a, h1) = >>-ok (validate_identifier id) _ h in
    let (b, h2) =
      unless-passed (not (d.schema_version == capability_schema_version))
        (unsupported_schema d.schema_version) _ h1 in
    let (c, h3) = unless-passed (is_empty d.models) empty_discovery _ h2 in
    let (v, h4) = >>-ok (check_models d.models) _ h3 in
    (check_models-Values d.models v, sym (ok-injective h4))

cached-models : (d : CapabilityDiscoveryDocument) (now : ℕ) → (cached d now).models ≡ d.models
unfolding cached
cached-models d now = refl

-- A registration that succeeds keeps the registry well formed.
pub register_document-IsWellFormed :
    (r : CapabilityRegistry) (id : Text) (d : CapabilityDiscoveryDocument) (now count : ℕ)
    (r' : CapabilityRegistry)
    → IsWellFormed r
    → register_document r id d now ≡ ok (count, r')
    → IsWellFormed r'
register_document-IsWellFormed r id d now count r' w h =
    let (v, e) = register-parts r id d now h in
    subst IsWellFormed (sym (ap (λ p. p.1) e)) (record {
      distinct = put-DistinctKeys r.providers id (cached d now) w.distinct;
      valid =
          put-Values (λ provider. Values IsValid provider.models) r.providers id (cached d now)
            w.valid (subst (Values IsValid) (sym (cached-models d now)) v);
    })

default_profile-IsValid : IsValid default_profile
unfolding validate name_refused trim any member text_eq
default_profile-IsValid = (validate-IsValid default_profile).0 refl

resolve_at-IsValid :
    (o : Option CachedProviderCapabilities) (model : Text) (now : ℕ)
    → ((provider : CachedProviderCapabilities) → o ≡ some provider → Values IsValid provider.models)
    → IsValid (resolve_at o model now).profile
unfolding resolve_at
resolve_at-IsValid none model now h = default_profile-IsValid
resolve_at-IsValid (some provider) model now h =
    elim (Bool-cases (ltb now provider.expires_at_unix)) [
      | inr e ↦ rw e default_profile-IsValid
      | inl e ↦ elim (Option-cases (lookup provider.models model)) [
        | inl n ↦ rw (e, n) default_profile-IsValid
        | inr (profile, s) ↦
            rw (e, s) (lookup-Values IsValid provider.models model profile (h provider refl) s)
      ]
    ]

-- Whatever a well-formed registry resolves, from its cache or by the fallback, is a valid profile.
pub resolve-IsValid :
    (r : CapabilityRegistry) (id model : Text) (now : ℕ)
    → IsWellFormed r
    → IsValid (resolve r id model now).profile
unfolding resolve
resolve-IsValid r id model now w =
    resolve_at-IsValid (lookup r.providers id) model now
      (λ provider e. lookup-Values (λ p. Values IsValid p.models) r.providers id provider w.valid e)

served :
    (d : CapabilityDiscoveryDocument) (now later : ℕ) (model : Text) (profile : CapabilityProfile)
    → lookup d.models model ≡ some profile
    → now + max_discovery_ttl_seconds ≤ i64_max
    → (later < now + clamp_ttl d.ttl_seconds
        → resolve_at (some (cached d now)) model later
          ≡ record { profile = profile; source = cached_discovery })
      × (now + clamp_ttl d.ttl_seconds ≤ later
          → resolve_at (some (cached d now)) model later
            ≡ record { profile = default_profile; source = conservative_fallback })
unfolding resolve_at cached clamp_ttl
served d now later model profile found small =
    (λ h. ground (arith, found, small, h), λ h. ground (arith, small, h))

-- After a successful registration every model of the document resolves to its profile until the
-- clamped lifetime is over, and from then on to the conservative fallback.
pub register-resolve :
    (r : CapabilityRegistry) (id model : Text) (d : CapabilityDiscoveryDocument)
    (now later count : ℕ) (r' : CapabilityRegistry) (profile : CapabilityProfile)
    → register_document r id d now ≡ ok (count, r')
    → lookup d.models model ≡ some profile
    → now + max_discovery_ttl_seconds ≤ i64_max
    → (later < now + clamp_ttl d.ttl_seconds
        → resolve r' id model later ≡ record { profile = profile; source = cached_discovery })
      × (now + clamp_ttl d.ttl_seconds ≤ later
          → resolve r' id model later
            ≡ record { profile = default_profile; source = conservative_fallback })
unfolding resolve
register-resolve r id model d now later count r' profile h found small =
    let (v, e) = register-parts r id d now h in
    let same : r' ≡ record { providers = put r.providers id (cached d now) } = ap (λ p. p.1) e in
    let at : lookup r'.providers id ≡ some (cached d now) =
      ap (λ q. lookup q.providers id) same ∙ lookup-put r.providers id (cached d now) in
    rw at (served d now later model profile found small)

abbrev fresh_only : ℕ → Option CachedProviderCapabilities → Option CachedProviderCapabilities
fresh_only now none = none
fresh_only now (some p) = if ltb now p.expires_at_unix then some p else none

lookup-retain_fresh :
    (now : ℕ) (providers : List (Text × CachedProviderCapabilities)) (id : Text)
    → DistinctKeys providers
    → lookup (retain_fresh now providers) id ≡ fresh_only now (lookup providers id)
unfolding lookup retain_fresh
lookup-retain_fresh now [] id w = refl
lookup-retain_fresh now ((k, p) ∷ rest) id w =
    ground (arith, lookup-retain_fresh now rest id w.1, eq_of_text_eq k id, w.0, ap (lookup rest))

fresh_only-resolve_at :
    (now later : ℕ) (o : Option CachedProviderCapabilities) (model : Text)
    → now ≤ later
    → resolve_at (fresh_only now o) model later ≡ resolve_at o model later
unfolding resolve_at
fresh_only-resolve_at now later none model h = refl
fresh_only-resolve_at now later (some p) model h = ground (arith, h)

-- Removing the expired providers changes no answer, now or later.
pub remove_expired-resolve :
    (r : CapabilityRegistry) (id model : Text) (now later : ℕ)
    → IsWellFormed r
    → now ≤ later
    → resolve (remove_expired r now).1 id model later ≡ resolve r id model later
unfolding resolve remove_expired
remove_expired-resolve r id model now later w h =
    ap (λ o. resolve_at o model later) (lookup-retain_fresh now r.providers id w.distinct)
    ∙ fresh_only-resolve_at now later (lookup r.providers id) model h

retain_fresh-absent :
    (now : ℕ) (providers : List (Text × CachedProviderCapabilities)) (id : Text)
    → lookup providers id ≡ none
    → lookup (retain_fresh now providers) id ≡ none
unfolding lookup retain_fresh
retain_fresh-absent now [] id h = refl
retain_fresh-absent now ((k, p) ∷ rest) id h = ground (arith, h, retain_fresh-absent now rest id)

retain_fresh-DistinctKeys :
    (now : ℕ) (providers : List (Text × CachedProviderCapabilities))
    → DistinctKeys providers
    → DistinctKeys (retain_fresh now providers)
unfolding retain_fresh
retain_fresh-DistinctKeys now [] w = tt
retain_fresh-DistinctKeys now ((k, p) ∷ rest) w = elim (Bool-cases (ltb now p.expires_at_unix)) [
  | inl e ↦ rw e (retain_fresh-absent now rest k w.0, retain_fresh-DistinctKeys now rest w.1)
  | inr e ↦ rw e (retain_fresh-DistinctKeys now rest w.1)
]

retain_fresh-Values {κ} :
    (P : CachedProviderCapabilities → Type κ) (now : ℕ)
    (providers : List (Text × CachedProviderCapabilities))
    → Values P providers
    → Values P (retain_fresh now providers)
unfolding retain_fresh
retain_fresh-Values P now [] v = tt
retain_fresh-Values P now ((k, p) ∷ rest) v = elim (Bool-cases (ltb now p.expires_at_unix)) [
  | inl e ↦ rw e (v.0, retain_fresh-Values P now rest v.1)
  | inr e ↦ rw e (retain_fresh-Values P now rest v.1)
]

-- Removing the expired providers keeps the registry well formed.
remove_expired-IsWellFormed :
    (r : CapabilityRegistry) (now : ℕ) → IsWellFormed r → IsWellFormed (remove_expired r now).1
unfolding remove_expired
remove_expired-IsWellFormed r now w = record {
  distinct = retain_fresh-DistinctKeys now r.providers w.distinct;
  valid = retain_fresh-Values (λ provider. Values IsValid provider.models) now r.providers w.valid;
}
