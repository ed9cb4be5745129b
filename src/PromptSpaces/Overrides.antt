-- ===== src/PromptSpaces/Overrides.antt =====
-- prompt_spaces.rs: what a replacement does, and that what a registry holds can be loaded again.
use momo_core.Prelude.{
  ◌≡◌, refl, sym, ap, ◌∙◌, subst, ◌↔◌, false, Bool-cases, inl, inr, Option, none, some, Text,
  text_eq, text_eq_iff, arith, ok, >>-ok, >>=-ok, ok-injective, Outcome, unless, not,
}
use momo_core.PromptSpaces.Registry.{
  PromptSpaceId, same_id, PromptSpace, builtin, Overrides, insert, validate_content,
  PromptSpacesError, assistant, vision_fallback, roleplay_director, memory_distillation,
  semantic_graph_governance, ddm_profile_generation, all_ids, no_overrides, validate_at,
  validate_each, load_or_default, prompt_spaces_schema, Product, prompt_space, get, replaced,
  replace,
}
use momo_core.PromptSpaces.Names.{same_id_refl}

insert-own :
    (overrides : Overrides) (id : PromptSpaceId) (c : Option Text) → insert overrides id c id ≡ c
insert-own overrides id c = rw (same_id_refl id) refl

validate_content-any :
    (id other : PromptSpaceId) (content : Text)
    → validate_content id content ≡ ok tt
    → validate_content other content ≡ ok tt
unfolding validate_content
validate_content-any id other content h = ground (arith, h)

abbrev AllValid : Overrides → Type 0
AllValid overrides = (id : PromptSpaceId) → validate_at id (overrides id) ≡ ok tt

validate_each-all :
    (overrides : Overrides) → validate_each all_ids overrides ≡ ok tt → AllValid overrides
unfolding validate_each
validate_each-all overrides h id =
    let (v1, h1) = >>-ok (validate_at assistant (overrides assistant)) _ h in
    let (v2, h2) = >>-ok (validate_at vision_fallback (overrides vision_fallback)) _ h1 in
    let (v3, h3) = >>-ok (validate_at roleplay_director (overrides roleplay_director)) _ h2 in
    let (v4, h4) = >>-ok (validate_at memory_distillation (overrides memory_distillation)) _ h3 in
    let (v5, h5) =
      >>-ok (validate_at semantic_graph_governance (overrides semantic_graph_governance)) _ h4 in
    let (v6, _) =
      >>-ok (validate_at ddm_profile_generation (overrides ddm_profile_generation)) _ h5 in
    elim id as (λ i. validate_at i (overrides i) ≡ ok tt) [
      | assistant ↦ v1
      | vision_fallback ↦ v2
      | roleplay_director ↦ v3
      | memory_distillation ↦ v4
      | semantic_graph_governance ↦ v5
      | ddm_profile_generation ↦ v6
    ]

load_or_default-valid :
    (stored : Option (Outcome PromptSpacesError (Text × Overrides))) (overrides : Overrides)
    → load_or_default stored ≡ ok overrides
    → AllValid overrides
unfolding load_or_default validate_each
load_or_default-valid none overrides h id =
    subst (λ o. validate_at id (o id) ≡ ok tt) (ok-injective h) refl
load_or_default-valid (some read) overrides h id =
    let ((schema, stored), _, p) = >>=-ok read _ h in
    let (_, q) = >>-ok (unless (not (text_eq schema prompt_spaces_schema)) _) _ p in
    let (v, w) = >>-ok (validate_each all_ids stored) _ q in
    subst (λ o. validate_at id (o id) ≡ ok tt) (ok-injective w) (validate_each-all stored v id)

module _ (product : Product) where
  -- The overrides of a registry in memory or loaded, after any number of replacements.
  pub data Reachable : Overrides → Type 0 where
    in_memory : Reachable no_overrides
    loaded :
        (stored : Option (Outcome PromptSpacesError (Text × Overrides))) (overrides : Overrides)
        → load_or_default stored ≡ ok overrides
        → Reachable overrides
    after_replace :
        (overrides : Overrides) (id : PromptSpaceId) (content : Text) (next : Overrides)
        (shown : PromptSpace)
        → Reachable overrides
        → replace product overrides id content ≡ ok (next, shown)
        → Reachable next

  -- What a successful replacement shows.
  pub record IsReplaced (overrides : Overrides) (id : PromptSpaceId) (content : Text)
      (next : Overrides) (shown : PromptSpace) : Type 0 where
    pub accepted : validate_content id content ≡ ok tt
    pub answer : shown ≡ get product next id
    pub held : shown.content ≡ content
    pub source : (shown.source ≡ builtin) ↔ (content ≡ product.default_content id)
    pub revised : shown.revision ≡ product.digest content
    pub others :
        (other : PromptSpaceId)
        → same_id other id ≡ false
        → get product next other ≡ get product overrides other

  insert-IsReplaced :
      (overrides : Overrides) (id : PromptSpaceId) (content : Text) (c : Option Text)
      → validate_content id content ≡ ok tt
      → (prompt_space product id c).content ≡ content
      → ((prompt_space product id c).source ≡ builtin) ↔ (content ≡ product.default_content id)
      → (prompt_space product id c).revision ≡ product.digest content
      → IsReplaced overrides id content
          (insert overrides id c)
          (prompt_space product id (insert overrides id c id))
  unfolding get
  insert-IsReplaced overrides id content c v held source revised =
      let own = insert-own overrides id c in
      record {
        accepted = v;
        answer = refl;
        held = ap (λ o. (prompt_space product id o).content) own ∙ held;
        source =
            subst
              (λ o.
                ((prompt_space product id o).source ≡ builtin)
                ↔ (content ≡ product.default_content id))
              (sym own) source;
        revised = ap (λ o. (prompt_space product id o).revision) own ∙ revised;
        others = λ other apart. rw apart refl;
      }

  replaced-IsReplaced :
      (overrides : Overrides) (id : PromptSpaceId) (content : Text)
      → validate_content id content ≡ ok tt
      → IsReplaced overrides id content
          (replaced product overrides id content)
          (prompt_space product id (replaced product overrides id content id))
  unfolding prompt_space
  replaced-IsReplaced overrides id content v =
      let iff = text_eq_iff content (product.default_content id) in
      elim (Bool-cases (text_eq content (product.default_content id))) [
        | inl e ↦
            let same = iff.0 e in
            rw e (
              insert-IsReplaced overrides id content none v (sym same) (λ h. same, λ h. refl)
                (ap product.digest (sym same)))
        | inr e ↦ rw e (
            insert-IsReplaced overrides id content (some content) v refl
              (λ h. absurd (ground (arith, h)), λ h. absurd (ground (arith, e, iff.1 h))) refl)
      ]

  replaced-valid :
      (overrides : Overrides) (id : PromptSpaceId) (content : Text)
      → validate_content id content ≡ ok tt
      → AllValid overrides
      → AllValid (replaced product overrides id content)
  replaced-valid overrides id content v h other =
      let any = validate_content-any id other content v in
      elim (Bool-cases (text_eq content (product.default_content id))) [
        | inl e ↦ elim (Bool-cases (same_id other id)) [
          | inl s ↦ rw (e, s) refl
          | inr s ↦ rw (e, s) (h other)
        ]
        | inr e ↦ elim (Bool-cases (same_id other id)) [
          | inl s ↦ rw (e, s) any
          | inr s ↦ rw (e, s) (h other)
        ]
      ]

  replace-steps :
      (overrides : Overrides) (id : PromptSpaceId) (content : Text) (next : Overrides)
      (shown : PromptSpace)
      → replace product overrides id content ≡ ok (next, shown)
      → (validate_content id content ≡ ok tt)
        × (product.persist next ≡ ok tt)
        × ◌≡◌ {A = Overrides × PromptSpace}
            (
              replaced product overrides id content,
              prompt_space product id (replaced product overrides id content id),
            )
            (next, shown)
  unfolding replace
  replace-steps overrides id content next shown h =
      let (v, p) = >>-ok (validate_content id content) _ h in
      let (w, q) = >>-ok (product.persist (replaced product overrides id content)) _ p in
      let same = ok-injective q in (v, subst (λ x. product.persist x.0 ≡ ok tt) same w, same)

  -- A successful replacement had valid content, and what it answers is what is read afterwards: the
  -- content with its digest, from the product itself exactly if it is the default. The other prompts
  -- are read as before.
  pub replace-IsReplaced :
      (overrides : Overrides) (id : PromptSpaceId) (content : Text) (next : Overrides)
      (shown : PromptSpace)
      → replace product overrides id content ≡ ok (next, shown)
      → IsReplaced overrides id content next shown
  replace-IsReplaced overrides id content next shown h =
      let (v, _, same) = replace-steps overrides id content next shown h in
      subst (λ x. IsReplaced overrides id content x.0 x.1) same
        (replaced-IsReplaced overrides id content v)

  Reachable-valid : {overrides : Overrides} → Reachable overrides → AllValid overrides
  Reachable-valid in_memory id = refl
  Reachable-valid (loaded stored overrides h) id = load_or_default-valid stored overrides h id
  Reachable-valid (after_replace overrides id content next shown r h) other =
      let (v, _, same) = replace-steps overrides id content next shown h in
      subst (λ x. validate_at other (x.0 other) ≡ ok tt) same
        (replaced-valid overrides id content v (λ i. Reachable-valid r i) other)

  -- Whatever a registry has loaded and replaced, its overrides are valid content, and a file that
  -- holds them under the current schema is loaded as the same overrides.
  pub Reachable-reload :
      (overrides : Overrides) (id : PromptSpaceId)
      → Reachable overrides
      → (validate_at id (overrides id) ≡ ok tt)
        × (load_or_default (some (ok (prompt_spaces_schema, overrides))) ≡ ok overrides)
  unfolding load_or_default validate_each text_eq
  Reachable-reload overrides id r =
      let valid = Reachable-valid r in
      (
        valid id,
        rw
            (
              valid assistant,
              valid vision_fallback,
              valid roleplay_director,
              valid memory_distillation,
              valid semantic_graph_governance,
              valid ddm_profile_generation,
            )
            refl,
      )
