-- ===== src/Memory/Prepare/Managed.antt =====
-- Which files a patch can change.
use momo_core.Prelude.{
  ◌≡◌, refl, sym, ap, ◌∙◌, subst, Bool, true, false, not, ◌⊎◌, inl, inr, Option, some, List, [],
  ◌∷◌, ◌++◌, Text, codes, All, ◌>>◌, if◌then◌else◌, member, text_eq, eq_of_text_eq, arith, ok,
  unless, >>=-ok, >>-ok, ok-injective,
}
use momo_core.Ddm.Profile.{Double}
use momo_core.Commit.Transaction.{Files, FileMutation, write}
use momo_core.Memory.Times.{ℤ}
use momo_core.Memory.Components.{PathBuf, components}
use momo_core.Memory.Metadata.{
  unsafe_path, wrong_type, access_denied, duplicate_target, Metadata, MemoryDocument,
  validate_metadata,
}
use momo_core.Memory.Paths.{
  ok_or, validate_relative, validate_patch_target, expected_kind_for_path,
  validate_document_location,
}
use momo_core.Memory.Archive.{ok_or-ok}
use momo_core.Memory.Access.{AccessConfig, can_write, require_write}
use momo_core.Memory.Terms.{Unicode}
use momo_core.Memory.Index.{MemoryIndex, portable_path, update_index_entry}
use momo_core.Memory.Document.{encode}
use momo_core.Memory.Patches.{
  FilePatch, Formats, touched_at, is_created, check_created, index_path, encode_index,
  parse_patch_document,
}
use momo_core.Memory.Prepare.{
  resolve, patched_document, prepare_item, prepare_items, load_access, load_index_for_rebuild,
  build_index_data, prepare_patches, prepare_patch,
}

unless-false : {E : Type 0} (b : Bool) (x : E) {u : Unit {0}} → unless b x ≡ ok u → b ≡ false
unless-false false x h = refl
unless-false true x h = absurd (ground (arith, h))

require_write-allowed :
    (access : AccessConfig) (kind : Text) {u : Unit {0}}
    → require_write access kind ≡ ok u
    → can_write access kind ≡ true
unfolding require_write
require_write-allowed access kind h =
    ground (arith, unless-false (not (can_write access kind)) (access_denied kind) h)

some-injective : {a b : Text} → ◌≡◌ {A = Option Text} (some a) (some b) → a ≡ b
some-injective h = cc

-- A document stands where one of its kind may stand, with valid metadata.
validate_document_location-kind :
    (f64 : Double) (relative : PathBuf) (metadata : Metadata f64) {u : Unit {0}}
    → validate_document_location f64 relative metadata ≡ ok u
    → (validate_metadata f64 metadata ≡ ok tt)
      × (expected_kind_for_path relative ≡ some metadata.kind)
unfolding validate_document_location
validate_document_location-kind f64 relative metadata h =
    let (valid, h1) = >>-ok (validate_metadata f64 metadata) _ h in
    let (kind, e, h2) =
      >>=-ok (ok_or (expected_kind_for_path relative) (unsafe_path relative)) _ h1 in
    let same : text_eq metadata.kind kind ≡ true =
      ground
        (arith, unless-false (not (text_eq metadata.kind kind)) (wrong_type metadata.kind) h2) in
    (valid, ok_or-ok _ _ e ∙ ap some (sym (eq_of_text_eq metadata.kind kind same)))

module _ (f64 : Double) (formats : Formats f64) (unicode : Unicode) (refused : Text → Bool)
    (walked : List PathBuf) (files : Files) (now : ℤ) where
  -- A change that writes a document where documents of its kind stand, for a kind that may be written.
  pub record IsManaged (access : AccessConfig) (mutation : FileMutation) : Type 0 where
    pub relative : PathBuf
    pub document : MemoryDocument f64
    pub content : Text
    pub change : mutation ≡ write (portable_path relative) content
    pub encoded : encode formats.metadata document ≡ ok content
    pub target : validate_patch_target relative ≡ ok tt
    pub reached : refused (portable_path relative) ≡ false
    pub valid : validate_metadata f64 document.metadata ≡ ok tt
    pub located : expected_kind_for_path relative ≡ some document.metadata.kind
    pub allowed : can_write access document.metadata.kind ≡ true

  resolve-path :
      (relative : PathBuf) {path : Text}
      → resolve f64 formats unicode refused walked files now relative ≡ ok path
      → (refused (portable_path relative) ≡ false) × (path ≡ portable_path relative)
  unfolding resolve
  resolve-path relative {path} h =
      let free = unless (refused (portable_path relative)) (unsafe_path relative) in
      let (both, h1) = >>-ok (validate_relative relative >> free) _ h in
      let (u, passed) = >>-ok (validate_relative relative) free both in
      (
        unless-false (refused (portable_path relative)) (unsafe_path relative) passed,
        sym (ok-injective h1),
      )

  prepare_item-IsManaged :
      (access : AccessConfig) (index next : MemoryIndex) (item : FilePatch f64)
      (mutation : FileMutation)
      → prepare_item f64 formats unicode refused walked files now access index item
        ≡ ok (next, mutation)
      → IsManaged access mutation
  unfolding prepare_item
  prepare_item-IsManaged access index next item mutation h =
      let relative = components item.target_file in
      let (u, target, h1) = >>=-ok (validate_patch_target relative) _ h in
      let (kind, k, h2) =
        >>=-ok (ok_or (expected_kind_for_path relative) (unsafe_path relative)) _ h1 in
      let (v, allowed, h3) = >>=-ok (require_write access kind) _ h2 in
      let (path, p, h4) =
        >>=-ok (resolve f64 formats unicode refused walked files now relative) _ h3 in
      let ((replayed, patched), d, h5) =
        >>=-ok
          (patched_document f64 formats unicode refused walked files now relative item.operations) _
          h4 in
      let document = if replayed then patched else touched_at f64 now patched in
      let (w, l, h6) = >>=-ok (validate_document_location f64 relative document.metadata) _ h5 in
      let (x, c, h7) =
        >>=-ok (check_created f64 (is_created f64 item.operations) replayed index document.metadata)
          _ h6 in
      let (last, i, h8) = >>=-ok (update_index_entry unicode index relative document) _ h7 in
      let (content, e, h9) = >>=-ok (encode formats.metadata document) _ h8 in
      let (valid, located) = validate_document_location-kind f64 relative document.metadata l in
      let (reached, same) = resolve-path relative p in
      record {
        relative = relative;
        document = document;
        content = content;
        change = sym (ap (λ r. r.1) (ok-injective h9)) ∙ ap (λ q. write q content) same;
        encoded = e;
        target = target;
        reached = reached;
        valid = valid;
        located = located;
        allowed =
            subst (λ k. can_write access k ≡ true) (some-injective (sym (ok_or-ok _ _ k) ∙ located))
              (require_write-allowed access kind allowed);
      }

  prepare_items-IsManaged :
      (access : AccessConfig) (items : List (FilePatch f64)) (touched : List Text)
      (index last : MemoryIndex) (mutations : List FileMutation)
      → prepare_items f64 formats unicode refused walked files now access touched index items
        ≡ ok (last, mutations)
      → All (IsManaged access) mutations
  unfolding prepare_items
  prepare_items-IsManaged access [] touched index last mutations h =
      subst (All (IsManaged access)) (ap (λ r. r.1) (ok-injective h)) tt
  prepare_items-IsManaged access (item ∷ rest) touched index last mutations h =
      let (u, once, h1) = >>=-ok (unless (member touched item.target_file) duplicate_target) _ h in
      let ((next, mutation), one, h2) =
        >>=-ok (prepare_item f64 formats unicode refused walked files now access index item) _ h1 in
      let ((final, more), all, h3) =
        >>=-ok
          (prepare_items f64 formats unicode refused walked files now access
            (item.target_file ∷ touched) next rest)
          _ h2 in
      subst (All (IsManaged access)) (ap (λ r. r.1) (ok-injective h3)) (
        prepare_item-IsManaged access index next item mutation one,
        prepare_items-IsManaged access rest (item.target_file ∷ touched) next final more all,
      )

  -- Nothing, or changes of documents and then of the index.
  abbrev pub IsPlan : AccessConfig → List FileMutation → Type 0
  IsPlan access mutations =
      (mutations ≡ [])
      ⊎ ((writes : List FileMutation) × (text : Text) × (mutations
            ≡ writes ++ write (codes "indexes/memory_index.yaml") text ∷ [])
          × All (IsManaged access) writes)

  prepare_patches-IsPlan :
      (access : AccessConfig) (patches : List (FilePatch f64)) (mutations : List FileMutation)
      → prepare_patches f64 formats unicode refused walked files now access patches ≡ ok mutations
      → IsPlan access mutations
  unfolding prepare_patches portable_path
  prepare_patches-IsPlan access [] mutations h = inl (sym (ok-injective h))
  prepare_patches-IsPlan access (item ∷ rest) mutations h =
      let (existing, e, h1) =
        >>=-ok (load_index_for_rebuild f64 formats unicode refused walked files now) _ h in
      let (index, i, h2) =
        >>=-ok (build_index_data f64 formats unicode refused walked files now existing) _ h1 in
      let ((last, writes), w, h3) =
        >>=-ok
          (prepare_items f64 formats unicode refused walked files now access [] index (item ∷ rest))
          _ h2 in
      let (path, p, h4) =
        >>=-ok (resolve f64 formats unicode refused walked files now index_path) _ h3 in
      let (text, t, h5) = >>=-ok (encode_index f64 formats last) _ h4 in
      let (_, same) = resolve-path index_path p in
      inr (
        writes,
        text,
        sym (ok-injective h5) ∙ ap (λ q. writes ++ write q text ∷ []) same,
        prepare_items-IsManaged access (item ∷ rest) [] index last writes w,
      )

  -- A patch that is accepted changes nothing, or it changes the index and, before that, documents:
  -- each is written whole, as its own text, to a Markdown file in the directory of its kind, which
  -- no link leads to, with metadata that is valid and of a kind that the configuration of the
  -- workspace lets a plan write.
  pub prepare_patch-IsPlan :
      (patch : Text) (mutations : List FileMutation)
      → prepare_patch f64 formats unicode refused walked files now patch ≡ ok mutations
      → (access : AccessConfig) × (load_access f64 formats unicode refused walked files now
          ≡ ok access)
        × IsPlan access mutations
  unfolding prepare_patch
  prepare_patch-IsPlan patch mutations h =
      let (access, a, h1) = >>=-ok (load_access f64 formats unicode refused walked files now) _ h in
      let (patches, q, h2) = >>=-ok (parse_patch_document f64 formats patch) _ h1 in
      (access, a, prepare_patches-IsPlan access patches mutations h2)
