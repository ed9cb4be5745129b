-- ===== src/Memory/Tests.antt =====
-- A scene that is edited and a memory that is archived, and instances of the theorems.
use momo_core.Prelude.{
  if◌then◌else◌, ℕ, ◌≡◌, ◌↔◌, refl, subst, contains_text, Bool, true, false, Option, none, some,
  List, [], ◌∷◌, ◌++◌, Text, codes, any, trim, text_eq, Succeeds, arith, ok, err,
}
use momo_core.Ddm.Tests.{hundredths}
use momo_core.Memory.Times.{pos}
use momo_core.Memory.Components.{PathBuf, normal, components}
use momo_core.Memory.Metadata.{
  missing_section, panic, active, Metadata, MemoryDocument, validate_metadata,
}
use momo_core.Memory.Paths.{archive_path_for, active_path_for, validate_patch_target}
use momo_core.Memory.Archive.{archive_path_for-active_path_for}
use momo_core.Memory.Section.{newline, mark, lines, mutate_section}
use momo_core.Memory.Section.Frame.{mutate_section-total}
use momo_core.Memory.Operations.{
  append, update_frontmatter, MetadataUpdate, PatchOperation, apply_operations,
}
use momo_core.Memory.Operations.Kept.{IsKept, apply_operations-IsKept}
use momo_core.Memory.Document.{Yaml, fence, trim_start_matches, encode, parse}
use momo_core.Memory.Document.RoundTrip.{IsFaithful, parse-encode}

abbrev pub scene_body : Text
scene_body = codes "# Scene\n\n## Focus\ntea\n\n## Status\nactive\n"

abbrev scene_after : Text
scene_after = codes "# Scene\n\n## Focus\ntea\ncake\n## Status\nactive\n"

append_again : mutate_section scene_after (codes "Focus") (codes "cake") false ≡ ok scene_after
unfolding mutate_section text_eq
append_again = refl

replace_run :
    mutate_section scene_body (codes "Status") (codes "closed") true
    ≡ ok (codes "# Scene\n\n## Focus\ntea\n\n## Status\nclosed\n")
unfolding mutate_section text_eq
replace_run = refl

-- `lines` drops the carriage return that the offset does not count.
panic_run : mutate_section (codes "\r\n## é") (codes "é") (codes "x") true ≡ err panic
unfolding mutate_section text_eq
panic_run = refl

mutate_section-total_example :
    (result : Text) × (mutate_section scene_body (codes "Mood") (codes "calm") true ≡ (
      if any (λ line. text_eq line (mark ++ trim (codes "Mood"))) (lines scene_body)
      then ok result
      else err (missing_section (codes "Mood"))))
mutate_section-total_example =
    mutate_section-total scene_body (codes "Mood") (codes "calm") true (ground arith)

abbrev party : PathBuf
party = normal (codes "events") ∷ normal (codes "party.md") ∷ []

abbrev old_party : PathBuf
old_party = normal (codes "archive") ∷ normal (codes "event") ∷ normal (codes "party.md") ∷ []

components_run : components (codes "events//./party.md") ≡ party
unfolding components text_eq
components_run = refl

target_run : validate_patch_target party ≡ ok tt
unfolding validate_patch_target any momo_core.Memory.Components.extension text_eq
    momo_core.Prelude.member
target_run = refl

archive_run : archive_path_for party (codes "event") ≡ ok old_party
unfolding archive_path_for text_eq
archive_run = refl

archive_path_for-active_path_for_example :
    (archive_path_for party (codes "event") ≡ ok old_party)
    ↔ (active_path_for old_party (codes "event") ≡ ok party)
archive_path_for-active_path_for_example =
    archive_path_for-active_path_for party old_party (codes "event")

abbrev metadata : Metadata hundredths
metadata = record {
  id = codes "party";
  kind = codes "event";
  importance = some 50;
  weight = some 90;
  touch_at = pos 7;
  decay_at = some (pos 5);
  archived_at = none;
  relations = [];
  tags = [];
  aliases = [];
  injection_scope = none;
  injection_conversation_id = none;
  injection_character_id = none;
  status = active;
}

abbrev document : MemoryDocument hundredths
document = record { metadata = metadata; body = scene_body }

abbrev fainter : MetadataUpdate hundredths
fainter = record {
  importance = none;
  weight = some 80;
  decay_at = none;
  relations = none;
  tags = none;
  aliases = none;
  injection_scope = none;
  injection_conversation_id = none;
  injection_character_id = none;
  status = none;
}

abbrev edits : List (PatchOperation hundredths)
edits = append (codes "Focus") (codes "cake") ∷ update_frontmatter fainter ∷ []

abbrev edited : MemoryDocument hundredths
edited = record { metadata = record metadata { weight = some 80 }; body = scene_after }

metadata_run : validate_metadata hundredths metadata ≡ ok tt
unfolding validate_metadata trim momo_core.Prelude.member text_eq
metadata_run = refl

edits_run : apply_operations hundredths document edits ≡ ok edited
unfolding apply_operations text_eq momo_core.Prelude.member
edits_run = refl

apply_operations-IsKept_example :
    IsKept metadata edited.metadata × (validate_metadata hundredths edited.metadata ≡ ok tt)
apply_operations-IsKept_example =
    apply_operations-IsKept edits document edited metadata_run edits_run

-- It writes the name, and reads the one memory.
abbrev pub one_memory : Yaml hundredths
one_memory = record {
  from_str = λ text. some metadata;
  to_string = λ m. some (codes "id: party\n");
}

one_memory-IsFaithful : IsFaithful one_memory metadata
unfolding trim_start_matches contains_text
one_memory-IsFaithful = record {
  front = codes "id: party";
  ends = λ text h.
      let q : codes "id: party\n" ≡ text = cc in
      subst (λ t. trim_start_matches fence t ≡ codes "id: party" ++ newline) q refl;
  reads = refl;
  clean = ground arith;
  unfenced = refl;
}

abbrev pub stored : Text
stored = codes "---\nid: party\n---\n" ++ scene_body

encode_run : encode one_memory document ≡ ok stored
unfolding encode trim momo_core.Prelude.member text_eq
encode_run = refl

parse-encode_example : parse one_memory stored ≡ ok document
parse-encode_example =
    parse-encode one_memory document stored one_memory-IsFaithful (ground arith) encode_run
