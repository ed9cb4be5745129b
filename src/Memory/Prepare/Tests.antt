-- ===== src/Memory/Prepare/Tests.antt =====
-- A patch that creates a memory, and instances of the theorems.
use momo_core.Prelude.{
  ℕ, ◌≡◌, refl, Bool, true, false, ◌||◌, Option, none, some, List, [], ◌∷◌, ◌++◌, Text, codes,
  text_eq, leb, ◌&&◌, if◌then◌else◌, ok,
}
use momo_core.Ddm.Tests.{hundredths}
use momo_core.Commit.Transaction.{FileMutation, write}
use momo_core.Memory.Times.{pos}
use momo_core.Memory.Metadata.{active}
use momo_core.Memory.Access.{AccessConfig}
use momo_core.Memory.Terms.{Unicode, searchable_terms}
use momo_core.Memory.Operations.{create}
use momo_core.Memory.Escapes.{
  escape_quoted_content_backslashes, escape_unknown_double_quoted_yaml_escapes,
}
use momo_core.Memory.Escapes.Settled.{escape_unknown_idempotent}
use momo_core.Memory.Tests.{one_memory, scene_body, stored}
use momo_core.Memory.Patches.{Formats}
use momo_core.Memory.Prepare.{load_access, prepare_patch}
use momo_core.Memory.Prepare.Managed.{IsPlan, prepare_patch-IsPlan}

quoted_run :
    escape_quoted_content_backslashes (codes "- content: \"a\\d\\n\"\n")
    ≡ codes "- content: \"a\\\\d\\\\n\"\n"
unfolding escape_quoted_content_backslashes
quoted_run = refl

unknown_run :
    escape_unknown_double_quoted_yaml_escapes (codes "x: \"\\d\\n\" \\d")
    ≡ codes "x: \"\\\\d\\n\" \\d"
unfolding escape_unknown_double_quoted_yaml_escapes
unknown_run = refl

escape_unknown_idempotent_example :
    escape_unknown_double_quoted_yaml_escapes
      (escape_unknown_double_quoted_yaml_escapes (codes "x: \"\\d\""))
    ≡ escape_unknown_double_quoted_yaml_escapes (codes "x: \"\\d\"")
escape_unknown_idempotent_example = escape_unknown_idempotent (codes "x: \"\\d\"")

abbrev unicode : Unicode
unicode = record {
  nfkc = λ text. text;
  to_lowercase = λ text. text;
  is_alphanumeric = λ c. leb 97 c && leb c 122 || leb 128 c;
}

terms_run :
    searchable_terms unicode (codes "tea and日本酒 tea")
    ≡ codes "tea" ∷ codes "and" ∷ codes "日本" ∷ codes "本酒" ∷ []
unfolding searchable_terms momo_core.Prelude.all momo_core.Prelude.member text_eq
terms_run = refl

abbrev access : AccessConfig
access = record {
  version = 1;
  read = [];
  write = codes "event" ∷ [];
  allow_archive_restore = false;
}

abbrev formats : Formats hundredths
formats = record {
  metadata = one_memory;
  patches = λ text. some (
      record {
        target_file = codes "events/party.md";
        operations =
            create
              (record {
                id = codes "party";
                kind = codes "event";
                importance = 50;
                weight = 90;
                decay_at = pos 5;
                relations = [];
                tags = [];
                aliases = [];
                injection_scope = none;
                injection_conversation_id = none;
                injection_character_id = none;
                status = active;
              })
              scene_body
            ∷ [];
      }
      ∷ []);
  access = λ text. some access;
  index = λ text. none;
  index_text = λ index. some (codes "index");
}

abbrev files : Text → Option Text
files path = if text_eq path (codes "config/access.yaml") then some (codes "access") else none

abbrev refused : Text → Bool
refused path = false

abbrev changes : List FileMutation
changes =
    write (codes "events/party.md") stored
    ∷ write (codes "indexes/memory_index.yaml") (codes "index")
    ∷ []

prepare_run :
    prepare_patch hundredths formats unicode refused [] files (pos 9) (codes "patches: …")
    ≡ ok changes
unfolding prepare_patch text_eq momo_core.Prelude.all momo_core.Prelude.member
    momo_core.Memory.Components.extension
prepare_run = refl

prepare_patch-IsPlan_example :
    (access : AccessConfig) × (load_access hundredths formats unicode refused [] files (pos 9)
      ≡ ok access)
    × IsPlan hundredths formats unicode refused [] files (pos 9) access changes
prepare_patch-IsPlan_example =
    prepare_patch-IsPlan hundredths formats unicode refused [] files (pos 9) (codes "patches: …")
      changes prepare_run
