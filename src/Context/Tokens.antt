-- ===== src/Context/Tokens.antt =====
-- context.rs: the records of the budgeter and the conservative token estimate.
use native.Mathlib.Nat.{add-zero}
use momo_core.Prelude.{
  ℕ, ◌+◌, ◌≤◌, ◌<◌, ◌≡◌, ◌/◌, min, Bool, List, [], ◌∷◌, ◌++◌, arith, ltb, if◌then◌else◌, Text,
  sat_add, div_ceil, usize_max,
}

pub data MessageRole : Type 0 where
  system user assistant : MessageRole

pub record ChatInput : Type 0 where
  pub role : MessageRole
  pub content : Text

pub record ContextBudget : Type 0 where
  pub context_window : ℕ
  pub reserve_output_tokens : ℕ

pub record ContextSectionAudit : Type 0 where
  pub section : Text
  pub original_tokens : ℕ
  pub injected_tokens : ℕ
  pub truncated : Bool
  pub omitted : Bool

pub record PreparedContext : Type 0 where
  pub messages : List ChatInput
  pub estimated_input_tokens : ℕ
  pub omitted_messages : ℕ
  pub truncated_messages : ℕ
  pub section_audit : List ContextSectionAudit

pub record ContextSections : Type 0 where
  pub runtime_instructions : Text
  pub roleplay_director : Text
  pub character : Text
  pub user : Text
  pub memory : Text
  pub state : Text
  pub semantic_graph : Text

pub record ContextRequest : Type 0 where
  pub sections : ContextSections
  pub messages : List ChatInput
  pub budget : ContextBudget

-- The loop of `estimate_text_tokens`, with its two counters.
unfoldable pub estimate_from : ℕ → ℕ → Text → ℕ
estimate_from ascii_units non_ascii [] = sat_add (div_ceil ascii_units 4) non_ascii
estimate_from ascii_units non_ascii (character ∷ rest) =
    estimate_from (if ltb character 128 then ascii_units + 1 else ascii_units)
      (if ltb character 128 then non_ascii else non_ascii + 1) rest

unfoldable pub estimate_text_tokens : Text → ℕ
unfolding estimate_from
estimate_text_tokens value = estimate_from 0 0 value

unfoldable pub estimate_message_tokens_with : ChatInput → (Text → ℕ) → ℕ
estimate_message_tokens_with message counter = sat_add (counter message.content) 6

-- A counter that charges for every nonempty text and for nothing else.
pub record IsCounter (counter : Text → ℕ) : Type 0 where
  pub empty : counter [] ≡ 0
  pub positive : (c : ℕ) (s : Text) → 0 < counter (c ∷ s)

-- How many characters are ASCII, and how many are not.
unfoldable pub ascii_count : Text → ℕ
ascii_count [] = 0
ascii_count (c ∷ s) = (if ltb c 128 then 1 else 0) + ascii_count s

unfoldable pub other_count : Text → ℕ
other_count [] = 0
other_count (c ∷ s) = (if ltb c 128 then 0 else 1) + other_count s

estimate_from_lem :
    (a n : ℕ) (s : Text)
    → estimate_from a n s ≡ sat_add (div_ceil (a + ascii_count s) 4) (n + other_count s)
unfolding estimate_from ascii_count other_count
estimate_from_lem a n [] = rw (add-zero a, add-zero n)
estimate_from_lem a n (c ∷ s) =
    ground (arith, estimate_from_lem (a + 1) n s, estimate_from_lem a (n + 1) s)

-- The estimate charges one token for four ASCII characters, rounded up, and one for every other
-- character, and stops at the largest `usize`.
pub estimate_text_tokens_lem :
    (s : Text) → estimate_text_tokens s ≡ min ((ascii_count s + 3) / 4 + other_count s) usize_max
unfolding estimate_text_tokens div_ceil sat_add
estimate_text_tokens_lem s = ground (arith, estimate_from_lem 0 0 s)

pub ascii_count-append : (s t : Text) → ascii_count (s ++ t) ≡ ascii_count s + ascii_count t
unfolding ascii_count
ascii_count-append [] t = omega arith
ascii_count-append (c ∷ s) t = omega (arith, ascii_count-append s t)

pub other_count-append : (s t : Text) → other_count (s ++ t) ≡ other_count s + other_count t
unfolding other_count
other_count-append [] t = omega arith
other_count-append (c ∷ s) t = omega (arith, other_count-append s t)

-- Joining two texts never costs more than the two apart, and never less than either of them.
pub estimate_text_tokens-append :
    (s t : Text)
    → (estimate_text_tokens (s ++ t) ≤ estimate_text_tokens s + estimate_text_tokens t)
      × (estimate_text_tokens s ≤ estimate_text_tokens (s ++ t))
      × (estimate_text_tokens t ≤ estimate_text_tokens (s ++ t))
estimate_text_tokens-append s t = omega (
  arith,
  estimate_text_tokens_lem s,
  estimate_text_tokens_lem t,
  estimate_text_tokens_lem (s ++ t),
  ascii_count-append s t,
  other_count-append s t,
)

-- The conservative estimate is 0 on the empty text and positive on every other one.
pub estimate_text_tokens-IsCounter : IsCounter estimate_text_tokens
unfolding ascii_count other_count
estimate_text_tokens-IsCounter = record {
  empty = omega (arith, estimate_text_tokens_lem []);
  positive = λ c s. ground (arith, estimate_text_tokens_lem (c ∷ s));
}
