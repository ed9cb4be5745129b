-- ===== src/Memory/Terms.antt =====
-- retrieval.rs: the terms of a text. The Unicode tables are a parameter.
use momo_core.Prelude.{
  ℕ, Bool, not, ◌&&◌, ◌||◌, List, [], ◌∷◌, ◌++◌, Text, trim, length, all, any, is_empty, leb, ltb,
  is_ascii_digit, is_ascii_lowercase, is_ascii_uppercase, member, sort_by, text_le, if◌then◌else◌,
}

pub record Unicode : Type 0 where
  pub nfkc : Text → Text
  pub to_lowercase : Text → Text
  pub is_alphanumeric : ℕ → Bool

abbrev is_ascii : ℕ → Bool
is_ascii c = leb c 0x7f

abbrev same_script : ℕ → ℕ → Bool
same_script c d = if is_ascii c then is_ascii d else not (is_ascii d)

-- The runs of characters that are ASCII, and of those that are not.
abbrev onto_runs : ℕ → List Text → List Text
onto_runs c [] = (c ∷ []) ∷ []
onto_runs c ([] ∷ more) = (c ∷ []) ∷ more
onto_runs c ((d ∷ ds) ∷ more) =
    if same_script c d then (c ∷ d ∷ ds) ∷ more else (c ∷ []) ∷ (d ∷ ds) ∷ more

unfoldable pub runs : Text → List Text
runs [] = []
runs (c ∷ cs) = onto_runs c (runs cs)

-- `windows(2)`
unfoldable pub pairs : Text → List Text
pairs [] = []
pairs (c ∷ []) = []
pairs (c ∷ d ∷ cs) = (c ∷ d ∷ []) ∷ pairs (d ∷ cs)

unfoldable pub run_terms : Text → List Text
unfolding pairs
run_terms run =
    if ltb 2 (length run) && all (λ c. not (is_ascii c)) run then pairs run else run ∷ []

unfoldable pub flat_map : (Text → List Text) → List Text → List Text
flat_map f [] = []
flat_map f (x ∷ xs) = f x ++ flat_map f xs

-- A set without repetition, in the order that its items come.
unfoldable pub distinct : List Text → List Text → List Text
distinct seen [] = []
distinct seen (x ∷ xs) =
    let rest = distinct (x ∷ seen) xs in if member seen x then rest else x ∷ rest

abbrev onto_word : ℕ → List Text → List Text
onto_word c [] = (c ∷ []) ∷ []
onto_word c (word ∷ words) = (c ∷ word) ∷ words

module _ (unicode : Unicode) where
  unfoldable pub normalize : Text → Text
  unfolding trim
  normalize value = unicode.to_lowercase (trim (unicode.nfkc value))

  -- `value.split(|character| !character.is_alphanumeric())`
  unfoldable pub words : Text → List Text
  words [] = [] ∷ []
  words (c ∷ cs) =
      let rest = words cs in if unicode.is_alphanumeric c then onto_word c rest else [] ∷ rest

  unfoldable pub kept_words : List Text → List Text
  kept_words [] = []
  kept_words (word ∷ rest) =
      let later = kept_words rest in if is_empty word then later else word ∷ later

  unfoldable pub searchable_terms : Text → List Text
  unfolding words kept_words flat_map runs run_terms distinct
  searchable_terms value =
      distinct [] (flat_map (λ word. flat_map run_terms (runs word)) (kept_words (words value)))

  unfoldable pub keep : (Text → Bool) → List Text → List Text
  keep test [] = []
  keep test (x ∷ xs) = let rest = keep test xs in if test x then x ∷ rest else rest

  abbrev is_letter : ℕ → Bool
  is_letter c = is_ascii_lowercase c || is_ascii_uppercase c

  unfoldable pub body_identifiers : Text → List Text
  unfolding searchable_terms keep normalize
  body_identifiers body = sort_by text_le (
      keep (λ term. any is_letter term && any is_ascii_digit term)
        (searchable_terms (normalize body)))

  abbrev is_generic_term : Text → Bool
  is_generic_term term = leb (length term) 1

  unfoldable pub body_terms : Text → List Text
  unfolding searchable_terms keep normalize
  body_terms body =
      sort_by text_le
        (keep (λ term. not (is_generic_term term)) (searchable_terms (normalize body)))
