-- ===== src/Store/Query/Laws.antt =====
-- models/store/query_list.go: the search condition of a listing.
use code_code_platform_catal.Prelude.{
  ℕ, ◌≡◌, refl, sym, ap, ◌∙◌, Bool, true, false, ◌||◌, ◌&&◌, List, [], ◌∷◌, ◌++◌, arith, inl, inr,
  Bool-cases, ◌==◌, nat_eq, if◌then◌else◌, append_assoc,
}
use code_code_platform_catal.Text.{
  Text, codes, text_eq, is_empty, is_space, trim_space, trim_idem, to_lower, has_prefix,
  contains_text,
}
use code_code_platform_catal.Store.Tables.{
  RowKey, row_key_eq, EntryRow, AliasRow, ObservationRow, Tables,
}
use code_code_platform_catal.Store.Write.{Context}
use code_code_platform_catal.Store.Query.{
  escape, escape_byte, like_contains_pattern, first_then, some_rest, like, spaced, like_spaced,
  alias_like, observation_like, JsonColumns, search_like, search_keeps,
}

some_rest-is_empty : (s : Text) → some_rest is_empty s ≡ true
some_rest-is_empty [] = refl
some_rest-is_empty (c ∷ s) = some_rest-is_empty s

like-percent : (s : Text) → like false (b'%' ∷ []) s ≡ true
unfolding like
like-percent s = some_rest-is_empty s

-- An escaped byte is matched by itself only.
like-escape_byte :
    (c : ℕ) (p s : Text)
    → like false (escape_byte c ++ p) s ≡ first_then (λ d. d == c) (like false p) s
unfolding like escape_byte
like-escape_byte c p s = elim (Bool-cases (c == 92 || c == b'%' || c == b'_')) [
  | inl special ↦ rw special refl
  | inr plain ↦ rw plain (ground (arith, plain))
]

has_prefix_nil : (q : Text) → has_prefix q [] ≡ is_empty q
unfolding has_prefix
has_prefix_nil [] = refl
has_prefix_nil (c ∷ q) = refl

first_then-cong :
    (c : ℕ) (f g : Text → Bool)
    → ((s : Text) → f s ≡ g s)
    → (s : Text) → first_then (λ d. d == c) f s ≡ first_then (λ d. d == c) g s
first_then-cong c f g same [] = refl
first_then-cong c f g same (d ∷ s) = ap (λ b. d == c && b) (same s)

has_prefix-first_then :
    (c : ℕ) (q s : Text) → has_prefix (c ∷ q) s ≡ first_then (λ d. d == c) (has_prefix q) s
unfolding has_prefix
has_prefix-first_then c q [] = refl
has_prefix-first_then c q (d ∷ s) = ground arith

-- An escaped text is matched by itself only, whatever follows.
like-escape : (q s : Text) → like false (escape q ++ b'%' ∷ []) s ≡ has_prefix q s
unfolding escape has_prefix
like-escape [] s = like-percent s
like-escape (c ∷ q) s =
    ap (λ p. like false p s) (append_assoc (escape_byte c) (escape q) (b'%' ∷ []))
    ∙ like-escape_byte c (escape q ++ b'%' ∷ []) s
    ∙ first_then-cong c (like false (escape q ++ b'%' ∷ [])) (has_prefix q) (like-escape q) s
    ∙ sym (has_prefix-first_then c q s)

-- `like` with the pattern of a query is `Contains`.
some_rest-has_prefix :
    (f : Text → Bool) (q : Text)
    → ((s : Text) → f s ≡ has_prefix q s)
    → (s : Text) → some_rest f s ≡ contains_text q s
unfolding contains_text
some_rest-has_prefix f q same [] = same [] ∙ has_prefix_nil q
some_rest-has_prefix f q same (c ∷ s) =
    ground (arith, same (c ∷ s), some_rest-has_prefix f q same s)

like-like_contains_pattern :
    (value s : Text)
    → like false (like_contains_pattern value) s ≡ contains_text (to_lower (trim_space value)) s
unfolding like_contains_pattern like
like-like_contains_pattern value s =
    let q = to_lower (trim_space value) in
    some_rest-has_prefix (like false (escape q ++ b'%' ∷ [])) q (like-escape q) s

-- The texts of an entry that a search looks at; those with a hyphen also with spaces in its place.
abbrev pub both : Text → List Text
both text = to_lower text ∷ to_lower (spaced text) ∷ []

unfoldable pub alias_texts : RowKey → List AliasRow → List Text
alias_texts k [] = []
alias_texts k (row ∷ rows) =
    let rest = alias_texts k rows in if row.at == k then both row.alias_value ++ rest else rest

unfoldable pub observation_texts : RowKey → List ObservationRow → List Text
observation_texts k [] = []
observation_texts k (row ∷ rows) =
    let rest = observation_texts k rows in
    if row.at == k then both row.source_id ++ both row.source_model_id ++ rest else rest

unfoldable pub some_contains : Text → List Text → Bool
some_contains needle [] = false
some_contains needle (text ∷ texts) = contains_text needle text || some_contains needle texts

some_contains-append :
    (needle : Text) (xs ys : List Text)
    → some_contains needle (xs ++ ys) ≡ (some_contains needle xs || some_contains needle ys)
unfolding some_contains
some_contains-append needle [] ys = refl
some_contains-append needle (x ∷ xs) ys = ground (arith, some_contains-append needle xs ys)

module _ (value : Text) where
  abbrev needle : Text
  needle = to_lower (trim_space value)

  abbrev pattern_of : Text
  pattern_of = like_contains_pattern value

  like_spaced-both : (t : Text) → like_spaced pattern_of t ≡ some_contains needle (both t)
  unfolding some_contains
  like_spaced-both t = ground (
    arith,
    like-like_contains_pattern value (to_lower t),
    like-like_contains_pattern value (to_lower (spaced t)),
  )

  alias_like-texts :
      (k : RowKey) (rows : List AliasRow)
      → alias_like pattern_of k rows ≡ some_contains needle (alias_texts k rows)
  unfolding alias_like alias_texts some_contains
  alias_like-texts k [] = refl
  alias_like-texts k (row ∷ rows) = ground (
    arith,
    like_spaced-both row.alias_value,
    alias_like-texts k rows,
    some_contains-append needle (both row.alias_value) (alias_texts k rows),
  )

  observation_like-texts :
      (k : RowKey) (rows : List ObservationRow)
      → observation_like pattern_of k rows ≡ some_contains needle (observation_texts k rows)
  unfolding observation_like observation_texts some_contains
  observation_like-texts k [] = refl
  observation_like-texts k (row ∷ rows) = ground (
    arith,
    like_spaced-both row.source_id,
    like_spaced-both row.source_model_id,
    observation_like-texts k rows,
    some_contains-append needle (both row.source_id)
        (both row.source_model_id ++ observation_texts k rows),
    some_contains-append needle (both row.source_model_id) (observation_texts k rows),
  )

module _ (context : Context Tables) (columns : JsonColumns) (tables : Tables) where
  -- All the texts of an entry that are searched, in lower case.
  abbrev pub searched_texts : EntryRow → List Text
  searched_texts row =
      both row.at.model_id
      ++ both row.at.vendor_id
      ++ (to_lower (columns.text_of row.definition (codes "display_name"))
          ∷ to_lower (columns.text_of row.definition (codes "canonical_model_id"))
          ∷ (both (columns.text_of row.definition (codes "family_slug"))
              ++ (alias_texts row.at tables.aliases
                  ++ observation_texts row.at tables.observations)))

  search_like-texts :
      (value : Text) (row : EntryRow)
      → search_like context columns tables (like_contains_pattern value) row
        ≡ some_contains (to_lower (trim_space value)) (searched_texts row)
  unfolding search_like some_contains
  search_like-texts value row =
      let field : Text → Text = columns.text_of row.definition in
      ground (
        arith,
        like_spaced-both value row.at.model_id,
        like_spaced-both value row.at.vendor_id,
        like-like_contains_pattern value (to_lower (field (codes "display_name"))),
        like-like_contains_pattern value (to_lower (field (codes "canonical_model_id"))),
        like_spaced-both value (field (codes "family_slug")),
        alias_like-texts value row.at tables.aliases,
        observation_like-texts value row.at tables.observations,
        some_contains-append (to_lower (trim_space value)) (alias_texts row.at tables.aliases)
            (observation_texts row.at tables.observations),
      )

  -- A listing with a query that is not blank keeps an entry exactly when one of the entry's texts
  -- contains the trimmed query, in lower case: its model and vendor IDs, three fields of its
  -- definition, its aliases, and the sources and source model IDs of its observations, each as it is
  -- and most also with spaces for hyphens. In particular the query's percent signs, underscores and
  -- backslashes stand for themselves.
  pub search_keeps-contains :
      (raw : Text) (row : EntryRow)
      → is_empty (trim_space raw) ≡ false
      → search_keeps context columns tables raw row
        ≡ some_contains (to_lower (trim_space raw)) (searched_texts row)
  unfolding search_keeps
  search_keeps-contains raw row named =
      rw named (search_like-texts (trim_space raw) row)
      ∙ ap (λ t. some_contains (to_lower t) (searched_texts row)) (trim_idem is_space raw)
