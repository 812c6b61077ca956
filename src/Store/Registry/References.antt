-- ===== src/Store/Registry/References.antt =====
-- models/store/store_write.go: the aliases and the observations that a transaction leaves.
use code_code_platform_catal.Prelude.{
  ◌≡◌, refl, sym, ap, ◌∙◌, false, List, [], ◌∷◌, ◌++◌, map, Option, some, some_eq, ◌==◌, eq_iff,
  nat_eq, arith, bind-some, All, append-nil, append_assoc,
}
use code_code_platform_catal.Text.{text_eq}
use code_code_platform_catal.ModelIdentity.Candidates.{ModelAlias}
use code_code_platform_catal.Models.Types.{ModelVersion}
use code_code_platform_catal.Models.Registry.{RegistrySource}
use code_code_platform_catal.Store.Codec.{
  keep_observations, normalize_registry_observations, normalize_model_definition_aliases,
}
use code_code_platform_catal.Store.Tables.{
  RowKey, row_key_eq, EntryRow, AliasRow, ObservationRow, Tables, delete_at,
}
use code_code_platform_catal.Store.Write.{
  Context, alias_row, insert_alias, insert_aliases, replace_aliases, replace_observations,
}
use code_code_platform_catal.Store.Registry.Observations.{
  AreObservationRows, insert_observations-append, AreObservationRows-at, keep_observations-named,
}
use code_code_platform_catal.Store.Registry.Others.{
  rows_at, rows_at-append, rows_at-delete_at, rows_at-delete_at_other,
}

module _ {R : Type 0} (at_of : R → RowKey) where
  rows_at-own :
      (k : RowKey) (rows : List R) → All (λ row. at_of row ≡ k) rows → rows_at at_of k rows ≡ rows
  unfolding rows_at
  rows_at-own k [] own = refl
  rows_at-own k (row ∷ rows) (e, own) =
      ground (arith, rows_at-own k rows own, (eq_iff (at_of row) k).1 e)

  rows_at-not_own :
      (j k : RowKey) (rows : List R)
      → (j == k) ≡ false
      → All (λ row. at_of row ≡ k) rows
      → rows_at at_of j rows ≡ []
  unfolding rows_at
  rows_at-not_own j k [] other own = refl
  rows_at-not_own j k (row ∷ rows) other (e, own) =
      ground (arith, rows_at-not_own j k rows other own, other, eq_iff (at_of row) j, eq_iff j k, e)

  -- Rows of one key that replace those that were there.
  rows_at-replaced :
      (k : RowKey) (rows added : List R)
      → All (λ row. at_of row ≡ k) added
      → rows_at at_of k (delete_at at_of k rows ++ added) ≡ added
  rows_at-replaced k rows added own =
      rows_at-append at_of k (delete_at at_of k rows) added
      ∙ rw (rows_at-delete_at at_of k rows) (rows_at-own k added own)

  rows_at-replaced_other :
      (j k : RowKey) (rows added : List R)
      → (j == k) ≡ false
      → All (λ row. at_of row ≡ k) added
      → rows_at at_of j (delete_at at_of k rows ++ added) ≡ rows_at at_of j rows
  rows_at-replaced_other j k rows added other own =
      rows_at-append at_of j (delete_at at_of k rows) added
      ∙ rw (rows_at-not_own j k added other own, rows_at-delete_at_other at_of j k rows other)
          (append-nil (rows_at at_of j rows))

module _ (context : Context Tables) where
  insert_alias-append :
      (entries : List EntryRow) (row : AliasRow) (rows out : List AliasRow)
      → insert_alias context entries row rows ≡ some out
      → out ≡ rows ++ row ∷ []
  unfolding insert_alias
  insert_alias-append entries row rows out h = ground (arith, h)

  insert_aliases-append :
      (entries : List EntryRow) (k : RowKey) (aliases : List ModelAlias) (rows out : List AliasRow)
      → insert_aliases context entries k aliases rows ≡ some out
      → out ≡ rows ++ map (alias_row context k) aliases
  unfolding insert_aliases
  insert_aliases-append entries k [] rows out h = sym (some_eq h) ∙ sym (append-nil rows)
  insert_aliases-append entries k (alias ∷ aliases) rows out h =
      let (next, inserted, rest) =
        bind-some (insert_alias context entries (alias_row context k alias) rows)
          (insert_aliases context entries k aliases) out h in
      insert_aliases-append entries k aliases next out rest
      ∙ ap (λ l. l ++ map (alias_row context k) aliases)
          (insert_alias-append entries (alias_row context k alias) rows next inserted)
      ∙ append_assoc rows (alias_row context k alias ∷ []) (map (alias_row context k) aliases)

  alias_row-at :
      (k : RowKey) (aliases : List ModelAlias)
      → All (λ (row : AliasRow). row.at ≡ k) (map (alias_row context k) aliases)
  alias_row-at k [] = tt
  alias_row-at k (alias ∷ aliases) = (refl, alias_row-at k aliases)

  pub replace_aliases-own :
      (entries : List EntryRow) (k : RowKey) (d : Option ModelVersion) (rows out : List AliasRow)
      → replace_aliases context entries k d rows ≡ some out
      → rows_at (λ row. row.at) k out
        ≡ map (alias_row context k) (normalize_model_definition_aliases d)
  unfolding replace_aliases
  replace_aliases-own entries k d rows out h =
      ap (rows_at (λ row. row.at) k)
        (insert_aliases-append entries k (normalize_model_definition_aliases d) _ out h)
      ∙ rows_at-replaced (λ row. row.at) k rows _
          (alias_row-at k (normalize_model_definition_aliases d))

  pub replace_aliases-other :
      (entries : List EntryRow) (j k : RowKey) (d : Option ModelVersion) (rows out : List AliasRow)
      → (j == k) ≡ false
      → replace_aliases context entries k d rows ≡ some out
      → rows_at (λ row. row.at) j out ≡ rows_at (λ row. row.at) j rows
  unfolding replace_aliases
  replace_aliases-other entries j k d rows out other h =
      ap (rows_at (λ row. row.at) j)
        (insert_aliases-append entries k (normalize_model_definition_aliases d) _ out h)
      ∙ rows_at-replaced_other (λ row. row.at) j k rows _ other
          (alias_row-at k (normalize_model_definition_aliases d))

  replace_observations-added :
      (entries : List EntryRow) (k : RowKey) (observations : List (Option RegistrySource))
      → (rows out : List ObservationRow)
      → replace_observations context entries k observations rows ≡ some out
      → (added : List ObservationRow) × (out ≡ delete_at (λ row. row.at) k rows ++ added)
        × AreObservationRows context k (normalize_registry_observations observations) added
  unfolding replace_observations normalize_registry_observations
  replace_observations-added entries k observations rows out h =
      insert_observations-append context entries k (keep_observations [] observations) _ out
        (keep_observations-named [] observations) h

  pub replace_observations-own :
      (entries : List EntryRow) (k : RowKey) (observations : List (Option RegistrySource))
      → (rows out : List ObservationRow)
      → replace_observations context entries k observations rows ≡ some out
      → AreObservationRows context k
          (normalize_registry_observations observations)
          (rows_at (λ row. row.at) k out)
  replace_observations-own entries k observations rows out h =
      let (added, replaced, are) = replace_observations-added entries k observations rows out h in
      let same : rows_at (λ row. row.at) k out ≡ added =
        ap (rows_at (λ row. row.at) k) replaced
        ∙ rows_at-replaced (λ row. row.at) k rows added
            (AreObservationRows-at context k _ added are) in
      rw same are

  pub replace_observations-other :
      (entries : List EntryRow) (j k : RowKey) (observations : List (Option RegistrySource))
      → (rows out : List ObservationRow) → (j == k) ≡ false
      → replace_observations context entries k observations rows ≡ some out
      → rows_at (λ row. row.at) j out ≡ rows_at (λ row. row.at) j rows
  replace_observations-other entries j k observations rows out other h =
      let (added, replaced, are) = replace_observations-added entries k observations rows out h in
      ap (rows_at (λ row. row.at) j) replaced
      ∙ rows_at-replaced_other (λ row. row.at) j k rows added other
          (AreObservationRows-at context k _ added are)
