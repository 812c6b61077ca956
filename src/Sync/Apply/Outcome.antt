-- ===== src/Sync/Apply/Outcome.antt =====
-- sync/apply.go: the store after a run of `sync`.
use code_code_platform_catal.Prelude.{
  ◌≡◌, ◌⊎◌, refl, sym, ap, ◌∙◌, Bool, true, false, not, ◌&&◌, ◌||◌, List, [], some, keys, contains,
  contains-sort_by, sort_by, arith, inl, inr, Bool-cases,
}
use code_code_platform_catal.Text.{Text, text_eq, compare_text}
use code_code_platform_catal.Sync.Snapshot.{CollectedSnapshot}
use code_code_platform_catal.Sync.Snapshot.Laws.{IsKeyed}
use code_code_platform_catal.Sync.Apply.{
  StoredDefinition, DefinitionSyncStore, apply_upserts, apply_deletions, after_upserts, sync,
  check_identities,
}
use code_code_platform_catal.Sync.Apply.Laws.{
  IsStore, is_stale, stale_not_collected, true_not_false, holds-apply_upserts,
  holds-apply_upserts_kept, holds-apply_deletions, holds-apply_deletions_kept,
}

module _ {S : Type 0} (store : DefinitionSyncStore S) (holds : S → Text → Bool)
    (law : IsStore store holds) (snapshot : CollectedSnapshot)
    (keyed : IsKeyed snapshot.definitions) where
  -- The listing, the check of the identities and the upserts of a run without an error.
  sync_step :
      (s : S) (ds : List StoredDefinition)
      → store.list_managed_definitions s ≡ some ds
      → let upserted =
          apply_upserts store snapshot (sort_by compare_text (keys snapshot.definitions)) s in
        (sync store snapshot s ≡ (s, false))
        ⊎ ((upserted.1 ≡ false) × (sync store snapshot s ≡ (upserted.0, false)))
        ⊎ ((upserted.1 ≡ true)
            × (sync store snapshot s ≡ apply_deletions store snapshot ds upserted.0))
  unfolding sync after_upserts
  sync_step s ds listed =
      let upserted =
        apply_upserts store snapshot (sort_by compare_text (keys snapshot.definitions)) s in
      elim (Bool-cases (check_identities [] ds)) [
        | inr refused ↦ inl (rw (listed, refused, sync) refl)
        | inl checked ↦ elim (Bool-cases upserted.1) [
          | inl ok ↦ inr (inr (ok, rw (listed, checked, ok, sync, after_upserts) refl))
          | inr bad ↦ inr (inl (bad, rw (listed, checked, bad, sync, after_upserts) refl))
        ]
      ]

  -- Let the store keep one definition by identity, and the snapshot have its candidates by their
  -- identities. After a run without an error, the store holds what the snapshot has; and of what it
  -- held before, all but the listed definitions that the snapshot does not have and whose vendor is
  -- not managed or was collected.
  pub holds-sync :
      (s t : S) (ds : List StoredDefinition)
      → store.list_managed_definitions s ≡ some ds
      → sync store snapshot s ≡ (t, true)
      → (k : Text)
      → holds t k
        ≡ (contains (keys snapshot.definitions) k || (holds s k && not (is_stale snapshot ds k)))
  holds-sync s t ds listed e k =
      let names = sort_by compare_text (keys snapshot.definitions) in
      let upserted = apply_upserts store snapshot names s in
      elim (sync_step s ds listed) [
        | inl refused ↦ absurd (true_not_false (ap (λ (p : S × Bool). p.1) (sym e ∙ refused)))
        | inr (inl (_, bad)) ↦ absurd (true_not_false (ap (λ (p : S × Bool). p.1) (sym e ∙ bad)))
        | inr (inr (ok, done)) ↦ ground (
          arith,
          holds-apply_deletions store holds law snapshot keyed ds upserted.0 t (sym done ∙ e) k,
          holds-apply_upserts store holds law snapshot keyed names s upserted.0
              (ap (λ b. (upserted.0, b)) ok) k,
          contains-sort_by compare_text (keys snapshot.definitions) k,
          stale_not_collected snapshot ds k,
        )
      ]

  -- Let the store keep one definition by identity, and the snapshot have its candidates by their
  -- identities. Whatever fails, a run never removes a definition that the store held, unless it is
  -- listed, the snapshot does not have it, and its vendor is not managed or was collected.
  pub holds-sync_kept :
      (s : S) (ds : List StoredDefinition)
      → store.list_managed_definitions s ≡ some ds
      → (k : Text) → holds s k ≡ true
      → is_stale snapshot ds k ≡ false
      → holds (sync store snapshot s).0 k ≡ true
  holds-sync_kept s ds listed k h fresh =
      let names = sort_by compare_text (keys snapshot.definitions) in
      let upserted = apply_upserts store snapshot names s in
      let still = holds-apply_upserts_kept store holds law snapshot keyed names s k h in
      elim (sync_step s ds listed) [
        | inl refused ↦ rw refused h
        | inr (inl (_, bad)) ↦ rw bad still
        | inr (inr (_, done)) ↦
            rw done (
              holds-apply_deletions_kept store holds law snapshot keyed ds upserted.0 k still fresh)
      ]
