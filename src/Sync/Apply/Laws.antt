-- ===== src/Sync/Apply/Laws.antt =====
-- sync/apply.go: the store after each step of a run.
use code_code_platform_catal.Prelude.{
  ◌≡◌, ◌⊎◌, refl, sym, ap, ◌∙◌, Bool, true, false, not, ◌&&◌, ◌||◌, List, [], ◌∷◌, Option, none,
  some, ◌==◌, eq_iff, get, keys, contains, arith, inl, inr, Bool-cases, Option-cases,
}
use code_code_platform_catal.Text.{Text, text_eq}
use code_code_platform_catal.Models.Types.{ModelVersion, CollectedEntry}
use code_code_platform_catal.Models.Definition.{SurfaceIdentity, identity_from_definition, key}
use code_code_platform_catal.Models.Registry.{RegistryEntry, new_model_registry_entry}
use code_code_platform_catal.Sync.Snapshot.{CollectedSnapshot}
use code_code_platform_catal.Sync.Snapshot.Laws.{has_key, IsKeyed}
use code_code_platform_catal.Sync.Apply.{
  StoredDefinition, Deletion, deleted, not_found, failed, DefinitionSyncStore, is_dropped,
  should_keep_managed_definition, apply_upserts, apply_deletions,
}

abbrev pub entry_identity : Option RegistryEntry → Option SurfaceIdentity
entry_identity none = none
entry_identity (some e) = identity_from_definition e.definition

-- A store that keeps one definition by its identity. Only the identity of a definition is deleted.
pub record IsStore {S : Type 0} (store : DefinitionSyncStore S) (holds : S → Text → Bool)
    : Type 0 where
  pub holds-upsert :
      (e : Option RegistryEntry) (s t : S)
      → store.upsert_managed_definition e s ≡ some t
      → (k : Text) → holds t k ≡ (has_key k (entry_identity e) || holds s k)
  pub holds-delete :
      (d : Option ModelVersion) (i : SurfaceIdentity) (s t : S)
      → identity_from_definition d ≡ some i
      → store.delete_managed_definition i s ≡ deleted t
      → (k : Text) → holds t k ≡ (holds s k && not (key i == k))
  pub holds-not_found :
      (d : Option ModelVersion) (i : SurfaceIdentity) (s : S)
      → identity_from_definition d ≡ some i
      → store.delete_managed_definition i s ≡ not_found
      → holds s (key i) ≡ false

-- The listed definition has this key, is not in the snapshot, and its vendor is not one that is
-- managed and gave nothing this time.
unfoldable pub drops : CollectedSnapshot → Option SurfaceIdentity → Text → Bool
drops snapshot none k = false
drops snapshot (some identity) k =
    key identity == k
    && not (contains (keys snapshot.definitions) (key identity))
    && (not (contains snapshot.managed_vendor_ids identity.vendor_id)
        || contains snapshot.collected_vendor_ids identity.vendor_id)

drops-some :
    (snapshot : CollectedSnapshot) (i : SurfaceIdentity) (k : Text)
    → drops snapshot (some i) k ≡ (key i == k && is_dropped snapshot i)
unfolding drops is_dropped should_keep_managed_definition
drops-some snapshot i k = ground arith

unfoldable pub is_stale : CollectedSnapshot → List StoredDefinition → Text → Bool
is_stale snapshot [] k = false
is_stale snapshot (d ∷ ds) k =
    drops snapshot (identity_from_definition d.definition) k || is_stale snapshot ds k

pub true_not_false : true ≡ false → ⊥
true_not_false e = ground (arith, e)

drops_not_collected :
    (snapshot : CollectedSnapshot) (identity : Option SurfaceIdentity) (k : Text)
    → drops snapshot identity k ≡ true
    → contains (keys snapshot.definitions) k ≡ false
unfolding drops
drops_not_collected snapshot none k h = ground (arith, h)
drops_not_collected snapshot (some i) k h = ground (arith, h, eq_iff (key i) k)

pub stale_not_collected :
    (snapshot : CollectedSnapshot) (ds : List StoredDefinition) (k : Text)
    → is_stale snapshot ds k ≡ true
    → contains (keys snapshot.definitions) k ≡ false
stale_not_collected snapshot [] k h = unfold is_stale in ground arith
stale_not_collected snapshot (d ∷ ds) k h =
    elim (Bool-cases (drops snapshot (identity_from_definition d.definition) k)) [
      | inr other ↦ stale_not_collected snapshot ds k (unfold is_stale in ground (arith, h, other))
      | inl found ↦ drops_not_collected snapshot (identity_from_definition d.definition) k found
    ]

module _ {S : Type 0} (store : DefinitionSyncStore S) (holds : S → Text → Bool)
    (law : IsStore store holds) (snapshot : CollectedSnapshot)
    (keyed : IsKeyed snapshot.definitions) where
  entry_identity-candidate :
      (c : CollectedEntry)
      → entry_identity (new_model_registry_entry (some c)) ≡ identity_from_definition c.definition
  unfolding new_model_registry_entry
  entry_identity-candidate c = refl

  holds-upsert_candidate :
      (k : Text) (c : CollectedEntry) (s t : S)
      → get snapshot.definitions k ≡ some c
      → store.upsert_managed_definition (new_model_registry_entry (some c)) s ≡ some t
      → (j : Text) → holds t j ≡ (k == j || holds s j)
  holds-upsert_candidate k c s t found e j =
      law.holds-upsert (new_model_registry_entry (some c)) s t e j
      ∙ ap (λ o. has_key j o || holds s j) (entry_identity-candidate c)
      ∙ ap (λ b. b || holds s j) (keyed k c found j)

  -- One upsert fails, or the store holds the key in addition.
  upserts_step :
      (k : Text) (ks : List Text) (s : S)
      → (apply_upserts store snapshot (k ∷ ks) s ≡ (s, false))
        ⊎ ((u : S) × (apply_upserts store snapshot (k ∷ ks) s ≡ apply_upserts store snapshot ks u)
            × ((j : Text) → holds u j ≡ (k == j || holds s j)))
  unfolding apply_upserts
  upserts_step k ks s = elim (Option-cases (get snapshot.definitions k)) [
    | inl missing ↦ inl (rw (missing, apply_upserts) refl)
    | inr (c, found) ↦ elim (Option-cases (identity_from_definition c.definition)) [
      | inl unnamed ↦ inl (rw (found, unnamed, apply_upserts) refl)
      | inr (i, named) ↦
          elim (Option-cases
            (store.upsert_managed_definition (new_model_registry_entry (some c)) s)) [
              | inl failure ↦ inl (rw (found, named, failure, apply_upserts) refl)
              | inr (u, stored) ↦ inr (
                u,
                rw (found, named, stored, apply_upserts) refl,
                holds-upsert_candidate k c s u found stored,
              )
            ]
    ]
  ]

  apply_upserts-nil : (s : S) → apply_upserts store snapshot [] s ≡ (s, true)
  unfolding apply_upserts
  apply_upserts-nil s = refl

  apply_deletions-nil : (s : S) → apply_deletions store snapshot [] s ≡ (s, true)
  unfolding apply_deletions
  apply_deletions-nil s = refl

  pub holds-apply_upserts :
      (ks : List Text) (s t : S)
      → apply_upserts store snapshot ks s ≡ (t, true)
      → (j : Text) → holds t j ≡ (contains ks j || holds s j)
  unfolding contains
  holds-apply_upserts [] s t e j = ap (λ (p : S × Bool). holds p.0 j) (sym e ∙ apply_upserts-nil s)
  holds-apply_upserts (k ∷ ks) s t e j = elim (upserts_step k ks s) [
    | inl failure ↦ absurd (true_not_false (ap (λ (p : S × Bool). p.1) (sym e ∙ failure)))
    | inr (u, same, held) ↦ ground (arith, holds-apply_upserts ks u t (sym same ∙ e) j, held j)
  ]

  pub holds-apply_upserts_kept :
      (ks : List Text) (s : S) (j : Text)
      → holds s j ≡ true
      → holds (apply_upserts store snapshot ks s).0 j ≡ true
  holds-apply_upserts_kept [] s j h = unfold apply_upserts in h
  holds-apply_upserts_kept (k ∷ ks) s j h = elim (upserts_step k ks s) [
    | inl failure ↦ rw failure h
    | inr (u, same, held) ↦ rw same (holds-apply_upserts_kept ks u j (held j ∙ ground (arith, h)))
  ]

  -- One deletion fails, or the store holds all but what the definition drops.
  deletions_step :
      (d : StoredDefinition) (ds : List StoredDefinition) (s : S)
      → (apply_deletions store snapshot (d ∷ ds) s ≡ (s, false))
        ⊎ ((u : S) × (apply_deletions store snapshot (d ∷ ds) s
              ≡ apply_deletions store snapshot ds u)
            × ((j : Text)
                → holds u j
                  ≡ (holds s j && not (drops snapshot (identity_from_definition d.definition) j))))
  unfolding apply_deletions
  deletions_step d ds s = elim (Option-cases (identity_from_definition d.definition)) [
    | inl unnamed ↦ inl (rw (unnamed, apply_deletions) refl)
    | inr (i, named) ↦ elim (Bool-cases (is_dropped snapshot i)) [
      | inr kept ↦ inr (
        s,
        rw (named, kept, apply_deletions) refl,
        λ j. rw named (ground (arith, kept, drops-some snapshot i j)),
      )
      | inl dropped ↦ deletion i named dropped (store.delete_managed_definition i s) refl
    ]
  ]
    where
      deletion :
          (i : SurfaceIdentity)
          → identity_from_definition d.definition ≡ some i
          → is_dropped snapshot i ≡ true
          → (o : Deletion S) → store.delete_managed_definition i s ≡ o
          → (apply_deletions store snapshot (d ∷ ds) s ≡ (s, false))
            ⊎ ((u : S) × (apply_deletions store snapshot (d ∷ ds) s
                  ≡ apply_deletions store snapshot ds u)
                × ((j : Text)
                    → holds u j ≡ (
                        holds s j
                        && not (drops snapshot (identity_from_definition d.definition) j))))
      deletion i named dropped (deleted u) e = inr (
        u,
        unfold apply_deletions in rw (named, dropped, e, apply_deletions) refl,
        λ j. rw named (
            ground (
              arith,
              dropped,
              drops-some snapshot i j,
              law.holds-delete d.definition i s u named e j,
            )),
      )
      deletion i named dropped not_found e = inr (
        s,
        unfold apply_deletions in rw (named, dropped, e, apply_deletions) refl,
        λ j. rw named (
            ground (
              arith,
              dropped,
              drops-some snapshot i j,
              law.holds-not_found d.definition i s named e,
              eq_iff (key i) j,
            )),
      )
      deletion i named dropped failed e =
          inl (unfold apply_deletions in rw (named, dropped, e, apply_deletions) refl)

  pub holds-apply_deletions :
      (ds : List StoredDefinition) (s t : S)
      → apply_deletions store snapshot ds s ≡ (t, true)
      → (j : Text) → holds t j ≡ (holds s j && not (is_stale snapshot ds j))
  unfolding is_stale
  holds-apply_deletions [] s t e j =
      ap (λ (p : S × Bool). holds p.0 j) (sym e ∙ apply_deletions-nil s) ∙ ground arith
  holds-apply_deletions (d ∷ ds) s t e j = elim (deletions_step d ds s) [
    | inl failure ↦ absurd (true_not_false (ap (λ (p : S × Bool). p.1) (sym e ∙ failure)))
    | inr (u, same, held) ↦ ground (arith, holds-apply_deletions ds u t (sym same ∙ e) j, held j)
  ]

  pub holds-apply_deletions_kept :
      (ds : List StoredDefinition) (s : S) (j : Text)
      → holds s j ≡ true
      → is_stale snapshot ds j ≡ false
      → holds (apply_deletions store snapshot ds s).0 j ≡ true
  unfolding is_stale
  holds-apply_deletions_kept [] s j h n = unfold apply_deletions in h
  holds-apply_deletions_kept (d ∷ ds) s j h n = elim (deletions_step d ds s) [
    | inl failure ↦ rw failure h
    | inr (u, same, held) ↦
        rw same
          (holds-apply_deletions_kept ds u j (held j ∙ ground (arith, h, n)) (ground (arith, n)))
  ]
