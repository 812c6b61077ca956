-- ===== src/Sync/Snapshot/Laws.antt =====
-- sync/snapshot.go: the keys of a snapshot.
use code_code_platform_catal.Prelude.{
  ◌≡◌, refl, ap, ◌∙◌, Bool, true, false, List, [], ◌∷◌, Option, none, some, some_eq, ◌==◌, eq_iff,
  eq_self, get, put, get-put, arith, inl, inr, Bool-cases, Option-cases,
}
use code_code_platform_catal.Text.{Text, text_eq}
use code_code_platform_catal.Models.Types.{ModelVersion, CollectedEntry}
use code_code_platform_catal.Models.Authority.{is_lt, compare_collected_entry_authority}
use code_code_platform_catal.Models.Definition.{
  Defaults, SurfaceIdentity, identity_from_definition, key, fill_definition,
  merge_definition_metadata,
}
use code_code_platform_catal.Models.Collected.{merge_by_authority, merge_collected_entries}
use code_code_platform_catal.Sync.Vendor.{VendorScope}
use code_code_platform_catal.Sync.Snapshot.{
  CollectedSnapshot, new_collected_definitions_snapshot, vendor_support_definition_candidate,
  collected_entry, put_collected, merge_item, merge_items, merge_vendor,
  merge_collected_definitions_snapshot,
}

abbrev pub has_key : Text → Option SurfaceIdentity → Bool
has_key k none = false
has_key k (some identity) = key identity == k

-- The definition's identity has the key.
abbrev pub HasKey : Text → CollectedEntry → Type 0
HasKey k c = (j : Text) → has_key j (identity_from_definition c.definition) ≡ (k == j)

-- The candidates stand under the keys of their identities.
abbrev pub IsKeyed : List (Text × CollectedEntry) → Type 0
IsKeyed definitions = (k : Text) (c : CollectedEntry) → get definitions k ≡ some c → HasKey k c

-- The merged definition has the identity of the preferred one.
identity-merge :
    (p f : Option ModelVersion) (k : Text)
    → has_key k (identity_from_definition p) ≡ true
    → identity_from_definition (merge_definition_metadata p f) ≡ identity_from_definition p
unfolding merge_definition_metadata identity_from_definition fill_definition
identity-merge none f k h = absurd (ground (arith, h))
identity-merge (some p) none k h = refl
identity-merge (some p) (some f) k h = refl

merge_by_authority-HasKey :
    (k : Text) (p f : CollectedEntry) → HasKey k p → HasKey k (merge_by_authority p f)
unfolding merge_by_authority
merge_by_authority-HasKey k p f hp j =
    ap (has_key j) (identity-merge p.definition f.definition k (hp k ∙ eq_self k)) ∙ hp j

merge_collected_entries-HasKey :
    (k : Text) (p f : CollectedEntry)
    → HasKey k p
    → HasKey k f
    → HasKey k (merge_collected_entries p f)
unfolding merge_collected_entries
merge_collected_entries-HasKey k p f hp hf =
    elim (Bool-cases (is_lt (compare_collected_entry_authority f p))) [
      | inl e ↦ rw (e, merge_collected_entries) (merge_by_authority-HasKey k f p hf)
      | inr e ↦ rw (e, merge_collected_entries) (merge_by_authority-HasKey k p f hp)
    ]

put-IsKeyed :
    (k : Text) (c : CollectedEntry) (m : List (Text × CollectedEntry))
    → HasKey k c
    → IsKeyed m
    → IsKeyed (put k c m)
put-IsKeyed k c m hc hm j d found i = elim (Bool-cases (k == j)) [
  | inl same ↦
      let stored : c ≡ d = some_eq (ground (arith, found, same, get-put k c m j)) in
      rw (← stored, ← (eq_iff k j).0 same) (hc i)
  | inr other ↦ hm j d (ground (arith, found, other, get-put k c m j)) i
]

module _ (defaults : Defaults) (valid : ModelVersion → Bool) where
  put_collected-IsKeyed :
      (k : Text) (c : CollectedEntry) (m : List (Text × CollectedEntry))
      → HasKey k c
      → IsKeyed m
      → IsKeyed (put_collected defaults valid k c m)
  unfolding put_collected
  put_collected-IsKeyed k c m hc hm = elim (Option-cases (get m k)) [
    | inl missing ↦ rw (missing, put_collected) (put-IsKeyed k c m hc hm)
    | inr (current, found) ↦
        rw (found, put_collected)
          (put-IsKeyed k (merge_collected_entries current c) m
            (merge_collected_entries-HasKey k current c (hm k current found) hc) hm)
  ]

  collected_entry-HasKey :
      (candidate : ModelVersion) (item : CollectedEntry) (i : SurfaceIdentity)
      → identity_from_definition (some candidate) ≡ some i
      → HasKey (key i) (collected_entry defaults valid candidate item)
  unfolding collected_entry
  collected_entry-HasKey candidate item i named j = rw named refl

  merge_item-IsKeyed :
      (vendor_id : Text) (m : List (Text × CollectedEntry)) (item : CollectedEntry)
      → IsKeyed m
      → IsKeyed (merge_item defaults valid vendor_id m item)
  unfolding merge_item
  merge_item-IsKeyed vendor_id m item hm =
      elim (Option-cases
        (vendor_support_definition_candidate defaults valid vendor_id item.definition)) [
          | inl refused ↦ rw (refused, merge_item) hm
          | inr (candidate, e) ↦ elim (Option-cases (identity_from_definition (some candidate))) [
            | inl unnamed ↦ rw (e, unnamed, merge_item) hm
            | inr (i, named) ↦
                rw (e, named, merge_item)
                  (put_collected-IsKeyed (key i) (collected_entry defaults valid candidate item) m
                    (collected_entry-HasKey candidate item i named) hm)
          ]
        ]

  merge_items-IsKeyed :
      (vendor_id : Text) (m : List (Text × CollectedEntry)) (items : List CollectedEntry)
      → IsKeyed m
      → IsKeyed (merge_items defaults valid vendor_id m items)
  unfolding merge_items
  merge_items-IsKeyed vendor_id m [] hm = hm
  merge_items-IsKeyed vendor_id m (item ∷ items) hm =
      merge_items-IsKeyed vendor_id (merge_item defaults valid vendor_id m item) items
        (merge_item-IsKeyed vendor_id m item hm)

  merge_vendor-IsKeyed :
      (snapshot : CollectedSnapshot) (group : Text × List CollectedEntry)
      → IsKeyed snapshot.definitions
      → IsKeyed (merge_vendor defaults valid snapshot group).definitions
  unfolding merge_vendor
  merge_vendor-IsKeyed snapshot (vendor_id, []) h = h
  merge_vendor-IsKeyed snapshot (vendor_id, item ∷ items) h =
      merge_items-IsKeyed vendor_id snapshot.definitions (item ∷ items) h

  -- If a snapshot has its candidates under the keys of their identities, it has them so after any
  -- further collection is merged in.
  pub merge_collected_definitions_snapshot-IsKeyed :
      (snapshot : CollectedSnapshot) (grouped : List (Text × List CollectedEntry))
      → IsKeyed snapshot.definitions
      → IsKeyed (merge_collected_definitions_snapshot defaults valid snapshot grouped).definitions
  unfolding merge_collected_definitions_snapshot
  merge_collected_definitions_snapshot-IsKeyed snapshot [] h = h
  merge_collected_definitions_snapshot-IsKeyed snapshot (group ∷ grouped) h =
      merge_collected_definitions_snapshot-IsKeyed (merge_vendor defaults valid snapshot group)
        grouped (merge_vendor-IsKeyed snapshot group h)

pub new_collected_definitions_snapshot-IsKeyed :
    (scope : VendorScope) → IsKeyed (new_collected_definitions_snapshot scope).definitions
unfolding new_collected_definitions_snapshot get
new_collected_definitions_snapshot-IsKeyed scope k c found = absurd (ground (arith, found))
