-- ===== src/Store/Registry/Upsert.antt =====
-- models/store/store.go: `UpsertManagedDefinition`, statement by statement.
use code_code_platform_catal.Prelude.{
  ◌≡◌, ◌⊎◌, refl, sym, ap, ◌∙◌, Bool, true, false, not, ◌&&◌, ◌||◌, List, [], ◌∷◌, ◌++◌, Option,
  none, some, ◌==◌, eq_iff, eq_self, nat_eq, contains, contains-append, arith, inl, inr, Bool-cases,
  Option-cases, bind-some, ◌>>=◌, some_eq, ℕ, map,
}
use code_code_platform_catal.Text.{Text, codes, text_eq}
use code_code_platform_catal.Models.Types.{ModelVersion}
use code_code_platform_catal.Models.Definition.{
  SurfaceIdentity, identity_from_definition, key, identity_key,
}
use code_code_platform_catal.Models.Definition.Identity.{identity_from_definition-IsIdentity}
use code_code_platform_catal.Models.Registry.{RegistryEntry}
use code_code_platform_catal.Sync.Apply.Laws.{entry_identity}
use code_code_platform_catal.Sync.Snapshot.Laws.{has_key}
use code_code_platform_catal.Store.Tables.{
  RowKey, row_key_eq, EntryRow, Tables, is_storable_key, has_entry,
}
use code_code_platform_catal.Store.Json.{
  encode_model_definition, encode_string_slice, encode_pricing,
}
use code_code_platform_catal.Store.Write.{
  Context, at, replace_aliases, replace_observations, enqueue_model_definition_event,
}
use code_code_platform_catal.Store.Registry.{
  write_entry, get_definition_for_update, next_generation, entry_row, upsert_references,
  upsert_entry, upsert_transaction, upsert_managed_definition,
}
use code_code_platform_catal.Store.Registry.Others.{IsSameBut, find_entry-write_entry_other}
use code_code_platform_catal.Store.Registry.References.{
  replace_aliases-other, replace_observations-other,
}
use code_code_platform_catal.Store.Registry.Rows.{joined, holds_row, holds_row-write_entry}

pub none_not_some : {A : Type 0} (a : A) → none ≡ some a → ⊥
none_not_some a h = ground (arith, h)

-- What a transaction that upserts an entry has written.
pub record IsUpserted (context : Context Tables) (i : SurfaceIdentity) (e : RegistryEntry)
    (s t : Tables) : Type 0 where
  pub generation : ℕ
  pub mutation : Text
  pub row : EntryRow
  pub generated : next_generation context (at context i) s.entries ≡ some (generation, mutation)
  pub row_at : at context i ≡ row.at
  pub row_generation : generation ≡ row.generation
  pub written : write_entry mutation row s.entries ≡ some t.entries
  pub definition :
      (encode_model_definition context.json e.definition >>= context.to_jsonb) ≡ some row.definition
  pub badges : (encode_string_slice context.json e.badges >>= context.to_jsonb) ≡ some row.badges
  pub pricing : (encode_pricing context.json e.pricing >>= context.to_jsonb) ≡ some row.pricing
  pub aliases :
      replace_aliases context t.entries (at context i) e.definition s.aliases ≡ some t.aliases
  pub observations :
      replace_observations context t.entries (at context i) (map some e.sources) s.observations
      ≡ some t.observations
  pub enqueued :
      enqueue_model_definition_event context e.definition mutation generation s.outbox
      ≡ some t.outbox

module _ (context : Context Tables) where
  abbrev pub holds : Tables → Text → Bool
  holds tables k = holds_row context.namespace tables.entries k

  -- The identity of a definition is trimmed, so that its columns joined are its key.
  pub joined-at :
      (d : Option ModelVersion) (i : SurfaceIdentity)
      → identity_from_definition d ≡ some i
      → joined (at context i) ≡ key i
  unfolding at key identity_key
  joined-at d i e =
      let named = identity_from_definition-IsIdentity d i e in cc (named.vendor.0, named.model.0)

  upsert_references-written :
      (i : SurfaceIdentity) (e : RegistryEntry) (g : ℕ) (m : Text) (rows : List EntryRow)
      → (s t : Tables) → upsert_references context i e (g, m) rows s ≡ some t
      → (rows ≡ t.entries)
        × (replace_aliases context t.entries (at context i) e.definition s.aliases ≡ some t.aliases)
        × (replace_observations context t.entries (at context i) (map some e.sources) s.observations
            ≡ some t.observations)
        × (enqueue_model_definition_event context e.definition m g s.outbox ≡ some t.outbox)
  unfolding upsert_references
  upsert_references-written i e g m rows s t h =
      (ground (arith, h), ground (arith, h), ground (arith, h), ground (arith, h))

  entry_row-at :
      (k : RowKey) (e : RegistryEntry) (g : ℕ) (row : EntryRow)
      → entry_row context k e g ≡ some row
      → (k ≡ row.at) × (g ≡ row.generation)
  unfolding entry_row
  entry_row-at k e g row h = ground (arith, h)

  entry_row-columns :
      (k : RowKey) (e : RegistryEntry) (g : ℕ) (row : EntryRow)
      → entry_row context k e g ≡ some row
      → ((encode_model_definition context.json e.definition >>= context.to_jsonb)
          ≡ some row.definition)
        × ((encode_string_slice context.json e.badges >>= context.to_jsonb) ≡ some row.badges)
        × ((encode_pricing context.json e.pricing >>= context.to_jsonb) ≡ some row.pricing)
  unfolding entry_row
  entry_row-columns k e g row h = (ground (arith, h), ground (arith, h), ground (arith, h))

  pub upsert_transaction-IsUpserted :
      (i : SurfaceIdentity) (e : RegistryEntry) (s t : Tables)
      → upsert_transaction context i e s ≡ some t
      → IsUpserted context i e s t
  unfolding upsert_transaction upsert_entry
  upsert_transaction-IsUpserted i e s t h =
      let ((g, m), generated, h1) = bind-some _ _ t h in
      let (row, made, h2) =
        bind-some (entry_row context (at context i) e g)
          (λ row.
            write_entry m row s.entries >>= (λ rows. upsert_references context i e (g, m) rows s))
          t h1 in
      let (rows, written, h3) =
        bind-some (write_entry m row s.entries)
          (λ rows. upsert_references context i e (g, m) rows s) t h2 in
      let (row_at, row_generation) = entry_row-at (at context i) e g row made in
      let (definition, badges, pricing) = entry_row-columns (at context i) e g row made in
      let (kept, aliases, observations, enqueued) = upsert_references-written i e g m rows s t h3 in
      record {
        generation = g;
        mutation = m;
        row = row;
        generated = generated;
        row_at = row_at;
        row_generation = row_generation;
        written = written ∙ ap some kept;
        definition = definition;
        badges = badges;
        pricing = pricing;
        aliases = aliases;
        observations = observations;
        enqueued = enqueued;
      }

  pub upserted-IsSameBut :
      (i : SurfaceIdentity) (e : RegistryEntry) (s t : Tables)
      → IsUpserted context i e s t
      → IsSameBut (at context i) s t
  upserted-IsSameBut i e s t u = record {
    entries = λ j other.
        find_entry-write_entry_other j u.row u.mutation s.entries t.entries (rw (← u.row_at) other)
          u.written;
    aliases = λ j other.
        replace_aliases-other context t.entries j (at context i) e.definition s.aliases t.aliases
          other u.aliases;
    observations = λ j other.
        replace_observations-other context t.entries j (at context i) (map some e.sources)
          s.observations t.observations other u.observations;
  }

  -- A generation is given to an entry that is there, and the first one to a new entry.
  next_generation-storable :
      (k : RowKey) (rows : List EntryRow) (g : ℕ) (m : Text)
      → next_generation context k rows ≡ some (g, m)
      → is_storable_key k ≡ true
  unfolding next_generation get_definition_for_update
  next_generation-storable k rows g m h = ground (arith, h)

  pub next_generation-created :
      (k : RowKey) (rows : List EntryRow) (g : ℕ) (m : Text)
      → next_generation context k rows ≡ some (g, m)
      → (m == codes "created") ≡ not (has_entry k rows)
  unfolding next_generation get_definition_for_update has_entry
      code_code_platform_catal.Prelude.list_beq
  next_generation-created k rows g m h = ground (arith, h)

  upserted-holds :
      (i : SurfaceIdentity) (e : RegistryEntry) (s t : Tables)
      → identity_from_definition e.definition ≡ some i
      → IsUpserted context i e s t
      → (k : Text) → holds t k ≡ ((key i == k) || holds s k)
  upserted-holds i e s t named u k =
      let storable : is_storable_key u.row.at ≡ true =
        rw (← u.row_at)
          (next_generation-storable (at context i) s.entries u.generation u.mutation u.generated) in
      let created : (u.mutation == codes "created") ≡ not (has_entry u.row.at s.entries) =
        rw (← u.row_at)
          (next_generation-created (at context i) s.entries u.generation u.mutation u.generated) in
      let same : joined u.row.at ≡ key i =
        ap joined (sym u.row_at) ∙ joined-at e.definition i named in
      let own : u.row.at.namespace ≡ context.namespace =
        ap (λ (r : RowKey). r.namespace) (sym u.row_at) ∙ unfold at in refl in
      let done =
        holds_row-write_entry u.row u.mutation k s.entries t.entries storable created u.written in
      rw (own, same) at done

  pub upsert_holds :
      (e : Option RegistryEntry) (s t : Tables)
      → upsert_managed_definition context e s ≡ some t
      → (k : Text) → holds t k ≡ (has_key k (entry_identity e) || holds s k)
  unfolding upsert_managed_definition
  upsert_holds none s t h k = absurd (none_not_some t h)
  upsert_holds (some e) s t h k = elim (Option-cases (identity_from_definition e.definition)) [
    | inl unnamed ↦ absurd (none_not_some t (rw unnamed at h))
    | inr (i, named) ↦
        let done : upsert_transaction context i e s ≡ some t = ground (arith, h, named) in
        rw named (upserted-holds i e s t named (upsert_transaction-IsUpserted i e s t done) k)
  ]
