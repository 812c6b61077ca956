-- ===== src/Lib.antt =====
-- A verification library of the platform catalog, whose services collect, merge, store and list the
-- models of many vendors. Paths below are from the repository's root; MS stands for
-- packages/platform-k8s/internal/modelservice.
--
-- The parts and how they interact. The collectors ask the sources (MS/models/source) for their
-- models. Each source projects what it lists to collected entries, whose vendor is resolved by the
-- configured scope and whose model ID is normalized by MS/modelidentity. The synchronization
-- (MS/models/sync) merges the entries of all sources into one snapshot by the merge of MS/models,
-- and applies it to the registry, whose filters, pages and references MS/models/store serves. The
-- changes of the registry are told to the other services by domain events, through an outbox in the
-- database (packages/platform-k8s/internal/platform/domainevents), in the same transaction. The
-- schema of the database is migrated by packages/platform-k8s/internal/platform/state/postgres. The
-- versions of command-line tools are synchronized by
-- packages/platform-k8s/internal/cliruntimeservice/cliversions. The support service decides who may
-- read which fields of a stored credential.
--
-- The files. Prelude has the shared names: Boolean tests and the equality interface (Tests), lists
-- (Lists), the loop that drops repeated values (Distinct), maps as association lists (Assoc), chains
-- of results that may fail (Fallible), and sorting by a comparator and what comes after a key
-- (Sorting, Reorder, Rising). Text has Go's strings as lists of ASCII bytes, with the
-- functions of the packages `strings` and `unicode` that the program calls.
--   ModelIdentity/Slug, Suffix, Candidates   MS/modelidentity/identity.go: NormalizedVendorSlug and
--     NormalizeExternalModelSlug, the release suffixes, and NormalizeExternalModelIdentity.
--   Models/Authority   MS/models/source_authority.go, source_ids.go, source_priority.go.
--   Models/Badges, Models/Pricing   MS/models/source_model_badges.go.
--   Models/Definition   MS/models/definition_merge.go, definition_helpers.go, entry_defaults.go,
--     identity.go.
--   Models/Collected, Models/Registry   MS/models/source_model.go, model_registry_entry.go, and
--     MergeCollectedEntries.
--   Sources/Hosted, Sources/Projections, Sources/OpenRouter   MS/models/source: the shared helpers,
--     one projection for each source, and the identity and merge of OpenRouter's routes.
--   Sync/Vendor, Sync/Snapshot, Sync/Collect, Sync/Apply   MS/models/sync/vendor.go, snapshot.go
--     with vendor_support.go, collect.go and apply.go. The goroutines of the collectors are the
--     relation Arrival of Prelude/Reorder between what they give and what arrives. The store
--     is the interface DefinitionSyncStore over a type of states, whose laws are the record IsStore;
--     Tests/Runs gives a store in memory.
--   Store/Filter, Store/Pages, Store/Codec   MS/models/store: list_query.go, page_size.go and
--     definition_filter.go; the cut of a page and query_resolve.go; source_model_kind.go
--     and the normalizations of codec.go.
--   Store/Json, Store/Tables, Store/Write, Store/Registry   the encodings of codec.go, the tables of
--     packages/platform-k8s/internal/platform/state/migrations.go with their constraints, and the
--     transactions of store_write.go and store.go, which fill DefinitionSyncStore. JSON, jsonb, the
--     clock, the order of texts and whether the database answers are fields of Context; a failed
--     statement undoes its transaction.
--   Store/Tokens, Store/Scan, Store/Listing   list_pagination.go over the parameters base64 and JSON,
--     the rows that postgres_management.go reads back, and List of query_list.go.
--   Store/Query   the conditions of query_list.go, with SQL's like; the category and the lifecycle,
--     which the database casts, are left out.
--   State/Migrate   packages/platform-k8s/internal/platform/state/postgres/migrate.go.
--   Events/Subjects, Outbox, Publisher, Consumer   packages/platform-k8s/internal/platform/domainevents:
--     subjects.go, outbox.go, PublishPending of publisher.go and handle of consumer.go. The table of
--     the outbox is a list of rows. Which calls of the stream and the database fail is a parameter
--     of each run, so that a history is a list of runs with any failures.
--   CliVersions/Source, CliVersions/Syncer   cliversions/source.go, state.go, resolver.go and
--     syncer.go.
--   CliRuntime/DnsLabel   dnsLabel of internal/cliruntimeservice/cliruntime/image_build_job_helpers.go
--     of packages/platform-k8s.
--   Support/MaterialRead   internal/supportservice/credentialpolicy/material_read_authorizer.go of
--     packages/platform-k8s: who may read which fields of a credential.
--   Tests   the theorems at concrete inputs.
-- A function has the name of the Go function in snake_case, and a helper that is one step of it
-- follows its order. A nil pointer is `none`, an error is `none` or a constructor of a result type,
-- and the state of a loop is passed on explicitly.
--
-- Bounds. A text is ASCII, so that a byte is a rune. An int32 and an int64 are their bit patterns,
-- with the wrap-around written out where the program adds to a generation or reads an offset; other
-- integers are natural numbers, as the program never stores a negative one there. The one loop of
-- the program on fuel is the repeated ReplaceAll, whose fuel is the length of the text; all others
-- recurse on a list. A client that follows the pages of a listing makes a bounded number of requests,
-- one more than there are entries, which is enough. The numbers of the contract's enums are
-- parameters. The outbox orders its ids by their bytes; the registry's order of texts is a parameter.
--
-- Not modelled: HTTP, JSON, base64, protobuf encoding, logging and metrics, which are calls of
-- libraries; the validation of a definition is a parameter. A SQL statement is modelled by what it
-- does to the rows of its tables, and a failure of the connection by a parameter; concurrent
-- transactions on one entry, which the database serializes, are left out, as are the timestamps of
-- the registry's rows. Nor are the other parts of the CLI image builds, the rest of the support
-- service, the vendor and CLI definitions and the catalog discovery modelled. Of the domain events,
-- the connections to NATS, the timers, and the order in which the database returns updated rows are
-- left out.
pub mod Prelude
pub mod Text
pub mod ModelIdentity
pub mod Models
pub mod Sources
pub mod Sync
pub mod Store
pub mod Events
pub mod State
pub mod CliVersions
pub mod CliRuntime
pub mod Support
pub mod Tests
