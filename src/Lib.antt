-- ===== src/Lib.antt =====
-- MOMO Core: a local-first foundation for AI character experiences. This library models the parts
-- of the program that decide things, without the network, the database and the prompts around them.
--
-- The program answers a request for a character in a Space. The admission of operations over
-- several Spaces (crates/momo-core/src/space_worker/reservations.rs) keeps two of them from touching
-- one Space at a time, and the coordination of operations
-- (crates/momo-core/src/orchestration/coordination.rs) lets them be cancelled. The capability of the
-- endpoint (crates/momo-core/src/capability.rs) and the runtime settings
-- (crates/momo-core/src/governance.rs) bound what the request may ask for; the settings carry those
-- of the memory lifecycle (crates/momo-memory/src/lifecycle.rs), and are stored with sparse overrides
-- for each Space (crates/momo-core/src/runtime/settings.rs). The disposition model
-- (crates/momo-memory/src/ddm.rs) chooses the cues that the prompt shows. The budgeter
-- (crates/momo-core/src/context.rs) fits the sections and the history into the context window, where
-- the images and tool exchanges of earlier turns are charged at what they expand to
-- (crates/momo-core/src/orchestration/history.rs). What a turn changes in the memory comes as a patch
-- of its documents (crates/momo-memory/src/patch.rs, workspace.rs), is prepared as a commit
-- (crates/momo-memory/src/commit.rs) and applied as a transaction on files.
--
-- Files and sources:
--   Admission       space_worker/reservations.rs: `admit` is a pass over the queue, `turn` a message
--                   and the pass after it; a Space is a number, a reply channel a number whose
--                   closing is a parameter
--   Context         context.rs: `estimate_text_tokens` (Tokens), truncation by binary search
--                   (Truncate, Largest), quotas by water-filling (Quotas), the system sections
--                   (Sections, Fits), `prepare_context_with_counter` (Prepare), what it is charged
--                   (Budget), which messages it shows (Shown, Recency) and what they cost (Spending)
--   Governance      governance.rs: the records and defaults (Settings), `validate` (Validation),
--                   `apply` and `govern` (Overrides), and what they promise (Bounds, Acceptance,
--                   Audit)
--   Ddm             ddm.rs: the profile and the signals (Profile), `validate` and `parse_yaml`
--                   (Validation, Soundness), `evaluate_with_previous` (Evaluation), hysteresis
--                   (Bands), groups and `top_k` (Selection), the order (Ranking)
--   Capability      capability.rs: profiles and request parameters (Profile), the registry
--                   (Registry, Freshness)
--   Commit          crates/momo-memory/src/commit.rs and the transaction of
--                   crates/momo-memory/src/lib.rs (Transaction), what a failure leaves (Atomicity)
--                   and what a success installs (Success, Images)
--   Memory          the documents of crates/momo-memory/src: `Metadata` and `validate_metadata`
--                   (Metadata, Same), `parse` and `encode` (Document), the paths of filesystem.rs
--                   (Components, Paths, Archive), patch.rs with the repairs of escapes (Escapes), the
--                   sections of a body (Section) and the operations of a patch (Operations), the
--                   access configuration and the index of lib.rs (Access, Index) with the terms of
--                   retrieval.rs (Terms), and `prepare_patch` of workspace.rs (Patches, Prepare); a
--                   text counts as bytes only where `mutate_section` adds up offsets
--   Operations      crates/momo-core/src/orchestration/coordination.rs: the entries of the requests in
--                   progress (States) and the guards that hold them (Tracking)
--   RuntimeSettings crates/momo-core/src/runtime/settings.rs: JSON documents (Json), `merge_patch` and
--                   `prune_empty_objects` (Merge, Distinct, Prune), `field_sources` (Sources),
--                   validation and the settings in effect (Store, Validity, Normalized), `load` and
--                   `update` (Update) and what they promise (Editing, Soundness, Effect, Reload)
--   History         crates/momo-core/src/orchestration/history.rs with the messages of
--                   crates/momo-core/src/gateway.rs and crates/momo-domain/src/conversation.rs
--                   (Messages), whose validation is Payload and Storable: `HistoryContext::new`
--                   (Evidence), `prepare_context` and `expand` (Expand), and what the expansion costs
--                   and holds (Budget, Images, Claims)
--   Lifecycle       crates/momo-memory/src/lifecycle.rs with the record policy of
--                   crates/momo-domain/src/provenance.rs (Policy): the ledger's clocks (Ledger), what a
--                   turn does to a memory (Aging) and to all (Turns), what it cannot do (Retention,
--                   Visits, Spacing) and the order of the ledger (Behind, Order,
--                   Invariant)
--   PromptSpaces    crates/momo-core/src/prompt_spaces.rs: the registry (Registry), the names of the
--                   prompts (Names), what a replacement does and what can be loaded again (Overrides)
--   Prelude         what the others share: Boolean tests, lists, sets of identifiers, text as code
--                   points, `Result` as `Outcome`, `sort_by`, sets and maps keyed by text, and
--                   64-bit arithmetic
-- Each component's Tests module runs it on concrete input and applies the theorems there.
--
-- Numbers: `usize` and `u64` are natural numbers; a sum that the source saturates is capped at
-- 2 ^ 64 - 1 (`sat_add`), and `saturating_sub` is the subtraction of ℕ. Times are seconds since 1970,
-- saturated at 2 ^ 63 - 1; those of a memory are integers (ℤ). A floating-point number is a parameter with its operations (`Floating`,
-- `Double`); what a theorem assumes of them is a record (`IsOrdered`, `IsTotal`).
--
-- Loops: a loop over a list is recursion on the list. The binary search has the width of its interval
-- and one more as fuel, since each step makes the interval shorter; water-filling as many rounds as
-- there are tokens, since each round but the last one deals out one at least; the shrinking of the
-- system text as many as there are characters, since each round drops one; the digits of a number as
-- many as the number and one more, since each digit divides it by ten; the front matter loses as many
-- leading fences as it has characters at most. The search and water-filling give none where the fuel
-- runs out, and are shown to end by their own tests before that.
--
-- Parameters stand for code of other packages: the exact tokenizers, the YAML deserializer, YAML documents
-- of the memory, NFKC normalization, lower case and the alphanumeric characters, the SHA-256 digests, JSON values, `serde_json`'s documents of the
-- settings and of tool calls, the files that settings and prompts are kept in, the HTTP request that
-- fetches a capability document, and the checks on paths that read the directory tree. What the
-- memory workspace says of a memory (its path, the references to it, whether the query finds it) is
-- an input of the lifecycle.
--
-- Not modelled: the HTTP server, the SQL and vector stores, encryption, the MOC and LSB containers,
-- character-card import, the model gateway and the orchestration of responses, which are input and
-- output around the parts above; of the memory workspace, the upkeep by calendar time
-- (`run_maintenance`), restoring and deleting, the snapshots, the scene that a patch starts from for
-- an identity, and the provenance that a commit records; and the ranking of retrieval and the
-- semantic graph. Errors of reading a file in a transaction are left out, as is an owner of the
-- coordination's state that ends before its guards.
mod Prelude
pub mod Admission
pub mod Context
pub mod Governance
pub mod Ddm
pub mod Capability
pub mod Commit
pub mod Operations
pub mod RuntimeSettings
pub mod History
pub mod Lifecycle
pub mod Memory
pub mod PromptSpaces
