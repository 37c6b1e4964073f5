-- ===== src/Lib.antt =====
-- Equill: a ledger of records that agents append to, with typed lifecycles, scoped write access,
-- and context bundles that a profile assembles from the ledger under a token budget. All paths
-- below are paths of the repository.
--
-- The parts and how they interact. A writer prepares a record, asks src/kernel/identity.rs whether
-- the actor may write it, and asks src/record/lifecycle whether it may supersede what it names; the
-- record then joins the ledger and the lifecycle's compact state. A reader validates the whole
-- ledger, gates its records by a profile (src/context/matching.rs), searches by meaning and by words
-- (merged in src/vector/fusion.rs), and cuts the candidates to a budget (src/context/budget.rs).
--
-- Base, Base/*: lists, association lists for maps, tests and strings. Samples: a JSON instance for runs.
-- Kernel/Error: the enum of src/kernel/error.rs and `Result`. An error's text is its format string.
-- Kernel/Identity: the checks of src/kernel/identity.rs on a `StoreConfig`, one function for each;
--   Kernel/Authority: who may write a record.
-- Json: serde_json's `Value`, a parameter with equality, pointers, printing and the arms in use.
-- Record: `StoredRecord` and `TypeDefinition`; an id is the 128-bit number of its UUID.
-- Lifecycle/Rules, State, Append, Registry, Writer: src/record/lifecycle/mod.rs and state.rs, with
--   `validate_lifecycle` of src/record/writer/mod.rs; entries are in the order of the ledger and not
--   of ids, which the rules cannot tell apart. The digest of a record and the loading of a type are
--   parameters.
-- Lifecycle/Graph: src/record/lifecycle/graph.rs. The map of counts `children` is a list of ids with
--   repetitions. The loop of `reject_cycles` runs on fuel, one more than the ledger has records.
-- Lifecycle/Describes, Lookup: what the state says of the ledger. Lifecycle/Ledger, Checks, Edge,
--   Cycles, Heads, Keys, Valid: what the canonical validation has established of a ledger that it
--   accepts. Lifecycle/Fuel, Total, Calm: that it returns. Lifecycle/Candidate, Added, Step, Sound, Writes: what the compact check adds to it.
-- Context/Model, Budget: src/context/budget.rs with its report, its models and the tokenizer's
--   check. Rendering, the token count and the largest `usize` are parameters; Context/Bounds, Fits,
--   Shares, Accounts: the limits, and the account of every candidate.
-- Context/Matching: `gate` and `classify` of src/context/matching.rs; Context/Gate: what the gate
--   asks. Context/Diagnosis: `coordinate_diagnosis` of the same file. Timestamps, lower case and the text of a JSON value are parameters.
-- Vector/Fusion: src/vector/fusion.rs. Ranks are unbounded: the source bounds them by the page size
--   and computes in 128 bits. Vector/Order: what `ordered` returns;
--   Vector/Sorted: the order that `fuse` sorts by.
--
-- Json/Tree: the arms of serde_json's `Value`, for the code that matches on them.
-- Filter/Terms, Text, Parse: src/filter/mod.rs; Filter/Apply: src/filter/apply.rs; Filter/Schema:
--   src/filter/schema.rs. A condition's path, which the source indexes at 0, is never empty. The texts
--   of a number and of an id are parameters. Filter/Print, Trim, RoundTrip, Plain, Flags: the flags
--   that are read, and as what; Filter/Policy: strictness and alternatives;
--   Filter/Known: the paths that the check accepts.
-- Context/Search, Collect: src/context/semantic.rs and src/context/retrieval/search.rs. The searches
--   themselves are the fields of `Searches`. Context/Retrieval: the loop, the order and the
--   expectations of src/context/retrieval.rs and its fallback.rs; the filter reads a value through
--   `arms`. Context/Sifting, Answers, Selected, Ordered, Precedence, Ranking,
--   Expected: what becomes of each record and in which order.
-- Context/Receipt: src/context/receipt.rs over an association list of files, with the faults of a
--   read and of a write as values; Context/Filing: the receipts on file.
-- Context/Assembly: `retrieve` as a whole and src/context/assembly.rs, which calls the filter's check,
--   the retrieval, the budget and the receipt in turn. The loads of the store are the fields of
--   `Store`. Context/Chosen, Gathered, Behind, Composed: what a bundle holds.
-- Context/Registry: src/context/registry.rs over an association list of files; Context/Registered,
--   Settled: the entries on file, and the budget of a profile that was loaded.
-- Record/Words: src/record/word_limit.rs.
-- Vector/Cooldown, Handoff: src/vector/catchup/cooldown.rs and handoff.rs, the latter as single file
--   operations; Vector/Exclusion: the steps of several writers, mixed; Vector/Takeover: which
--   claims give way.
--
-- Not modelled: reading and writing of files (the lifecycle state's file, the write transaction and
-- its recovery), search indexes and embeddings, the command line and the MCP server, compaction,
-- governance, and import.
pub mod Base
pub mod Kernel
pub mod Json
pub mod Record
pub mod Context
pub mod Filter
pub mod Lifecycle
pub mod Samples
pub mod Vector
