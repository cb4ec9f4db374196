-- ===== src/Lib.antt =====
-- Latte Code: the parts of the program that carry its own logic, and what holds of them.
--
-- Latte Code runs a coding agent. A turn is one request of a user that the agent works on; its state
-- is a value of TurnState and changes by TurnState::transition (crates/latte-core/src/state.rs). The
-- engine keeps turns in SQLite (crates/latte-engine/src/storage.rs): each write of a turn names the
-- revision that it read and presents a lease, whose fencing token comes from one global counter. A
-- coordinator that lost its lease is meant to write nothing more, except that it interrupts its turn. An effect, such as a command or a file
-- write, is prepared with a permission, started by consuming it, and finished or marked unknown. The
-- session runtime (crates/latte-headless/src/session.rs) builds the provider's requests within the
-- byte budgets of a harness profile (crates/latte-core/src/profile.rs): it projects the cards of a
-- session to messages and, where they do not fit, elides old tool results or has them summarized. The cards of a session are kept
-- in a file of its own, to which the engine appends what a table of the database still holds
-- (crates/latte-engine/src/conversation.rs). The tools of the agent work on files below the root of a
-- workspace, under a policy (crates/latte-engine/src/tools.rs, policy.rs and workspace.rs).
--
-- Files:
--  Base: lists, results, tables and Boolean tests that the others share.
--  Core/Protocol, Core/Turn: crates/latte-core/src/protocol.rs, ids.rs, state.rs. Core/Turn/Revision,
--    Invariant, Graph and Outcomes hold the proofs by what they prove.
--  Core/Profile: crates/latte-core/src/profile.rs, with its proofs in Core/Profile/Budget.
--  Engine/Ledger: the tables of crates/latte-engine/src/storage.rs as one record of lists of rows.
--    Engine/Ledger/Leases has acquire_scoped_lease, renew_lease and release_lease; Turns has
--    create_turn, load_turn, apply_transition and append_event; Effects has create_prepared_permission,
--    consume_permission_and_start, finish_effect, mark_effect_unknown and permission_matches,
--    Replace has replace_pending_effect with its proofs in Rebound; Waiting
--    has cancel_waiting, interrupt_after_lease_loss and the checkpoints. Engine/Ledger/History puts
--    their successful calls into sequences, by any holders in any order: Steps and Safety hold what
--    leases and effects keep, Tables and Whole what all tables keep, Fenced who may write.
--  Engine/Cursor: encode_session_cursor and decode_session_cursor of the same file; RoundTrip the proofs.
--  Core/Session: the cards of crates/latte-core/src/session.rs. Engine/Conversation: the store of
--    crates/latte-engine/src/conversation.rs, with sync and read; Format has the records and how they
--    are read, Lines, Records, Written, Entries, Recovery and Appends the proofs.
--  Engine/Workspace: lexical, display, read and mutation of crates/latte-engine/src/workspace.rs, with
--    proofs in Contained and Display. Engine/Policy: decide of crates/latte-engine/src/policy.rs.
--    Engine/Tools: prepare and prepare_for_engine of crates/latte-engine/src/tools.rs; Mutations has
--    atomic_replace of workspace.rs, Execute the edits and writes of execute, require_fresh, and how
--    matches are counted and replaced; Readings, Decisions, Execute/Occurrences and Execute/Edits the proofs.
--  Headless/Message: the messages of crates/latte-headless/src/provider.rs. Headless/Frames: the
--    volatile frames of crates/latte-headless/src/session.rs, with escape_volatile_frames; Boundaries,
--    Escape and Framed hold the proofs. Headless/History: the projection of a transcript to segments,
--    apply_entry and in Scan scan_history_segments; Pairing, Grammar, Denied and Superseded the proofs.
--    Headless/Elision: elide_prefix, with Outline and Sequences. Headless/Compaction: the retain
--    boundary, the bounded source of a summary, and in Planner prepare_history with its tiers;
--    Boundary, Source, Runs, Kept, Window, Plans and Prepared the proofs.
--  Headless/Policy, Headless/Request: the budget, the two-phase fit and the assembly of a request in
--    crates/latte-headless/src/session.rs, and history_policy in crates/latte-headless/src/profile.rs.
--  Tui/Command: the catalog and resolve_slash of crates/latte-tui/src/command.rs, with proofs in Policy and Names;
--    Suggestions has slash_suggestions and its order, Ranking what is suggested.
--  Examples in each part evaluate the operations on concrete values.
--
-- How the code is read: a transaction is a function from the tables to a result with the new tables;
-- one that fails returns none, so the caller goes on with the old tables. An UPDATE with conditions
-- is a map over the rows that it selects, and the number of changed rows is a count. A primary key or
-- a unique column is a test before the insertion. Any error of SQLite is one constructor. A JSON
-- column holds the value that it encodes. Columns that no operation reads back, such as the times of
-- an update, are left out. A number is a natural number: u64 sums are checked against u64_max, and a
-- number that is bound to a column against i64_max, as to_i64 does. The product that compares the
-- trigger of a compaction wraps at 64 bits. Identifiers of new events and effects, and the clock, are
-- arguments. No fuel is used: every loop is structural, over a list or a count, and a u64 is printed by
-- as many rounds as it can have digits, sixteen hexadecimal ones in a cursor.
--
-- A file of a conversation is a list of bytes, and a read or write of it succeeds; what a crash leaves is
-- any beginning of it. A path is that of Unix, a list of its segments as they are spelled. Between two
-- calls of one operation on files nobody else changes them.
--
-- Parameters: the text of a transition error, the errors of serde_json on a text, the encoding of
-- messages by serde_json, and, in the profiles and the request window, the wrapping of a summary into
-- a message, str::trim, str::len and str::replace; in the history and its compaction the fields of a
-- JSON value, the redaction of texts by redact_session_text, str::trim, the head of the system prompt
-- and the reply of the provider to a summary request, without one where it fails; in the conversation store the bytes,
-- values and identifiers of serde_json and uuid with the laws that the record Codec names; in the
-- tools the fields of a JSON value, the digest of an operation, the globs of the policy, and the
-- calls of the operating system. Where a theorem needs the encoding to succeed, that is its
-- hypothesis.
--
-- Not modelled: the baseline of a turn's files; the session tables with their commits and the
-- recovery of linked turns, so that the release of a session lease is that of its row alone;
-- startup recovery; the directory of the conversation files, its permissions and locks, and the table
-- that their entries come from; the outputs of the reading tools, the manifest of a workspace, and processes; the compaction between rounds and by
-- hand, and the collection of repository context. A history of the ledger is a
-- sequence of the modelled calls; two of them, create_turn and append_event, are called by tests only: the
-- program creates a turn by create_run_with_baseline, of which create_turn is the case without a
-- baseline, and appends no event by itself, so that the histories hold those of the program and more.
-- serde_json also reads a kind of an entry that is written as an object with one key and null; read_kind
-- takes a text only. Providers, the HTTP server, the terminal interface and the
-- command line are input and output around these.
pub mod Base
pub mod Core
pub mod Engine
pub mod Headless
pub mod Tui
