-- ===== src/Lib.antt =====
-- A verification library for yams, an offline memory search for coding agents: pages are cut into
-- chunks, embedded and ranked; a query selects hits, and a warm service answers clients over a socket.
--
-- The program's parts, and the files that model them:
--   * Protocol/Errors, Protocol/Frame (crates/yams-protocol/src/frame.rs, json.rs): `FrameReader` is
--     the record of the same name, its methods `new`, `want`, `frame` and `feed` are functions on it
--     that pass the state in and out. Frame/Io has the blocking `read_exact`, `write_all`,
--     `read_frame` and `write_frame` over a stream whose system calls are answered by a schedule.
--     Frame/Reader is the description of `feed` and `frame` without a state.
--   * Protocol/Message (crates/yams-protocol/src/message.rs): `ServiceOperation::from_argv`, whose loop is
--     a mode and the operation read so far, and `Request::from_argv`. Protocol/Json (json.rs): `encode`,
--     `decode_request` and `decode_response`. serde_json is two parameters: `reads` gives the keys and
--     values that it passes to the visitors, and a writer gives the pieces that reach
--     `BoundedJsonWriter`. Json/Nesting describes `validate_nesting` without its state, Json/Valid and
--     Json/Trips have what decoding admits and gives back.
--   * Cli/Client (crates/yams-cli/src/client.rs, args.rs): the operation and the arguments that a client
--     sends for one request, which Protocol/Message reads.
--   * Service/Admission, Service/Loop, Service/Serve (crates/yams-service/src/service.rs):
--     `poll_admission` feeds what a connection delivers to a `FrameReader` of Protocol/Frame,
--     which Admission/Polled describes without a reader;
--     `serve_until` is one function `round` on the loop's variables, put together from `drain_done`,
--     `scan`, `take_in`, `admit`, `check_idle` and `shut_down`, the parts of its body. Service/Execute
--     has `execute_request`, whose sends answer as they like.
--   * Core/Chunk (crates/yams-core/src/chunk.rs): `chunk` and all that it calls.
--   * Core/Frontmatter (crates/yams-core/src/frontmatter.rs): lines and leading fields of a page.
--   * Core/Sanitize (crates/yams-core/src/sanitize.rs): the text that may go to a terminal.
--   * Core/Select (crates/yams-core/src/select.rs): Exact has `exact_identifier_match`, Gate has
--     `apply_gate`, Pipeline has `SelectionConfig::new`, `validate_hit` and `select`, which calls both.
--   * Core/Snippet (crates/yams-core/src/snippet.rs): `snippet`, which Choose composes from the spans of
--     the terms, the scores of windows and `snap`, and in Terms `query_terms`.
--   * Core/Rank (crates/yams-core/src/rank.rs): Cosine has `cosine`, Dense has `dense_rank`, Fusion has
--     `rrf_explained`, `rrf_scores` and `ranked_ids`, and Hybrid has `hybrid_rank`, which composes a
--     lexical and a dense ranking. Vectors are lists of an abstract component type.
--   * Wiki/Schema (crates/yams-wiki/src/schema.rs): Slug has `slugify`, Lines and Page the strict parser
--     of the front matter and `parse_wiki_page`, Scalar the rules of one-line values, Render has
--     `render_page`, `render_create` and what they check, Update has `render_update`. A refusal is a
--     constructor named by what its message says.
--   * Core/Text and Core/Floats: what the core does with `str` and with `f64`.
--   * Prelude: names that all files share, list lemmas, `Result`, and the stable sort of slices.
--
-- Conventions. Numbers are natural numbers; sizes, ranks and times are below the bounds of their
-- types in all that is stated, and where the code narrows a number (`u32::to_be_bytes`) the bound is
-- written out. Text is the list of its characters, but of its bytes in Core/Select, which compares
-- bytes, and in Service/Execute, Protocol/Message, Protocol/Json and Cli/Client, which count them. A page
-- of Core/Rank is its canonical path. Scores are an abstract type with the operations of `f64`;
-- facts of IEEE 754 that a theorem needs are its hypotheses, and `hundredths` is a model of them.
--
-- Bounds and fuel. `append_piece` loops on fuel, the length of its text and two: each round takes a
-- character, but for one that only flushes and one that only adds a boundary, so the fuel is enough.
-- The loops on the stream end with its schedule of system calls, which is long enough if it delivers
-- the bytes. A poll of a connection ends when its reads do, which then would block. The service loop
-- is unbounded: its runs are an inductive relation over rounds.
--
-- The service's shutdown token is shared with other threads. Whether another thread has asked for the
-- shutdown before one of the loop's looks at the token is an input of the run, which makes each
-- interleaving a run; that no more workers report than are active is a hypothesis on rounds,
-- which the drop guard of a worker gives. Time is read once where the code reads it twice in a row.
--
-- Parameters. The crates that the code calls are arguments of the definitions: serde_json, and for
-- the wiki Unicode decomposition, case folding, combining classes, decimal numbers, the matches of
-- regular expressions and the SHA-256 digest.
--
-- Not modelled: the embedding model and its construction lock (yams-embed), the SQL store and its
-- migration (yams-store), the file system (yams-fs), the sockets (yams-runtime and the rest of
-- yams-service), the guarded writes and the locks of the wiki (yams-wiki), and the exchange and the
-- output of the command line (yams-cli). They are mostly system calls, a database or a tensor
-- library. The index and the checks of the wiki, the requests of the wiki as JSON, and the parsing of
-- command line numbers are still to be modelled; the manifest says which.
pub mod Prelude
pub mod Protocol
pub mod Core
pub mod Service
pub mod Cli
pub mod Wiki
