-- ===== src/Lib.antt =====
-- Project Brain: an auditable knowledge base in Go over PostgreSQL, with an HTTP and a Telegram
-- front end. This library models the core of the program and proves what makes it correct.
--
-- PARTS AND FILES
-- - Base: Booleans, lists, the functions of Go's `strings` package, error values and `Calls`, the
--   calls that change a state and return a result or an error. What a call wrote before an error
--   stays written, as in Go; only a transaction takes it back.
-- - Domain: internal/domain, the records and the constants. A UUID is a number with 0 for
--   `uuid.Nil`, an instant the nanoseconds since the zero `time.Time`, a float64 its bit pattern.
-- - Store: internal/postgres. `Store.State.World` is the database with counters of the calls, the
--   UUIDs drawn and the readings of the clock; `Store.State.Env` answers, by those counters, what
--   the program does not decide: which statement fails, how a COMMIT or ROLLBACK ends, the time,
--   the UUIDs, `unicode.ToLower`, SHA-256 and some texts of `fmt` and `uuid`. Store.Objects is
--   knowledge_objects_repo.go, Store.Sources source_repo.go, Store.Audit audit_event_repo.go, each
--   statement with the constraints of migrations/sql, and Store.Tx the `Within...Tx` functions of
--   db.go.
-- - Lifecycle: internal/app/validate_object.go and object_debate_*.go, the transitions of a
--   knowledge object with their audit rows. Lifecycle.Write is the specification: the writes that
--   are allowed. Lifecycle.Refine relates the services to it, Lifecycle.Trail, Lifecycle.Accounts
--   and Lifecycle.Terminal are about every sequence of such writes.
-- - Ingest: internal/app/ingest_text.go, the preparation of a request, the identity key, the
--   duplicate path and the four writes. Ingest.Prepared is about the key, and Ingest.Once about a
--   second ingestion with the same key.
-- - Retry: internal/app/embedding_retry.go, embedding_hook.go and
--   internal/postgres/embedding_jobs.go,
--   the queue of failed embeddings. `Retry.Queue.Queue` adds the tables of jobs and vectors to the
--   world; `Retry.Queue.Outside` is the embedder, the texts of errors and the cancellation.
-- - Sdd: internal/app/sdd_document.go and internal/postgres/sdd_documents.go, the document that
--   lists the validated objects of a workspace, and the hooks by which internal/runtime/services.go
--   keeps it. Sdd.Race is about two calls whose statements interleave.
-- - Backlog: internal/app/object_debate_backlog.go, cursor.go and
--   internal/postgres/backlog_query_repo.go, the worklist of a workspace in pages. The pages are
--   stated over any `CursorCodec` that keeps times and IDs; Backlog.Wire is the codec of cursor.go,
--   with its JSON template and its tags, over Base64, a JSON parser and the formats of times and
--   UUIDs as the parameters `CursorWire`.
-- - Telegram: internal/telegram. Telegram.Message is the request that a message becomes,
--   Telegram.Render handler_render.go, Telegram.Backlog handler_backlog.go and Telegram.Review the
--   review buttons of handler_callback.go. `Telegram.Chat.Chat` is the world with the stored actions
--   and the calls that were made to Telegram, failed ones too; `Telegram.Chat.Bot` says which fail.
--   Telegram.Desk adds postgres/pending_validations.go and raw_input_repo.go, with the JSON of a
--   pending message as a parameter, and Telegram.Intake is handler.go and the rest of
--   handler_callback.go: what becomes of an update. The collision detector is a parameter.
--   Telegram.Pending is the sweep of the pending messages and their store in memory.
--   Telegram.Still, Guards, Trail, Writing, Handling, Updates, Kept, Once, Buttons and Wrap hold the
--   proofs.
-- - Tokens: internal/app/inmem/inmem.go and internal/postgres/telegram_review_actions.go, the two
--   stores of one-use review buttons.
-- - Session: any calls of the four write services, one after another.
-- - Search: internal/app/retrieval.go, composite_retriever.go and collision.go. A float64 is its
--   bits and its operations are parameters, as are the retrievers, the embedder and the order that
--   sort.Slice and a Go map give. Search.Fused, Failures and Collisions hold the proofs.
-- - Http: internal/httpapi and internal/runtime/server.go. Http.Message has requests, responses and
--   the record `Outside` for net/http, encoding/json, uuid and strconv; Http.Handlers is handler.go
--   and the other handlers, Http.Auth auth/auth.go with Http.Secret for its comparison, Http.Limit
--   ratelimit/ratelimit.go, Http.Problem problem and security, Http.Server health.go and
--   `BuildServer`. `Http.Limit.Api` is the world with the buckets. A middleware takes the handler
--   inside it, and a handler the headers set outside it. Http.Routing, Access, Gate, Reading, Storing,
--   Effects, Tables and Once hold the proofs, from the handlers to the whole server.
-- - System: the HTTP server and the bot over one database, in any order.
-- - Mcp: internal/mcp. Mcp.Server is server.go, Mcp.Client client.go over a network that is a
--   parameter, Mcp.Tools tools.go; Mcp.Replies is about what the server owes.
-- - Runtime: internal/config/config.go, internal/runtime/shutdown.go and internal/migrations, with
--   goose as a parameter.
--
-- BOUNDS AND LIMITS OF THE MODEL
-- Texts are valid UTF-8. Transactions on one row are serialised by `SELECT ... FOR UPDATE`, so a
-- session is a sequence of whole calls. A negative page size is taken as 0, as the service reads
-- both. Loops are recursions on lists; nothing needs fuel. Context cancellation is one more way for
-- a statement to fail. Log lines are left out, but for the readings of the clock that they make.
-- TIMESTAMPTZ keeps microseconds; the model keeps instants as they are. A request is handled as a
-- whole before the next one. An int is its 64 bits. The sections of a stored SDD document have the
-- four known keys: a row that another program wrote with more keys is outside the model.
-- Not modelled: the transport of HTTP itself, the ranking by PostgreSQL, the wiring of the services,
-- signals and the settings of the bot.
pub mod Base
pub mod Domain
pub mod Store
pub mod Lifecycle
pub mod Http
pub mod Ingest
pub mod Mcp
pub mod Retry
pub mod Runtime
pub mod Sdd
pub mod Backlog
pub mod Search
pub mod Session
pub mod System
pub mod Telegram
pub mod Tokens
mod Tests
