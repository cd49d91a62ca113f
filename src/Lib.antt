-- ===== src/Lib.antt =====
-- Vejas, an integration runtime: flows in VejasScript, run in process over a message bus.
--
-- What is modelled is the language core of the runtime, core/src/vjs.rs, and the round of a flow
-- around it, in core/src/main.rs: pull, run, hold the emits, confirm, ack; and the decisions on
-- proposed changes there, with the gate in front of them. Beside them stand the bus client with its
-- barrier, core/src/bus.rs, the dead-letter queue of core/src/connectors.rs, the secret stores,
-- core/src/secrets.rs, the MQTT client of the drivers, core/src/mqtt.rs, the overlay of published
-- versions, core/src/versions.rs, the proposal queue, core/src/proposals.rs, the metrics of
-- core/src/metrics.rs, and the leases of core/src/cluster.rs. The runtime calls `run` with a parsed
-- program, an event and an engine; the interpreter reads and writes the pipeline (`Ctx`), and goes
-- through the engine for services of other files, which it loads, parses and caches, and for
-- secrets. A lease decides which instance runs a driver, and the overlay which source of a flow is
-- parsed.
--
-- Vjs.Value: JSON values, and `Platform`, which stands for serde_json (`Number`, `Map`, `==`,
--   `to_string`), f64 and the case tables of Unicode. Of a map it states what `insert` and `remove`
--   do to `get`; entries are kept in the order in which the map is iterated.
-- Vjs.Text: what the interpreter uses of `str`, on characters.
-- Vjs.Ast: `Expr`, `Stmt`, `Program`. A list inside the tree is a type of its own.
-- Vjs.Token: `Tok`, `FPart`, `Spanned` and the errors of reading a source: a message at a line, a
--   slice out of range or inside a character, and want of fuel. Vjs.Symbols: the words and symbols.
-- Vjs.Lexer: `lex`, `lex_string`, `lex_fstring`, on bytes. A recursion on fuel takes a unit for a
--   token, a piece of an f-string or a nested hole, and `lex` gives one more than there are bytes.
-- Vjs.Parser: `Parser`, as an action on the tokens that are left; Vjs.Parser.Operators and
--   Vjs.Parser.Exprs are `expr` and `invoke_args`, Vjs.Parser.Stmts `stmt` and `block`,
--   Vjs.Parser.Literals `literal_value`, Vjs.Parser.Programs `program` and `parse`. Each loop is a
--   definition on fuel, one unit for a token; `parse` gives one more than there are tokens, those in
--   f-string holes included. Vjs.Parser.Within has a rule for each way to build a parser, on how
--   many tokens it takes.
-- Vjs.Rules: the rules view, `flow_rules` and what it renders.
-- Vjs.Surface: `get_literal` and `set_literal`, which edit a constant in the bytes of a source; the
--   reader of JSON is an argument, and the slices are at token positions, so that they cut no
--   character.
-- Vjs.Static: `writes_bus` and its visitors; Vjs.Static.Secret is `walk_expr` and `walk_stmts`, and
--   Vjs.Static.Graph is `collect_static`.
-- Vjs.Failure: the errors, one constructor for each message of the code.
-- Vjs.Builtin: `builtin`.
-- Vjs.Engine: `Engine`, `resolve`, `exports_of`, `service_stmts`. Files and the parser are the
--   record `Sources`: files do not change during a run, and the parser is an argument, of which the
--   engine uses only that it gives a program or an error.
-- Vjs.Eval: `eval` as an action on `State`, the pair of `Ctx` and `Engine`; Vjs.Eval.Ops holds the
--   operators on values. What runs an invoked service is an argument, `service`.
-- Vjs.Run: `exec_block`, `set_path`, `run_service`, `run`. `run_service` recurs on fuel, one unit
--   for each nested service, and `run` gives it 33, one more than the depth that the code allows.
-- Secrets: `SecretStore` and `RedactedStore`. SecretFile: `FileStore` over the record `Disk`, which
--   stands for the file system and serde_json; a path is not part of the error messages.
-- Mqtt: the MQTT 3.1.1 client that the MQTT source and sink use, core/src/mqtt.rs. Mqtt.Wire writes
--   packets (`put_str`, `put_remaining_len`, `frame`), Mqtt.Parse reads them (`parse`), Mqtt.Client
--   has the methods of `Client` as actions on its fields. The stream and the clock are the record
--   `Stream`. A length has ten rounds of seven bits, enough for 64 bits; the wait for an answer
--   recurs on fuel, since nothing bounds it in the code, and Mqtt.Handshake says what is enough.
-- Versions: the version overlay, core/src/versions.rs, by which the runtime picks the source of a
--   flow. The bucket (`bus::Kv`, a client of NATS) is the record `Bucket`; `BucketLaws` of
--   Versions.GitWins names what is relied on of it.
-- Proposals: the proposal queue, core/src/proposals.rs, over the same record `Bucket`; the listing of
--   its keys is an argument.
-- Metrics: the counters and the histogram of each unit, core/src/metrics.rs, and the calls that
--   observe it; f64 is the record `Seconds`, in which `bounds` reads the thirteen literals of
--   `BUCKETS`. The rendering is not modelled.
-- Lease: the leases of singleton drivers, core/src/cluster.rs, as events of instances over one key
--   of a bucket, in any order; each event is a round of a loop there, or the drop of a guard.
--
-- Bus: the link to NATS, the barrier, batches and acks, core/src/bus.rs. The NATS client is the record
--   `NatsClient` over a state that other threads share; Bus.Laws says what is relied on of it, in terms
--   of a `History`: what was handed over on which connection, what the server has read, what streams
--   have stored; its `calls` are the core publishes alone, neither the pull requests, which carry a
--   reply, nor what is published to a stream. Bus.AckSubject is `parse_ack_subject`, and Bus.Pull the rounds of a `Puller`, where
--   what an inbox receives until its deadline is a list; a round is collected on 65 units of fuel, one
--   more than its messages.
-- Dlq: the dead-letter queue and its announcements, `to_dlq` of core/src/connectors.rs.
-- Flow: a round of `supervise_vjs`, core/src/main.rs, as an action on the state of its thread,
--   Flow.State. Clocks, the stop flag and the messages that come are the `Turn`s of the round. Errors
--   are constructors in place of texts. Flow.Asked says what core publishes a round may make, and Flow.Messages,
--   Flow.Turns and Flow.Settled follow it through a message, the loop and the barrier.
-- Governance: the decision on a proposal and what it applies, `decide_proposal` and `apply_approved` of
--   core/src/main.rs; Governance.State has the paths, the files and what the runtime is in when it is
--   called. Governance.Queue is `submit_proposal` and `reconcile_and_list`, and Governance.Doors the
--   credentials and the write gate of `handle_request`, on the bytes of texts.
--
-- Exec is the shape of fallible code over `&mut` state: a result, and the state that is left also
-- beside an error. Exec.Keeps has the rules by which a relation between the states before and after
-- an action is carried through it; Vjs.Eval.Keeps and Vjs.Run.Keeps carry it through the syntax
-- once, and each invariant is an instance.
--
-- An assignment's path is not empty and an array index fits a machine word, as the parser and the
-- memory see to; the panics that the code would have otherwise are not modelled. Not modelled:
-- the HTTP, MCP and panel surfaces and the starts and restarts of units (core/src/main.rs), the
-- administration of streams and the stores of the bus client (core/src/bus.rs), the drivers
-- (core/src/connectors.rs) and the connectors of other protocols.
pub mod Base
pub mod Exec
pub mod Secrets
pub mod SecretFile
pub mod Vjs
pub mod Mqtt
pub mod Versions
pub mod Lease
pub mod Proposals
pub mod Metrics
pub mod Bus
pub mod Dlq
pub mod Flow
pub mod Governance
pub mod Tests
