-- ===== src/Lib.antt =====
-- haystak-tds-spi: a SQL Server wire-protocol (TDS) gateway in Go. A client's bytes are framed into
-- messages, the PRELOGIN and LOGIN7 messages open a session, batches and RPC calls become SQL text,
-- and the engine's results are written back as token streams.
--
-- Byte strings (`[]byte`, `string`) are lists of numbers below 256; machine widths are written out
-- (`% 256`, little and big endian fields). A Go call is a `Base.Result`: a value, an `error` (a data
-- type with a constructor for each message of the code), a run-time panic, or the end of a loop's
-- fuel, which is a result of its own. Slices and indices are checked, and so is the size given to
-- `make`, so that "does not panic" is a statement of its own and no assumption; and so is "the fuel is
-- enough". The loops over the bytes of a batch (Batch/Rounds) have no fuel that could run out: a round
-- goes on only at a text that it shows to be no longer than the one behind its byte.
--
-- Wire/Framing: internal/wire/framing.go. The reader is the list of bytes that it has yet to
-- deliver; the writer is any `io.Writer` (Go/Io). `ReadMessage` is `read_message`, `WriteMessage`
-- is `write_message`; the loops take one more round of fuel than there are bytes, and each round
-- takes at least one.
-- Wire/Prelogin: internal/wire/prelogin.go. `ParsePrelogin` and `BuildPrelogin` are
-- `parse_prelogin` and `build_prelogin`; the fuel exceeds the payload's length, a round taking five
-- bytes of it.
-- Wire/Tokens: internal/wire/tokens.go. The builders have the names of the code (`done`,
-- `env_change`, `login_ack`, `build_login_response`), `ParseTokens` is `parse_tokens`; the fuel is
-- one more than the bytes, and a round takes at least one. Wire/Login7: internal/wire/login7.go,
-- `ParseLogin7` as `parse_login7` with the closure `str` as `str_field`. Wire/Text has the text
-- encodings that these share, over Go/Utf.
-- Fold: internal/fold/fold.go, `compare` and `row_key`; the text of a value of a type that the code
-- passes on (floats, times) is a parameter, fmt's `%v`.
-- Server/Negotiate: server/server.go, `negotiateEncryption`. Server/Registry: server/registry.go; its
-- methods hold a mutex throughout, so a run of concurrent connections is a list of operations. Go's
-- order of iteration over a map is any order.
-- Wire/TypeInfo and Wire/Result: internal/wire/result.go, with tds/types. `BuildResultSet` is
-- `build_result_set`, `encodeValue` is `encode_value`; the float64 operations are the record
-- Go/Floats. A time is its fields in UTC, of a year after 0. Wire/Rpc: internal/wire/rpc.go. Its
-- cursor is the bytes from `pos` on (Wire/Rpc/Cursor), `typeValue` is `type_value`, `DecodeRPC` is
-- `decode_rpc`; the order in which sort.Slice leaves the names of parameters is an argument. The loops
-- over parameters and chunks have as much fuel as there are bytes, and end where it does.
-- Tsql/Lexer: internal/tsql/lexer.go, `lex`; the index into the text is the text from it on, and the
-- fuel is one more than its bytes.
-- Exec/Truth: internal/exec/truth.go, `evalTruth` as `eval_truth` on the tree `tds.Expr` of
-- tds/query.go, the leaves being a function that may fail. Exec/Join: internal/exec/join.go, `Join`
-- as `join`; the ON clause is a function of the combined row that may fail. Both recurse on their
-- input.
-- Batch: internal/extensions/batch. `Resolve` is `resolve` (Batch/Resolve), `Split` is
-- `split_statements`, `cutStatements` and `statementEnd` are those of Batch/Cut, over the words of a
-- text (Batch/Boundary); `substitute` is in Batch/Substitute, whose loop the control interpreter's
-- `subst` shares with another test of what is skipped; Batch/Declared is declared.go. An index into a
-- text is the text from it on. The loops are those of Batch/Rounds, over what the skipping functions
-- pass (Batch/Passes); `cutStatements` has fuel that shows. Batch/Keyword has the bounds of the slices
-- behind DECLARE and SET. Whether strconv.ParseFloat reads a text is a parameter.
-- Control: internal/extensions/procedures/control. Control/Lex is lex.go, its loop one of Batch/Rounds, Control/Parse and
-- Control/Parser are parse.go: a method that calls `stmt` or `stmtList` is a function of them, and each
-- of their calls spends one of 2 n + 2 units of fuel, n the number of tokens. Control/Exec is
-- `execStmt`, `RunAll` and `Run`, by recursion on the statement, a WHILE by recursion on its 1,000,000
-- rounds; Control/Cases has the cases that run no other statement, Control/Eval the evaluation and
-- `trySelectAssign`, Control/Waitfor waitfor.go, Control/Detect `HasControlFlow`. The scope, the flow,
-- the results and a state of the runner are passed on, also by a call that fails, which TRY goes on
-- from. The slice behind `SELECT ` in `trySelectAssign` follows the test of that prefix and is not
-- checked again. The runner, the timer and Go's formats of floats and times are the record `Env`; the context
-- is the error that it carries.
-- Procedures: internal/extensions/procedures/proc.go with the parts of internal/extensions/routines that
-- it uses. `HandleDDL` is `handle_ddl` and `ExecProc` is `exec_proc` (Procedures/Proc), the head is read
-- in Procedures/Head, the arguments are written into the body in Procedures/Params; the store and the
-- runner are functions of a state of their own, and `replaceParam` has as much fuel as the body has
-- bytes, and ends where it does.
-- Not modelled: TLS, the accept loop and the dispatch of messages (input and output around the parts
-- above), the parser of queries, the engine, the catalog views, and the rest of
-- internal/exec. A Go `int` is a natural number where the code keeps it from being negative. White space, capitals and
-- the upper and lower case of words are those of ASCII in Batch, Control and Procedures.
pub mod Base
pub mod Go
pub mod Value
pub mod Wire
pub mod Fold
pub mod Exec
pub mod Server
pub mod Tsql
pub mod Batch
pub mod Control
pub mod Procedures
