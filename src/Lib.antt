-- ===== src/Lib.antt =====
-- shimmy: the shim that serves an evaluation function over HTTP.
--
-- The program takes a request (handler/), checks it against JSON schemas and sends it to the
-- evaluation function (runtime/), which runs in a worker: a process under a supervisor
-- (internal/execution/supervisor/, internal/execution/worker/) or a WebAssembly instance
-- (internal/execution/wasm/). Dispatchers (internal/execution/dispatcher/) hand the messages to
-- one supervisor or to a pool of them. A wrong result is compared with the cases of the request.
--
-- Files and what they model:
--   Base, Exec, Json   numbers, lists, text; Go's errors and panics; the values of encoding/json
--   Runtime/           runtime/: Command (ParseCommand, getCommand), Schema (schema/schema.go),
--                      Validate, Response (error and other responses), Send (SendCommand), Evaluate
--                      (EvaluateCase), Cases (FindFirstMatchingCase, GetCaseFeedback, ProcessEval),
--                      Handler (Handle), MuEd (mued.go), Lifecycle (runtime.go); Keeps carries what
--                      each message keeps of the state over to each request
--   Http/              handler/ and internal/server/middleware.go: Path (NormalizePath and the
--                      routes), CommandHandler (ServeHTTP), MuEdHandler (ServeEvaluate, ServeHealth)
--   Http/Server        internal/server/server.go: the multiplexer with the handlers, over a runtime;
--                      its children put it on the dedicated dispatcher, and follow an evaluation
--                      and a preview of the muEd route to the reply
--   Http/Listen, Lambda
--                      Serve and Shutdown of the HTTP server; app/lambda/handler.go
--   Execution/ (paths below internal/execution/)
--   Execution/Pipe     supervisor/adapter_rpc_pipe.go
--   Execution/Supervisor, Rpc, FileAdapter
--                      supervisor/supervisor.go (in Supervisor/Concurrent the calls that overlap),
--                      adapter_rpc.go, adapter_file.go
--   Execution/Choice, Config
--                      dispatcher.go, the adapter factory of supervisor/adapter.go, and the
--                      configurations of supervisor/config.go and of the dispatchers
--   Execution/Worker   worker/worker.go: the calls, with Exit (ExitEvent), Reaper (the goroutines of
--                      Start and the caller of Wait, interleaved), Command (createCmd, killProcess)
--   Execution/Dispatcher
--                      dispatcher/dispatcher_dedicated.go, dispatcher_pooled.go (in
--                      Pooled/Concurrent the messages and disposals that overlap)
--   Execution/Wasm     wasm/adapter.go, supervisor.go, dispatcher.go
--   Config             util/conf/parse.go (transformEnv), util/truthy.go; Parse (Parse), Flags
--                      (util/cliflags/provider.go), Merge (util/conf/merge.go), Models
--                      (config/config.go)
--   Cmd                cmd/: Root (the flags, parseRootConfig, createLogger, and
--                      what the parsed configuration makes NewDispatcher do), Serve (the flags of the
--                      commands and what they parse), Run (the commands and the exit status, with
--                      app/app.go and the contexts of util/), Shell (internal/shell/)
--   Util               util/must.go, util/proc.go, setupSentry of main.go
-- A module's children hold its proofs, and modules whose names end in Tests runs on
-- concrete data.
--
-- How the code is modelled. A function that changes state takes it and returns it; an error and a
-- panic are values of a result, and what was changed before them stays changed. A `map[string]any`
-- is a list of entries of which the first with a key counts, and the nil map is a value of its own.
-- A body is the JSON document that it spells or the error of reading it; a float64 is a finite
-- binary fraction. Header keys are canonical. Where a lock makes a call exclusive the call is one
-- step. What overlaps is interleaved as the steps of a relation: a message of a supervisor and its
-- other calls, the messages of the pooled dispatcher and the goroutines that dispose of their
-- resources, the messages of the WebAssembly dispatcher, and the goroutines of a worker. A server
-- serves requests one behind the other, and goes on behind a panic.
--
-- Parameters: the evaluation function's runtime, gojsonschema, the puddle pool, the wazero module
-- and its memory, the RPC client, the decoding of a muEd body, the operating system's answers, the
-- store and the readers of koanf, the command line as urfave/cli has read it, the application of fx,
-- what net/http listens on and how its multiplexer redirects a path that is not clean.
--
-- Fuel: the loops of the pipe run on the length of the input, since each line has a byte. The loop
-- that dials has no bound in the code, and its fuel is an argument. In both a lack of fuel is a result
-- of its own. A content longer than 2 ^ 48 bytes, the most that Go allocates at once on a 64-bit
-- system, makes the read panic; a shorter one is taken to find its memory.
--
-- Not modelled: the dependency injection of fx, named loggers, h2c and the adapters for Lambda's
-- events, which are declarations for other packages; the generated mocks; the stdio stream of a
-- worker, which passes calls on; timeouts, other than as an answer that a call may give or a context
-- that ends; the numbers and names in the messages of some errors of the pipe, of the WebAssembly
-- backend and of the configuration; the text of an exit event in the file adapter's error, which is
-- one of its answers.
pub mod Base
pub mod Exec
pub mod Json
pub mod Runtime
pub mod Execution
pub mod Config
pub mod Http
pub mod Cmd
pub mod Util
