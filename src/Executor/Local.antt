-- ===== src/Executor/Local.antt =====
-- src/executor/local.rs: the table of child processes. Model has its data, Readers the readers of what the
-- children write.
pub mod Told
pub mod Readers
pub mod Model
pub mod Environment
pub mod Reading
pub mod Table
pub mod Collected
mod Tests
use kuromaku.Prelude.{
  ℕ, String, Bool, true, false, Option, none, some, List, [], ◌∷◌, Assoc, lookup, insert, ◌==◌,
  if◌then◌else◌,
}
use kuromaku.Prelude.Maps.{remove_key}
use kuromaku.Prelude.Text.{◌<>◌, trim}
use kuromaku.Prelude.Number.{ℤ, pos, negsuc, is_zero, show, show_int}
use kuromaku.Prelude.Result.{Result, ok, err, ◌>>=◌}
use kuromaku.Messaging.Router.{Fragment, text, tool_use, result}
use kuromaku.Runner.Graph.Model.{ExecutorError, broken}
use kuromaku.Executor.Stream.{Json, parse_line}
use kuromaku.Executor.Local.Model.{
  Child, ExecutionHandle, ExecutionOutput, ExecutionStatus, ExecutionTask, ExitStatus,
  LocalExecutor, OutputFormat, RunningProcess, System, claude_stream_json, completed, failed, raw,
  running,
}
use kuromaku.Executor.Local.Readers.{read_stderr, read_stdout}

abbrev pub allowed_env_vars : List String
allowed_env_vars =
    "PATH" ∷ "HOME" ∷ "USER" ∷ "SHELL" ∷ "TERM" ∷ "LANG" ∷ "LC_ALL" ∷ "TMPDIR" ∷ "TMP" ∷ "TEMP"
    ∷ "XDG_RUNTIME_DIR" ∷ "XDG_CONFIG_HOME" ∷ "XDG_DATA_HOME" ∷ "XDG_CACHE_HOME" ∷ []

unfoldable pub inherit : (String → Option String) → List String → Assoc String → Assoc String
inherit var [] env = env
inherit var (key ∷ ks) env = elim (var key) [
  | none ↦ inherit var ks env
  | some value ↦ inherit var ks (insert key value env)
]

unfoldable pub set_all : Assoc String → Assoc String → Assoc String
set_all [] env = env
set_all ((key, value) ∷ more) env = set_all more (insert key value env)

-- The environment of a child, from nothing.
unfoldable pub child_env : (String → Option String) → Assoc String → Assoc String
unfolding inherit set_all
child_env var env = set_all env (inherit var allowed_env_vars [])

abbrev pub ok_or : String → Option (List String) → Result ExecutorError (List String)
ok_or message none = err (broken message)
ok_or message (some ls) = ok ls

abbrev pub spawn_failed : String → String
spawn_failed message = "spawn failed: " <> message

unfoldable pub opened_file :
    (String → Option String) → Option String → Result ExecutorError (Option String)
opened_file open_file none = ok none
opened_file open_file (some path) = elim (open_file path) [
  | none ↦ ok (some "")
  | some e ↦ err (broken (spawn_failed ("failed to open output file " <> path <> ": " <> e)))
]

abbrev pub spawned : Result String Child → Result ExecutorError Child
spawned (ok child) = ok child
spawned (err e) = err (broken (spawn_failed ("failed to spawn process: " <> e)))

-- A process of which nothing has been read.
abbrev pub unread :
    ExecutionTask → Child → (out err_lines : List String) → Option String → RunningProcess
unread task child out err_lines file = record {
  child = child;
  stdout_buf = "";
  stderr_buf = "";
  result_override = none;
  output_format = task.output_format;
  file = file;
  stdout_left = out;
  stderr_left = err_lines;
}

unfoldable pub start_process : System → ExecutionTask → Result ExecutorError RunningProcess
unfolding child_env opened_file
start_process sys task =
    spawned (sys.spawn_child task.command (child_env sys.var task.env)) >>= λ child.
    ok_or (spawn_failed "failed to capture child stdout") child.stdout >>= λ stdout.
    ok_or (spawn_failed "failed to capture child stderr") child.stderr >>= λ stderr.
    opened_file sys.open_file task.stdout_file >>= λ file. ok (unread task child stdout stderr file)

abbrev pub pid_of : Option ℕ → Assoc String
pid_of none = []
pid_of (some pid) = ("pid", show pid) ∷ []

unfoldable pub spawn :
    System → ExecutionTask → LocalExecutor → Result ExecutorError ExecutionHandle × LocalExecutor
unfolding start_process insert
spawn sys task e = elim (start_process sys task) [
  | err x ↦ (err x, e)
  | ok p ↦ (
    ok (record { id = task.id; metadata = pid_of p.child.pid }),
    record { processes = insert task.id p e.processes },
  )
]

abbrev pub or_buffer : Option String → String → String
or_buffer none d = d
or_buffer (some s) d = s

abbrev pub code_or : ℤ → Option ℤ → ℤ
code_or d none = d
code_or d (some c) = c

abbrev pub success : Option ℤ → Bool
success none = false
success (some c) = is_zero c

-- What waiting returns, once both readers are done.
unfoldable pub output_of : ExitStatus → RunningProcess → Result ExecutorError ExecutionOutput
unfolding trim show_int
output_of status p =
    if success status.code
    then ok (record {
      stdout = trim (or_buffer p.result_override p.stdout_buf);
      stderr = p.stderr_buf;
      exit_code = code_or (pos 0) status.code;
    })
    else let code = code_or (negsuc 0) status.code in
      err (
        ExecutorError.failed code
          ("process exited with code " <> show_int code <> ": " <> p.stderr_buf))

-- Both readers, to their ends.
unfoldable pub drained : (String → Option Json) → RunningProcess → RunningProcess
unfolding read_stdout read_stderr
drained from_str p = let q = read_stdout from_str p.stdout_left p in read_stderr q.stderr_left q

-- `wait` on the child, and then on the readers.
unfoldable pub ended :
    Result String ExitStatus → RunningProcess → Result ExecutorError ExecutionOutput
unfolding output_of
ended (err e) p = err (ExecutorError.failed (negsuc 0) ("failed waiting for process: " <> e))
ended (ok status) p = output_of status p

unfoldable pub finish :
    (String → Option Json) → RunningProcess → Result ExecutorError ExecutionOutput
unfolding ended drained
finish from_str p = ended p.child.exit (drained from_str p)

unfoldable pub wait :
    (String → Option Json)
    → ExecutionHandle
    → LocalExecutor
    → Result ExecutorError ExecutionOutput × LocalExecutor
unfolding finish lookup remove_key
wait from_str handle e = elim (lookup handle.id e.processes) [
  | none ↦ (err (ExecutorError.failed (negsuc 0) ("process '" <> handle.id <> "' not found")), e)
  | some p ↦ (finish from_str p, record { processes = remove_key handle.id e.processes })
]

abbrev pub status_of : Result String (Option ExitStatus) → Result ExecutorError ExecutionStatus
status_of (err e) = err (ExecutorError.failed (negsuc 0) ("failed to check process status: " <> e))
status_of (ok none) = ok running
status_of (ok (some status)) =
    if success status.code
    then ok completed
    else ok (ExecutionStatus.failed ("exit code: " <> show_int (code_or (negsuc 0) status.code)))

-- `polled` is what `try_wait` gives for the child at the time.
unfoldable pub status :
    Result String (Option ExitStatus)
    → ExecutionHandle
    → LocalExecutor
    → Result ExecutorError ExecutionStatus
unfolding lookup show_int
status polled handle e = elim (lookup handle.id e.processes) [
  | none ↦ ok completed
  | some p ↦ status_of polled
]

abbrev pub killed_or : Option String → Result ExecutorError (Option String)
killed_or none = ok none
killed_or (some e) = err (ExecutorError.failed (negsuc 0) ("failed to kill process: " <> e))

-- `killed` is the error of killing the child, when it has one.
unfoldable pub stop :
    Option String
    → ExecutionHandle
    → LocalExecutor
    → Result ExecutorError (Option String) × LocalExecutor
unfolding lookup remove_key
stop killed handle e = elim (lookup handle.id e.processes) [
  | none ↦ (ok none, e)
  | some p ↦ (killed_or killed, record { processes = remove_key handle.id e.processes })
]
