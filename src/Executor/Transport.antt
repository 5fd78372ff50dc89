-- ===== src/Executor/Transport.antt =====
-- src/executor/transport.rs: the channel to a running agent. tokio's unbounded channel is the parameter
-- `Unbounded`; its receiver lives as long as the transport, so that sending into it does not fail. The lines
-- that the child writes are data, as those that the two readers have not read yet; `Pipe` is the child's stdin.
pub mod Order
mod Tests
use kuromaku.Prelude.{
  String, Bool, true, false, Option, none, some, List, [], ◌∷◌, ◌++◌, ◌≡◌, if◌then◌else◌,
}
use kuromaku.Prelude.Text.{◌<>◌}
use kuromaku.Prelude.Number.{ℤ, negsuc}
use kuromaku.Prelude.Result.{Result, ok, err}
use kuromaku.Messaging.Router.{Fragment}
use kuromaku.Executor.Stream.{Json, parse_line}
use kuromaku.Executor.Local.{code_or}
use kuromaku.Executor.Local.Model.{ExitStatus, Child}

-- A channel of fragments with its contents: what is sent is received in its order.
pub record Unbounded : Type 1 where
  pub State : Type 0
  pub contents : State → List Fragment
  pub fresh : State
  pub send : Fragment → State → State
  pub try_recv : State → Option (Fragment × State)
  pub fresh_contents : contents fresh ≡ []
  pub send_contents : (f : Fragment) (s : State) → contents (send f s) ≡ contents s ++ f ∷ []
  pub none_contents : (s : State) → try_recv s ≡ none → contents s ≡ []
  pub some_contents :
      (s s' : State) (f : Fragment) → try_recv s ≡ some (f, s') → contents s ≡ f ∷ contents s'

pub data TransportError : Type 0 where
  spawn send recv close io : String → TransportError

-- `TransportOutput`.
pub record TransportOutput : Type 0 where
  pub exit_code : ℤ
  pub stderr : String

pub record Pipe : Type 1 where
  pub State : Type 0
  pub write_all : String → State → Option String × State
  pub flush : State → Option String × State

-- What receiving gives: an event, the end, or nothing yet.
pub data Received : Type 0 where
  event : Fragment → Received
  ended pending : Received

module _ (u : Unbounded) where
  -- `stdout_open` holds until the stdout reader has returned, and its end of the channel is gone.
  pub record StreamJsonTransport : Type 0 where
    pub rx : u.State
    pub stdout_left : List String
    pub stdout_open : Bool
    pub stderr_left : List String
    pub stderr_buf : String
    pub exit : Result String ExitStatus

  unfoldable pub opened :
      (out err_lines : List String) → Result String ExitStatus → StreamJsonTransport
  opened out err_lines exit = record {
    rx = u.fresh;
    stdout_left = out;
    stdout_open = true;
    stderr_left = err_lines;
    stderr_buf = "";
    exit = exit;
  }

  abbrev pub piped :
      (stdin : Bool)
      → (out err_lines : Option (List String)) → Result String ExitStatus
      → Result TransportError StreamJsonTransport
  piped false out err_lines exit = err (spawn "failed to capture child stdin")
  piped true none err_lines exit = err (spawn "failed to capture child stdout")
  piped true (some out) none exit = err (spawn "failed to capture child stderr")
  piped true (some out) (some err_lines) exit = ok (opened out err_lines exit)

  -- `stdin` tells whether the child's stdin has been captured.
  unfoldable pub spawn_transport :
      Result String Child → (stdin : Bool) → Result TransportError StreamJsonTransport
  unfolding opened
  spawn_transport (err e) stdin = err (spawn ("failed to spawn process: " <> e))
  spawn_transport (ok child) stdin = piped stdin child.stdout child.stderr child.exit

  unfoldable pub forward : List Fragment → u.State → u.State
  forward [] s = s
  forward (f ∷ fs) s = forward fs (u.send f s)

  module _ (from_str : String → Option Json) where
    abbrev pub read_of : List String → StreamJsonTransport → StreamJsonTransport
    read_of [] t = record t { stdout_open = false }
    read_of (line ∷ ls) t = record t {
      stdout_left = ls;
      rx = forward (parse_line from_str line) t.rx;
    }

    -- One turn of the stdout reader's loop.
    unfoldable pub read_turn : StreamJsonTransport → StreamJsonTransport
    unfolding forward parse_line
    read_turn t = read_of t.stdout_left t

  abbrev pub read_error_of : List String → StreamJsonTransport → StreamJsonTransport
  read_error_of [] t = t
  read_error_of (line ∷ ls) t = record t {
    stderr_left = ls;
    stderr_buf = t.stderr_buf <> (line <> "\n");
  }

  -- One turn of the stderr reader's loop.
  unfoldable pub read_error_turn : StreamJsonTransport → StreamJsonTransport
  read_error_turn t = read_error_of t.stderr_left t

  abbrev pub read_errors : List String → String → String
  read_errors [] written = written
  read_errors (line ∷ ls) written = read_errors ls (written <> (line <> "\n"))

  unfoldable pub receive : StreamJsonTransport → Received × StreamJsonTransport
  receive t = elim (u.try_recv t.rx) [
    | none ↦ ((if t.stdout_open then pending else ended), t)
    | some (f, rx) ↦ (event f, record t { rx = rx })
  ]

  abbrev pub output_with : Result String ExitStatus → String → Result TransportError TransportOutput
  output_with (err e) written = err (close ("failed waiting for child: " <> e))
  output_with (ok status) written =
      ok (record { exit_code = code_or (negsuc 0) status.code; stderr = written })

  unfoldable pub close_transport : StreamJsonTransport → Result TransportError TransportOutput
  close_transport t = output_with t.exit (read_errors t.stderr_left t.stderr_buf)

module _ (pipe : Pipe) where
  abbrev pub flushed : Option String × pipe.State → Result TransportError String × pipe.State
  flushed (none, w) = (ok "", w)
  flushed (some e, w) = (err (send ("flush failed: " <> e)), w)

  abbrev pub written_to : Option String × pipe.State → Result TransportError String × pipe.State
  written_to (none, w) = flushed (pipe.flush w)
  written_to (some e, w) = (err (send ("write failed: " <> e)), w)

  -- `stdin` is what the slot holds; `encoded` is the envelope with the message, as serde_json gives it.
  unfoldable pub send_line :
      (encoded : Result String String)
      → (stdin : Option pipe.State) → Result TransportError String × Option pipe.State
  send_line (err e) stdin = (err (send ("failed to encode message: " <> e)), stdin)
  send_line (ok line) none = (err (send "transport stdin already closed"), none)
  send_line (ok line) (some w) =
      let r = written_to (pipe.write_all (line <> "\n") w) in (r.0, some r.1)
