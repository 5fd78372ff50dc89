-- ===== src/Executor/Local/Tests.antt =====
-- Tests of src/executor/local.rs: a child with a streamed answer, read in part before it is waited for.
use kuromaku.Prelude.{
  String, ◌≡◌, refl, false, Option, none, some, List, [], ◌∷◌, Assoc, lookup, str_eq, if◌then◌else◌,
}
use kuromaku.Prelude.Number.{pos, show}
use kuromaku.Prelude.Result.{ok}
use kuromaku.Executor.Stream.{Json, string, object, field, end}
use kuromaku.Executor.Local.{child_env, spawn, wait, allowed_env_vars}
use kuromaku.Executor.Local.Model.{
  raw, claude_stream_json, ExecutionTask, ExecutionHandle, Child, System, LocalExecutor,
}
use kuromaku.Executor.Local.Environment.{over, if_allowed, lookup-child_env}
use kuromaku.Executor.Local.Table.{Call, spawning, waiting, stdout_read, stderr_read, perform_all}
use kuromaku.Executor.Local.Collected.{Collects, wait-Collects}

abbrev spoken : Json
spoken = object (
    field "type" (string "stream_event") (
      field "event"
        (object (
          field "type" (string "content_block_delta") (
            field "delta"
              (object (field "type" (string "text_delta") (field "text" (string "hel") end))) end)))
        end))

abbrev answer : Json
answer = object (field "type" (string "result") (field "result" (string "hello\n") end))

abbrev decoder : String → Option Json
decoder s =
    if str_eq s "{spoken}" then some spoken else if str_eq s "{answer}" then some answer else none

abbrev talker : Child
talker = record {
  pid = some 7;
  stdout = some ("{spoken}" ∷ "" ∷ "{answer}" ∷ []);
  stderr = some ("warning" ∷ []);
  exit = ok (record { code = some (pos 0) });
}

abbrev parent : String → Option String
parent name =
    if str_eq name "HOME"
    then some "/home/k"
    else if str_eq name "API_KEY"
    then some "secret"
    else none

abbrev system : System
system = record {
  var = parent;
  spawn_child = λ command env. ok talker;
  open_file = λ path. none;
  from_str = decoder;
}

abbrev task_env : Assoc String
task_env = ("MODE", "fast") ∷ []

abbrev talk : ExecutionTask
talk = record {
  id = "talk";
  command = "agent";
  env = task_env;
  stdout_file = some "talk.md";
  output_format = claude_stream_json;
}

abbrev other : ExecutionTask
other = record talk { id = "other"; output_format = raw }

abbrev talk_handle : ExecutionHandle
talk_handle = record { id = "talk"; metadata = ("pid", "7") ∷ [] }

abbrev calls : List Call
calls =
    stdout_read "talk"
    ∷ spawning other
    ∷ stdout_read "other"
    ∷ stderr_read "talk"
    ∷ waiting (record { id = "other"; metadata = [] })
    ∷ stdout_read "talk"
    ∷ []

abbrev spawned_talk : LocalExecutor
spawned_talk = (spawn system talk (record { processes = [] })).1

wait_output :
    (wait decoder talk_handle (perform_all system calls spawned_talk)).0
    ≡ ok (record { stdout = "hello"; stderr = "warning\n"; exit_code = pos 0 })
unfolding wait perform_all spawn str_eq
wait_output = refl

spawn_talk : spawn system talk (record { processes = [] }) ≡ (ok talk_handle, spawned_talk)
unfolding spawn show
spawn_talk = refl

others : str_eq "talk" "other" ≡ false
unfolding str_eq
others = refl

wait-Collects_example : Collects system talk talk_handle (perform_all system calls spawned_talk)
wait-Collects_example =
    wait-Collects system talk (record { processes = [] }) spawned_talk talk_handle calls spawn_talk
      (tt, (others, (tt, (tt, (others, (tt, tt))))))

lookup-child_env_example :
    lookup "API_KEY" (child_env parent task_env)
    ≡ over (lookup "API_KEY" task_env) (if_allowed parent allowed_env_vars "API_KEY")
lookup-child_env_example = lookup-child_env parent task_env "API_KEY" ((λ bad. bad), tt)
