-- ===== src/Executor/Local/Collected.antt =====
-- What waiting for a process of src/executor/local.rs returns, whatever has happened in between.
use kuromaku.Prelude.{
  String, ◌≡◌, refl, sym, ap, ◌∙◌, inl, inr, Option, none, some, List, All, lookup, insert,
  lookup-insert, str_eq_refl, if◌then◌else◌,
}
use text.Mathlib.TextLemmas.{nil-append}
use kuromaku.Prelude.Maps.{remove_key, lookup-removed}
use kuromaku.Prelude.Text.{◌<>◌, trim}
use kuromaku.Prelude.Number.{pos, negsuc, show_int}
use kuromaku.Prelude.Result.{Result, ok, err, Result-cases, >>=-first}
use kuromaku.Runner.Graph.Model.{ExecutorError, failed}
use kuromaku.Executor.Stream.{Json}
use kuromaku.Executor.Local.{
  child_env, opened_file, ok_or, spawned, spawn_failed, unread, start_process, spawn, pid_of,
  or_buffer, code_or, success, ended, drained, finish, wait,
}
use kuromaku.Executor.Local.Model.{
  OutputFormat, ExecutionTask, ExecutionHandle, ExecutionOutput, ExitStatus, Child, System,
  RunningProcess, LocalExecutor,
}
use kuromaku.Executor.Local.Reading.{whole, drained-whole}
use kuromaku.Executor.Local.Told.{with_ends, said, answered, later-none}
use kuromaku.Executor.Local.Table.{Call, Spares, perform_all, perform_all-Holds}

-- What a child that writes these lines, and ends so, gives.
unfoldable pub outcome :
    (String → Option Json)
    → OutputFormat
    → (out err_lines : List String) → Result String ExitStatus
    → Result ExecutorError ExecutionOutput
unfolding trim show_int
outcome from_str o out err_lines (err e) =
    err (failed (negsuc 0) ("failed waiting for process: " <> e))
outcome from_str o out err_lines (ok status) =
    if success status.code
    then ok (record {
      stdout = trim (or_buffer (answered from_str o out) (said from_str o out));
      stderr = with_ends err_lines;
      exit_code = code_or (pos 0) status.code;
    })
    else let code = code_or (negsuc 0) status.code in
      err
        (failed code ("process exited with code " <> show_int code <> ": " <> with_ends err_lines))

-- The lines of a child that has been spawned for the task.
pub record Spawned (sys : System) (t : ExecutionTask) (child : Child) (out err_lines : List String)
    : Type 0 where
  pub made : sys.spawn_child t.command (child_env sys.var t.env) ≡ ok child
  pub out_lines : child.stdout ≡ some out
  pub error_lines : child.stderr ≡ some err_lines

spawned-ok : (r : Result String Child) (c : Child) → spawned r ≡ ok c → r ≡ ok c
spawned-ok (ok d) c h = cc (h)
spawned-ok (err e) c h = absurd (cc)

ok_or-some :
    (m : String) (o : Option (List String)) (ls : List String) → ok_or m o ≡ ok ls → o ≡ some ls
ok_or-some m none ls h = absurd (cc)
ok_or-some m (some ks) ls h = cc (h)

ok-injective :
    (p q : RunningProcess) → Path (Result ExecutorError RunningProcess) (ok p) (ok q) → p ≡ q
ok-injective p q h = cc (h)

start_process-unread :
    (sys : System) (t : ExecutionTask) (p : RunningProcess)
    → start_process sys t ≡ ok p
    → (child : Child) × (out : List String) × (err_lines : List String) × (file : Option String)
      × Spawned sys t child out err_lines
      × (p ≡ unread t child out err_lines file)
unfolding start_process
start_process-unread sys t p h =
    let (child, h1, made) =
      >>=-first _ (spawned (sys.spawn_child t.command (child_env sys.var t.env))) h in
    let (out, h2, got_out) =
      >>=-first _ (ok_or (spawn_failed "failed to capture child stdout") child.stdout) h1 in
    let (err_lines, h3, got_err) =
      >>=-first _ (ok_or (spawn_failed "failed to capture child stderr") child.stderr) h2 in
    let (file, h4, opened) = >>=-first _ (opened_file sys.open_file t.stdout_file) h3 in
    (
      child,
      out,
      err_lines,
      file,
      record {
        made = spawned-ok _ child made;
        out_lines = ok_or-some _ child.stdout out got_out;
        error_lines = ok_or-some _ child.stderr err_lines got_err;
      },
      sym (ok-injective (unread t child out err_lines file) p h4),
    )

ended-whole :
    (from_str : String → Option Json) (t : ExecutionTask) (child : Child)
    (out err_lines : List String) (file : Option String) (exit : Result String ExitStatus)
    → ended exit (whole from_str (unread t child out err_lines file))
      ≡ outcome from_str t.output_format out err_lines exit
unfolding ended outcome
ended-whole from_str t child out err_lines file (err e) = refl
ended-whole from_str t child out err_lines file (ok status) =
    rw
      (
        later-none (answered from_str t.output_format out),
        nil-append (said from_str t.output_format out),
        nil-append (with_ends err_lines),
      )
      refl

finish-unread :
    (from_str : String → Option Json) (t : ExecutionTask) (child : Child)
    (out err_lines : List String) (file : Option String)
    → finish from_str (unread t child out err_lines file)
      ≡ outcome from_str t.output_format out err_lines child.exit
unfolding finish
finish-unread from_str t child out err_lines file =
    ap (ended child.exit) (drained-whole from_str (unread t child out err_lines file))
    ∙ ended-whole from_str t child out err_lines file child.exit

finish_same :
    (from_str : String → Option Json) (p q : RunningProcess)
    → drained from_str p ≡ drained from_str q
    → p.child ≡ q.child
    → finish from_str p ≡ finish from_str q
unfolding finish
finish_same from_str p q same same_child =
    ap (λ c. ended c.exit (drained from_str p)) same_child ∙ ap (ended q.child.exit) same

wait_present :
    (from_str : String → Option Json) (handle : ExecutionHandle) (e : LocalExecutor)
    (p : RunningProcess)
    → lookup handle.id e.processes ≡ some p
    → wait from_str handle e
      ≡ (finish from_str p, record { processes = remove_key handle.id e.processes })
unfolding wait
wait_present from_str handle e p there = rw (wait, there) refl

spawn-started :
    (sys : System) (t : ExecutionTask) (e e' : LocalExecutor) (handle : ExecutionHandle)
    → spawn sys t e ≡ (ok handle, e')
    → (p : RunningProcess) × (start_process sys t ≡ ok p)
      × (handle.id ≡ t.id)
      × (lookup t.id e'.processes ≡ some p)
unfolding spawn
spawn-started sys t e e' handle h = elim (Result-cases (start_process sys t)) [
  | inr (x, not_started) ↦ absurd (cc (rw (spawn, not_started) at h))
  | inl (p, started) ↦
      let h' : (
        ok (record { id = t.id; metadata = pid_of p.child.pid }),
        record { processes = insert t.id p e.processes },
      )
          ≡ (ok handle, e') =
        rw (spawn, started) at h in
      (
        p,
        started,
        ap (λ r. elim r [ ok x ↦ x.id | err x ↦ t.id ]) (sym (ap (λ r. r.0) h')),
        ap (λ r. lookup t.id r.1.processes) (sym h')
            ∙ lookup-insert t.id t.id p e.processes
            ∙ rw (str_eq_refl t.id) refl,
      )
]

-- What a task's process gives, when it is waited for: the outcome of the child that has been spawned for it.
abbrev pub Collects : System → ExecutionTask → ExecutionHandle → LocalExecutor → Type 0
Collects sys t handle e =
    (child : Child) × (out : List String) × (err_lines : List String) × Spawned sys t child out
      err_lines
    × ((wait sys.from_str handle e).0
        ≡ outcome sys.from_str t.output_format out err_lines child.exit)
    × (lookup handle.id (wait sys.from_str handle e).1.processes ≡ none)

-- When a task has been spawned, and then any calls and any turns of the readers have happened that neither spawn a
-- task of its name nor wait for it nor stop it, waiting returns the outcome of the child's lines and of its exit, however
-- far the readers have come; afterwards the process is gone.
pub wait-Collects :
    (sys : System) (t : ExecutionTask) (e e' : LocalExecutor) (handle : ExecutionHandle)
    (cs : List Call)
    → spawn sys t e ≡ (ok handle, e')
    → All (Spares t.id) cs
    → Collects sys t handle (perform_all sys cs e')
wait-Collects sys t e e' handle cs h spared =
    let (p0, started, same_id, there) = spawn-started sys t e e' handle h in
    let (child, out, err_lines, file, from_child, fresh) = start_process-unread sys t p0 started in
    let (p, still, read_alike, same_child) =
      perform_all-Holds sys p0 t.id cs e' spared (p0, there, refl, refl) in
    let after = perform_all sys cs e' in
    let waited =
      wait_present sys.from_str handle after p
        (ap (λ i. lookup i after.processes) same_id ∙ still) in
    (
      child,
      out,
      err_lines,
      from_child,
      ap (λ r. r.0) waited
          ∙ finish_same sys.from_str p p0 read_alike same_child
          ∙ ap (finish sys.from_str) fresh
          ∙ finish-unread sys.from_str t child out err_lines file,
      ap (λ r. lookup handle.id r.1.processes) waited ∙ lookup-removed handle.id after.processes,
    )
