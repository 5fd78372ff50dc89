-- ===== src/Executor/Local/Table.antt =====
-- The executor of src/executor/local.rs under any sequence of calls and of turns of its readers.
use kuromaku.Prelude.{
  String, ◌≡◌, refl, ◌∙◌, inl, inr, false, Option, none, some, List, [], ◌∷◌, All, lookup, insert,
  lookup-insert, str_eq, str-cases, Option-cases,
}
use kuromaku.Prelude.Maps.{lookup-remove_key, remove_key}
use kuromaku.Prelude.Result.{Result, Result-cases}
use kuromaku.Executor.Local.{drained, spawn, start_process, wait, stop}
use kuromaku.Executor.Local.Readers.{stdout_turn, stderr_turn}
use kuromaku.Executor.Local.Model.{
  ExecutionTask, ExecutionHandle, ExitStatus, System, RunningProcess, LocalExecutor,
}
use kuromaku.Executor.Local.Reading.{
  stdout_turn-drained, stderr_turn-drained, stdout_turn_child, stderr_turn_child,
}

pub data Call : Type 0 where
  spawning : ExecutionTask → Call
  waiting : ExecutionHandle → Call
  polling : Result String (Option ExitStatus) → ExecutionHandle → Call
  stopping : Option String → ExecutionHandle → Call
  stdout_read : (id : String) → Call
  stderr_read : (id : String) → Call

-- A change of the process with the name, if there is one.
abbrev pub changed : (RunningProcess → RunningProcess) → String → LocalExecutor → LocalExecutor
changed f id e = elim (lookup id e.processes) [
  | none ↦ e
  | some p ↦ record { processes = insert id (f p) e.processes }
]

module _ (sys : System) where
  unfoldable pub perform : Call → LocalExecutor → LocalExecutor
  unfolding spawn wait stop stdout_turn stderr_turn lookup insert
  perform (spawning t) e = (spawn sys t e).1
  perform (waiting h) e = (wait sys.from_str h e).1
  perform (polling polled h) e = e
  perform (stopping killed h) e = (stop killed h e).1
  perform (stdout_read id) e = changed (stdout_turn sys.from_str) id e
  perform (stderr_read id) e = changed stderr_turn id e

  unfoldable pub perform_all : List Call → LocalExecutor → LocalExecutor
  unfolding perform
  perform_all [] e = e
  perform_all (c ∷ cs) e = perform_all cs (perform c e)

-- The call neither starts, nor waits for, nor stops a process of the name. It may read from it.
abbrev pub Spares : String → Call → Type 0
Spares id (spawning t) = str_eq id t.id ≡ false
Spares id (waiting h) = str_eq id h.id ≡ false
Spares id (polling polled h) = Unit
Spares id (stopping killed h) = str_eq id h.id ≡ false
Spares id (stdout_read j) = Unit
Spares id (stderr_read j) = Unit

module _ (sys : System) (p0 : RunningProcess) (id : String) where
  -- The process is in the table, and once read to the end it is the one that was started.
  abbrev pub Holds : LocalExecutor → Type 0
  Holds e =
      (p : RunningProcess) × (lookup id e.processes ≡ some p)
      × (drained sys.from_str p ≡ drained sys.from_str p0)
      × (p.child ≡ p0.child)

  Holds-same :
      (e e' : LocalExecutor) → lookup id e'.processes ≡ lookup id e.processes → Holds e → Holds e'
  Holds-same e e' same (p, at, d, c) = (p, same ∙ at, d, c)

  Holds-changed :
      (f : RunningProcess → RunningProcess)
      → ((p : RunningProcess) → drained sys.from_str (f p) ≡ drained sys.from_str p)
      → ((p : RunningProcess) → (f p).child ≡ p.child)
      → (j : String) (e : LocalExecutor) → Holds e
      → Holds (changed f j e)
  Holds-changed f keeps same_child j e (p, at, d, c) = elim (str-cases id j) [
    | inl (t, same) ↦
        let at_j : lookup j e.processes ≡ some p = rw same at at in
        rw (changed, at_j)
          (f p, lookup-insert j id (f p) e.processes ∙ rw t refl, keeps p ∙ d, same_child p ∙ c)
    | inr t ↦ elim (Option-cases (lookup j e.processes)) [
      | inl none_there ↦ rw (changed, none_there) (p, at, d, c)
      | inr (q, there) ↦
          rw (changed, there) (p, lookup-insert j id (f q) e.processes ∙ rw t at, d, c)
    ]
  ]

  perform-Holds : (c : Call) (e : LocalExecutor) → Spares id c → Holds e → Holds (perform sys c e)
  unfolding perform spawn wait stop
  perform-Holds (spawning t) e spares holds = elim (Result-cases (start_process sys t)) [
    | inl (p, started) ↦
        rw (perform, spawn, started)
          (Holds-same e (record { processes = insert t.id p e.processes })
            (lookup-insert t.id id p e.processes ∙ rw spares refl) holds)
    | inr (x, not_started) ↦ rw (perform, spawn, not_started) holds
  ]
  perform-Holds (waiting h) e spares holds = elim (Option-cases (lookup h.id e.processes)) [
    | inl none_there ↦ rw (perform, wait, none_there) holds
    | inr (p, there) ↦
        rw (perform, wait, there)
          (Holds-same e (record { processes = remove_key h.id e.processes })
            (lookup-remove_key h.id id e.processes spares) holds)
  ]
  perform-Holds (polling polled h) e spares holds = holds
  perform-Holds (stopping killed h) e spares holds = elim (Option-cases (lookup h.id e.processes)) [
    | inl none_there ↦ rw (perform, stop, none_there) holds
    | inr (p, there) ↦
        rw (perform, stop, there)
          (Holds-same e (record { processes = remove_key h.id e.processes })
            (lookup-remove_key h.id id e.processes spares) holds)
  ]
  perform-Holds (stdout_read j) e spares holds =
      Holds-changed (stdout_turn sys.from_str) (stdout_turn-drained sys.from_str)
        (stdout_turn_child sys.from_str) j e holds
  perform-Holds (stderr_read j) e spares holds =
      Holds-changed stderr_turn (stderr_turn-drained sys.from_str) stderr_turn_child j e holds

  pub perform_all-Holds :
      (cs : List Call) (e : LocalExecutor)
      → All (Spares id) cs
      → Holds e
      → Holds (perform_all sys cs e)
  unfolding perform_all
  perform_all-Holds [] e spared holds = holds
  perform_all-Holds (c ∷ cs) e spared holds =
      perform_all-Holds cs (perform sys c e) spared.1 (perform-Holds c e spared.0 holds)
