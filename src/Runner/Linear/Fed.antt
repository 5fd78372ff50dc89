-- ===== src/Runner/Linear/Fed.antt =====
-- Each kind of step ends with its record behind the others, or with an error of its own.
use kuromaku.Prelude.{
  ℕ, String, refl, inl, inr, Option, none, some, List, All, Member, Assoc, lookup, Bool-cases,
  Option-cases,
}
use kuromaku.Prelude.Result.{Result-cases}
use kuromaku.Config.{Step, is_shell, is_conversation}
use kuromaku.Messaging.Router.{run, LogEntry, TerminationReason}
use kuromaku.Runner.Graph.Model.{Agent, StepRunResult, Disk, World}
use kuromaku.Runner.Linear.Model.{Context, Calls, transports}
use kuromaku.Runner.Linear.Steps.{
  or_else, resolve_extra_args, build_user_prompt, run_backend, run_agent_step,
}
use kuromaku.Runner.Linear.Talk.{
  participants_of, backend_gate, spawn_all, opened_router, close_conversation, converse_step,
  start_conversation, run_conversation_step,
}
use kuromaku.Runner.Linear.Stored.{disk_ids, ListsAll}
use kuromaku.Runner.Linear.Missing.{build_user_prompt-NotMissing}
use kuromaku.Runner.Linear.Fine.{
  StepFine, stored-Fine, commented-Fine, shell-Fine, NotMissing-err, backend-NotMissing,
  participants-NotMissing, gate-NotMissing, spawn-NotMissing,
}
use kuromaku.Runner.Linear.Run.{run_step}

module _ (w : World) (c : Calls w) (ctx : Context) (s : Step) (n : ℕ) (disk : Disk)
    (fresh : ¬ Member s.id (disk_ids disk)) (lists : ListsAll w)
    (fed : All (λ i. Member i (disk_ids disk)) s.input) where
  agent-Fine :
      (a : Agent) (results : List StepRunResult) (env : w.State)
      → StepFine s n disk (run_agent_step w c ctx s n a results disk env).0
  unfolding run_agent_step
  agent-Fine a results env = elim (Result-cases (build_user_prompt w ctx.task s disk env)) [
    | inr (x, e) ↦
        rw (run_agent_step, e)
          (NotMissing-err (build_user_prompt w ctx.task s disk env) x
            (build_user_prompt-NotMissing w lists ctx.task s disk env fed) e)
    | inl (user, prompt) ↦
        let model = or_else s.model a.model in
        let b = or_else s.backend a.backend in
        let reply =
          run_backend w c ctx s (w.system_prompt a) user model b (resolve_extra_args s a b) env in
        elim (Result-cases reply.0) [
          | inl (content, e) ↦
              rw (run_agent_step, prompt, e)
                (commented-Fine w s n disk fresh _ _
                  (stored-Fine w s n disk fresh _ _ _ _ refl refl))
          | inr (x, e) ↦
              rw (run_agent_step, prompt, e)
                (NotMissing-err reply.0 x
                  (backend-NotMissing w c ctx s (w.system_prompt a) user model b
                    (resolve_extra_args s a b) env)
                  e)
        ]
  ]

  close-Fine :
      (participants : List Agent) (p : Option TerminationReason × List LogEntry) (env : w.State)
      → StepFine s n disk (close_conversation w c ctx s n participants p disk env).0
  unfolding close_conversation
  close-Fine participants (none, log) env = tt
  close-Fine participants (some reason, log) env = stored-Fine w s n disk fresh _ _ _ _ refl refl

  start-Fine :
      (participants : List Agent) (seed : String) (env : w.State)
      → StepFine s n disk (start_conversation w c ctx s n participants seed disk env).0
  unfolding start_conversation converse_step
  start-Fine participants seed env =
      let spawned = spawn_all w c ctx s.id participants (opened_router w c ctx s env) env in
      elim (Result-cases spawned.0) [
        | inl (r, e) ↦
            rw (start_conversation, converse_step, e)
              (close-Fine participants
                (run (transports w c) r (some seed) (c.events s.id spawned.1) spawned.1)
                (c.settled s.id spawned.1))
        | inr (x, e) ↦
            rw (start_conversation, e)
              (NotMissing-err spawned.0 x
                (spawn-NotMissing w c ctx s participants (opened_router w c ctx s env) env) e)
      ]

  conversation-Fine :
      (agents : Assoc Agent) (env : w.State)
      → StepFine s n disk (run_conversation_step w c ctx s n agents disk env).0
  unfolding run_conversation_step
  conversation-Fine agents env = elim (Result-cases (participants_of agents s.id s.agents)) [
    | inr (x, e) ↦
        rw (run_conversation_step, e)
          (NotMissing-err (participants_of agents s.id s.agents) x
            (participants-NotMissing w c ctx s agents s.agents) e)
    | inl (participants, e) ↦ elim (Option-cases (backend_gate s.id participants)) [
      | inr (x, g) ↦ rw (run_conversation_step, e, g) (gate-NotMissing w c ctx s participants x g)
      | inl g ↦ elim (Result-cases (build_user_prompt w ctx.task s disk env)) [
        | inr (x, p) ↦
            rw (run_conversation_step, e, g, p)
              (NotMissing-err (build_user_prompt w ctx.task s disk env) x
                (build_user_prompt-NotMissing w lists ctx.task s disk env fed) p)
        | inl (seed, prompt) ↦ elim (Bool-cases (c.opens_log s.id env)) [
          | inl o ↦ rw (run_conversation_step, e, g, prompt, o) (start-Fine participants seed env)
          | inr o ↦ rw (run_conversation_step, e, g, prompt, o) refl
        ]
      ]
    ]
  ]

  pub run_step-Fine :
      (agents : Assoc Agent) (results : List StepRunResult) (env : w.State)
      → StepFine s n disk (run_step w c ctx agents s n results disk env).0
  unfolding run_step
  run_step-Fine agents results env = elim (Bool-cases (is_shell s)) [
    | inl sh ↦ rw (run_step, sh) (shell-Fine w s n disk fresh c ctx results env)
    | inr sh ↦ elim (Bool-cases (is_conversation s)) [
      | inl cv ↦ rw (run_step, sh, cv) (conversation-Fine agents env)
      | inr cv ↦ elim (Option-cases (lookup s.agent agents)) [
        | inl e ↦ rw (run_step, sh, cv, e) refl
        | inr (a, e) ↦ rw (run_step, sh, cv, e) (agent-Fine a results env)
      ]
    ]
  ]
