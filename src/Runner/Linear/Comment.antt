-- ===== src/Runner/Linear/Comment.antt =====
-- The comment that a step may post: src/notify/github.rs, and the input agents of src/runner/mod.rs.
use kuromaku.Prelude.{
  String, Option, none, some, List, [], ◌∷◌, Assoc, lookup, find, str_eq, if◌then◌else◌,
}
use kuromaku.Prelude.Text.{◌<>◌, is_empty, join}
use kuromaku.Prelude.Result.{ok, err}
use kuromaku.Config.{PostCommentTarget, pr, issue}
use kuromaku.Runner.Graph.Model.{StepRunResult, World}
use kuromaku.Runner.Linear.Model.{Context, Calls}

pub data PostOutcome : Type 0 where
  posted : (kind number : String) → PostOutcome
  no_id_provided : PostOutcome
  failed : (error : String) → PostOutcome

abbrev last_of : String → List String → String
last_of x [] = x
last_of x (y ∷ ys) = last_of y ys

abbrev all_but_last : String → List String → List String
all_but_last x [] = []
all_but_last x (y ∷ ys) = x ∷ all_but_last y ys

unfoldable pub join_agent_names : List String → String
unfolding join
join_agent_names [] = ""
join_agent_names (a ∷ []) = a
join_agent_names (a ∷ b ∷ []) = a <> " and " <> b
join_agent_names (a ∷ b ∷ c ∷ rest) =
    join ", " (all_but_last a (b ∷ c ∷ rest)) <> ", and " <> last_of a (b ∷ c ∷ rest)

unfoldable pub build_comment_body : (output current_agent : String) → List String → String
unfolding join_agent_names
build_comment_body output current_agent input_agents =
    (elim input_agents [
      | [] ↦ "Comment by " <> current_agent
      | a ∷ rest ↦ "Review by " <> join_agent_names (a ∷ rest) <> ", consensus by " <> current_agent
    ])
    <> "\n\n---\n\n"
    <> output

abbrev kind_name : PostCommentTarget → String
kind_name pr = "PR"
kind_name issue = "issue"

-- The number to post on: an empty one is none.
unfoldable pub post_number : Assoc String → Option String
unfolding lookup is_empty
post_number vars = elim (lookup "id" vars) [
  | none ↦ none
  | some s ↦ if is_empty s then none else some s
]

-- The agents of the results of a step's inputs, as far as there are results.
unfoldable pub agents_of_inputs : List StepRunResult → List String → List String
unfolding find
agents_of_inputs results [] = []
agents_of_inputs results (i ∷ is) =
    let rest = agents_of_inputs results is in
    elim (find (λ r. str_eq r.step_id i) results) [ none ↦ rest | some r ↦ r.agent_name ∷ rest ]

module _ (w : World) (c : Calls w) where
  unfoldable pub try_post_step_comment :
      PostCommentTarget
      → (agent_name content : String) → (input_agents : List String) → Assoc String
      → w.State
      → PostOutcome × w.State
  unfolding post_number build_comment_body
  try_post_step_comment target agent_name content input_agents vars env = elim (post_number vars) [
    | none ↦ (no_id_provided, env)
    | some number ↦
        let (r, env') =
          c.poster target number (build_comment_body content agent_name input_agents) env in
        elim r [ ok _ ↦ (posted (kind_name target) number, env') | err e ↦ (failed e, env') ]
  ]

  -- A step's comment: whatever comes of it, the step goes on.
  unfoldable pub comment_on :
      Context
      → Option PostCommentTarget
      → (agent_name content : String) → (inputs : List String) → List StepRunResult
      → w.State
      → w.State
  unfolding try_post_step_comment agents_of_inputs
  comment_on ctx none agent_name content inputs results env = env
  comment_on ctx (some target) agent_name content inputs results env =
      (try_post_step_comment target agent_name content (agents_of_inputs results inputs)
        ctx.template_vars env).1
