-- ===== src/Runner/Graph/Disk.antt =====
-- The step records on disk: src/stack.rs, and the synthetic step of a person's input, from
-- src/runner/mod.rs and src/notify/github.rs.
pub mod Names
pub mod Overwriting
pub mod Reading
mod Tests
use Prim.Native.Char.{code}
use kuromaku.Prelude.{
  ℕ, String, Bool, true, false, not, ◌&&◌, Option, none, some, List, [], ◌∷◌, ◌++◌, find, str_eq,
  leb, ◌==◌, if◌then◌else◌,
}
use kuromaku.Prelude.Text.{◌<>◌, is_empty, strip_prefix}
use kuromaku.Prelude.Number.{ℤ, pos, show_padded}
use kuromaku.Prelude.Result.{Result, ok, err}
use kuromaku.Runner.Graph.Model.{
  StepRecord, StoredStep, Disk, StackError, create_dir_failed, write_failed, read_failed,
  serialize_yaml, step_not_found, World,
}
use kuromaku.Runner.Graph.Prompt.{newline_after}

unfoldable pub step_content_filename : ℕ → String → String → String
unfolding show_padded
step_content_filename step_num step_id ext = show_padded step_num <> "-" <> step_id <> "." <> ext

unfoldable pub step_meta_filename : ℕ → String → String
unfolding show_padded
step_meta_filename step_num step_id = show_padded step_num <> "-" <> step_id <> ".meta.yaml"

-- `s.trim_start_matches(|c| c.is_ascii_digit())`.
unfoldable pub trim_digits : String → String
trim_digits String.[] = ""
trim_digits (String.◌∷◌ c s) =
    let rest = trim_digits s in if leb 48 (code c) && leb (code c) 57 then rest else String.◌∷◌ c s

-- Whether a file has the name of the step's meta file, whatever the step's number.
unfoldable pub is_meta_of : (step_id name : String) → Bool
unfolding trim_digits strip_prefix
is_meta_of step_id name = elim (strip_prefix "-" (trim_digits name)) [
  | none ↦ false
  | some rest ↦ str_eq rest (step_id <> ".meta.yaml")
]

-- Two steps with one number and one id have the same meta file.
unfoldable pub same_files : StoredStep → StoredStep → Bool
same_files s t = s.number == t.number && str_eq s.entry.step_id t.entry.step_id

-- A step whose record names the same output file holds what is written there.
abbrev pub with_output : StoredStep → StoredStep → StoredStep
with_output s t = record t {
  content = if str_eq s.entry.output_file t.entry.output_file then s.content else t.content;
}

-- What the two writes of a step leave of the steps that were there.
unfoldable pub overwrite : StoredStep → Disk → Disk
unfolding same_files
overwrite s [] = []
overwrite s (t ∷ ts) =
    let rest = overwrite s ts in if same_files s t then rest else with_output s t ∷ rest

-- The content file is written first, then the record as YAML. What a write that fails leaves behind is left out.
unfoldable pub write_run_step : (w : World) → StoredStep → Disk → w.State → Result StackError Disk
unfolding step_meta_filename
write_run_step w s disk env =
    if w.init_fails env
    then err create_dir_failed
    else if w.write_fails s.entry.output_file env
    then err write_failed
    else elim (w.to_yaml_error s.entry) [
      | some e ↦ err (serialize_yaml e)
      | none ↦
          if w.write_fails (step_meta_filename s.number s.entry.step_id) env
          then err write_failed
          else ok (overwrite s disk ++ s ∷ [])
    ]

-- What an output file holds: the same for all steps whose records name it.
unfoldable pub content_at : (file : String) → Disk → Option String
content_at file [] = none
content_at file (t ∷ ts) =
    let rest = content_at file ts in
    if str_eq file t.entry.output_file then some t.content else rest

unfoldable pub read_output :
    (w : World) → Disk → (file : String) → w.State → Result StackError String
unfolding content_at
read_output w disk file env = elim (w.read_error file env) [
  | some e ↦ err (read_failed e)
  | none ↦ elim (content_at file disk) [
    | none ↦ err (read_failed (w.no_file file))
    | some content ↦ ok content
  ]
]

-- The rest of the loop's body, for the file that is the step's meta file.
unfoldable pub read_step : (w : World) → Disk → StoredStep → w.State → Result StackError String
unfolding read_output step_meta_filename
read_step w disk s env = elim (w.read_error (step_meta_filename s.number s.entry.step_id) env) [
  | some e ↦ err (read_failed e)
  | none ↦ elim (w.reread s.entry) [
    | err e ↦ err (serialize_yaml e)
    | ok r ↦ read_output w disk r.output_file env
  ]
]

abbrev pub read_found :
    (w : World) → Disk → (step_id : String) → w.State → Option StoredStep → Result StackError String
read_found w disk step_id env none = err (step_not_found step_id)
read_found w disk step_id env (some s) = read_step w disk s env

-- The first meta file with the id, in the order of the directory, and the output file that its record names.
unfoldable pub read_run_step_content :
    (w : World) → Disk → String → w.State → Result StackError String
unfolding find is_meta_of step_meta_filename read_step
read_run_step_content w disk step_id env = elim (w.read_dir_error env) [
  | some e ↦ err (read_failed e)
  | none ↦ read_found w disk step_id env (
      find (λ s. is_meta_of step_id (step_meta_filename s.number s.entry.step_id))
        (w.listing disk env))
]

unfoldable pub format_local_human_input : String → String → String → String
unfolding is_empty newline_after
format_local_human_input body source paused_at =
    if is_empty body
    then ""
    else "Human input received since pause at "
      <> paused_at
      <> " (via "
      <> source
      <> "):\n\n---\n"
      <> body
      <> newline_after body

unfoldable pub synthesize_human_step_from_local :
    ℕ → String → String → String → String → Option StoredStep
unfolding is_empty format_local_human_input step_content_filename
synthesize_human_step_from_local step_num paused_at_state paused_at body source =
    if is_empty body
    then none
    else some (record {
      number = step_num;
      entry = record {
        step_id = paused_at_state;
        kind = "human";
        agent = none;
        model_requested = none;
        model_actual = none;
        backend = "human";
        exit_code = pos 0;
        input_steps = [];
        output_file = step_content_filename step_num paused_at_state "md";
        participants = [];
        turns = none;
        messages = none;
        terminated_by = none;
        graph_decision = none;
      };
      content = format_local_human_input body source paused_at;
    })
