-- ===== src/Runner/Graph/Disk/Tests.antt =====
-- Steps of one state that is visited twice, on a disk that takes every write.
use kuromaku.Prelude.{
  ℕ, String, ◌≡◌, ◌≢◌, All, str_eq_iff, refl, false, none, some, [], ◌∷◌, find, str_eq, arith,
}
use kuromaku.Prelude.Text.{strip_prefix}
use kuromaku.Prelude.Number.{show_padded, show, digits, digit, pos}
use kuromaku.Prelude.Result.{ok, err}
use kuromaku.Runner.Graph.Model.{StepRecord, StoredStep, exited, World}
use kuromaku.Runner.Graph.Disk.{
  is_meta_of, step_meta_filename, trim_digits, write_run_step, read_run_step_content, overwrite,
  same_files, read_step, read_output, content_at,
}
use kuromaku.Runner.Graph.Disk.Reading.{ReplacedBy, read-write, read-write_stale}

abbrev quiet : World
quiet = record {
  State = ℕ;
  run_agent = λ state attempt command n. (ok "", n);
  run_shell = λ state command n. (exited "" "" (pos 0), n);
  read_human = λ state task targets n. (ok "", n);
  now = λ n. "";
  init_fails = λ n. false;
  write_fails = λ file n. false;
  to_yaml_error = λ r. none;
  reread = λ r. ok r;
  read_dir_error = λ n. none;
  read_error = λ file n. none;
  no_file = λ file. "No such file";
  listing = λ disk n. disk;
  from_str = λ bytes. err "";
  system_prompt = λ agent. "";
}

abbrev blank : StepRecord
blank = record {
  step_id = "work";
  kind = "graph";
  agent = none;
  model_requested = none;
  model_actual = none;
  backend = "codex";
  exit_code = pos 0;
  input_steps = [];
  output_file = "";
  participants = [];
  turns = none;
  messages = none;
  terminated_by = none;
  graph_decision = none;
}

abbrev step : ℕ → (file : String) → String → StoredStep
step n file text = record {
  number = n;
  entry = record blank { output_file = file };
  content = text;
}

abbrev draft : StoredStep
draft = step 1 "01-work.md" "First draft."

abbrev redraft : StoredStep
redraft = step 3 "03-work.md" "Second draft."

-- A step of another id that names the output file of the first one.
abbrev sharing : StoredStep
sharing = record {
  number = 2;
  entry = record blank { step_id = "check"; output_file = "01-work.md" };
  content = "Checked.";
}

sharing-ReplacedBy : All (ReplacedBy draft) (sharing ∷ [])
unfolding str_eq
sharing-ReplacedBy = (λ same. absurd (cc ((str_eq_iff "check" "work").1 same)), tt)

other_file : draft.entry.output_file ≢ redraft.entry.output_file
unfolding str_eq
other_file same = absurd (cc ((str_eq_iff "01-work.md" "03-work.md").1 same))

written_first :
    write_run_step (quiet) draft (sharing ∷ []) 0
    ≡ ok (record sharing { content = "First draft." } ∷ draft ∷ [])
unfolding write_run_step overwrite same_files str_eq
written_first = refl

read-write_example :
    read_run_step_content
      (quiet)
      (record sharing { content = "First draft." } ∷ draft ∷ [])
      "work"
      0
    ≡ ok "First draft."
read-write_example =
    read-write (quiet) draft (sharing ∷ [])
      (record sharing { content = "First draft." } ∷ draft ∷ []) 0 sharing-ReplacedBy
      (λ t. (λ m. m, λ m. m)) (refl, λ file. refl) refl written_first

both_written : write_run_step (quiet) redraft (draft ∷ []) 0 ≡ ok (draft ∷ redraft ∷ [])
unfolding write_run_step overwrite same_files str_eq
both_written = refl

first_found : find (λ (x : StoredStep). str_eq x.entry.step_id "work") (draft ∷ []) ≡ some draft
unfolding find str_eq
first_found = refl

first_read : read_run_step_content (quiet) (draft ∷ []) "work" 0 ≡ ok "First draft."
unfolding read_run_step_content read_step read_output content_at find str_eq is_meta_of
    step_meta_filename trim_digits strip_prefix show_padded show digits digit
first_read = refl

read-write_stale_example :
    read_run_step_content (quiet) (draft ∷ redraft ∷ []) "work" 0
    ≡ read_run_step_content (quiet) (draft ∷ []) "work" 0
read-write_stale_example =
    read-write_stale (quiet) redraft draft (draft ∷ []) (draft ∷ redraft ∷ []) 0 (λ d. refl) refl
      first_found (omega arith) other_file both_written
