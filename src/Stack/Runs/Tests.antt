-- ===== src/Stack/Runs/Tests.antt =====
-- Tests of read_run of src/stack.rs: a run of two steps whose directory lists the later one first.
use kuromaku.Prelude.{
  String, ◌≡◌, refl, true, false, none, some, List, [], ◌∷◌, map, str_eq, if◌then◌else◌, arith,
}
use kuromaku.Prelude.Number.{pos}
use kuromaku.Prelude.Result.{Result, ok, err}
use kuromaku.Runner.Graph.Model.{StepRecord, StoredStep}
use kuromaku.Runner.Graph.Disk.{step_meta_filename}
use kuromaku.Stack.Runs.{
  RunDirectory, FileRead, contents, missing, wanted, record_in, read_run, running, not_found,
  strip_suffix,
}
use kuromaku.Stack.Runs.Order.{
  Readable, Listed, none_left, other_file, step_file, output, read_run-InOrder,
}

abbrev plan : StoredStep
plan = record {
  number = 1;
  entry = record {
    step_id = "plan";
    kind = "task";
    agent = some "noah";
    model_requested = none;
    model_actual = none;
    backend = "claude-cli";
    exit_code = pos 0;
    input_steps = [];
    output_file = "01-plan.md";
    participants = [];
    turns = none;
    messages = none;
    terminated_by = none;
    graph_decision = none;
  };
  content = "The plan.";
}

abbrev build : StoredStep
build = record {
  number = 2;
  entry = record plan.entry { step_id = "build"; output_file = "02-build.md" };
  content = "Built.";
}

abbrev decode : String → Result String StepRecord
decode s =
    if str_eq s "1" then ok plan.entry else if str_eq s "2" then ok build.entry else err "no record"

abbrev file_of : String → FileRead
file_of name =
    if str_eq name "01-plan.meta.yaml"
    then contents "1"
    else if str_eq name "02-build.meta.yaml"
    then contents "2"
    else if str_eq name "01-plan.md"
    then contents "The plan."
    else if str_eq name "02-build.md"
    then contents "Built."
    else missing "no such file"

abbrev names : List String
names = "02-build.meta.yaml" ∷ "01-plan.md" ∷ "01-plan.meta.yaml" ∷ "02-build.md" ∷ []

abbrev run_dir : RunDirectory
run_dir = record { is_dir = true; has_manifest = false; listing = some (ok names); file = file_of }

suffix_kept : strip_suffix ".md" "a.md.md" ≡ some "a.md"
unfolding strip_suffix str_eq
suffix_kept = refl

no_run :
    read_run decode (record run_dir { is_dir = false }) "r" none
    ≡ ok (record { run_id = "r"; status = not_found; steps = [] })
unfolding read_run
no_run = refl

filtered :
    read_run decode run_dir "r" (some "plan")
    ≡ ok (record { run_id = "r"; status = running; steps = output plan ∷ [] })
unfolding read_run wanted str_eq
filtered = refl

unwritten :
    read_run decode
      (record run_dir {
        file = λ n. if str_eq n "02-build.md" then missing "no such file" else file_of n;
      })
      "r"
      (some "build")
    ≡ ok (record {
      run_id = "r";
      status = running;
      steps = record { step_id = "build"; content = none } ∷ [];
    })
unfolding read_run wanted str_eq
unwritten = refl

plan-Readable : Readable decode run_dir none plan
unfolding record_in step_meta_filename str_eq
plan-Readable = record { meta = refl; content = refl; bounded = omega arith; let_through = refl }

build-Readable : Readable decode run_dir none build
unfolding record_in step_meta_filename str_eq
build-Readable = record { meta = refl; content = refl; bounded = omega arith; let_through = refl }

names-Listed : Listed decode run_dir none (plan ∷ build ∷ []) names
unfolding wanted step_meta_filename str_eq
names-Listed =
    other_file "01-plan.md" ("02-build.meta.yaml" ∷ []) ("01-plan.meta.yaml" ∷ "02-build.md" ∷ [])
      refl refl
      (step_file plan ("02-build.meta.yaml" ∷ []) ("02-build.md" ∷ []) refl plan-Readable (
        step_file build [] ("02-build.md" ∷ []) refl build-Readable
          (other_file "02-build.md" [] [] refl refl none_left)))

read_run-InOrder_example :
    read_run decode run_dir "r" none
    ≡ ok (record { run_id = "r"; status = running; steps = map output (plan ∷ build ∷ []) })
read_run-InOrder_example =
    read_run-InOrder decode run_dir none "r" (plan ∷ build ∷ []) names refl refl names-Listed
      ((omega arith, tt), (tt, tt))
