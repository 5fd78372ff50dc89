-- ===== src/Stack/Runs.antt =====
-- read_run of src/stack.rs. A run's directory is what its listing and its files give; serde_yaml's decoder
-- is a parameter, and an error is its text.
pub mod Names
pub mod Order
mod Tests
use Prim.Native.Char.{code}
use kuromaku.Prelude.{
  ℕ, ◌-◌, ◌^◌, String, Bool, true, false, ◌&&◌, Option, none, some, List, [], ◌∷◌, str_eq, leb, ltb,
  if◌then◌else◌,
}
use kuromaku.Prelude.Text.{is_empty, strip_prefix}
use kuromaku.Prelude.Number.Reading.{value}
use kuromaku.Prelude.Result.{Result, ok, err, ◌>>=◌}
use kuromaku.Runner.Graph.Model.{StepRecord, StackError, read_failed, serialize_yaml}
use kuromaku.Runner.Graph.Disk.{trim_digits}

pub data RunStatus : Type 0 where
  running done failed not_found : RunStatus

unfoldable pub status_name : RunStatus → String
status_name running = "running"
status_name done = "done"
status_name failed = "failed"
status_name not_found = "not_found"

pub record RunStepOutput : Type 0 where
  pub step_id : String
  pub content : Option String

pub record RunOutputs : Type 0 where
  pub run_id : String
  pub status : RunStatus
  pub steps : List RunStepOutput

-- `std::fs::read_to_string`: an error that the file is not there is told from the others.
pub data FileRead : Type 0 where
  contents : String → FileRead
  missing : (error : String) → FileRead
  unreadable : (error : String) → FileRead

-- `listing` is there where the steps directory is.
pub record RunDirectory : Type 0 where
  pub is_dir : Bool
  pub has_manifest : Bool
  pub listing : Option (Result String (List String))
  pub file : String → FileRead

-- The text that `trim_digits` takes off.
unfoldable pub take_digits : String → String
take_digits String.[] = ""
take_digits (String.◌∷◌ c s) =
    let rest = take_digits s in if leb 48 (code c) && leb (code c) 57 then String.◌∷◌ c rest else ""

-- `str::strip_suffix`.
unfoldable pub strip_suffix : String → String → Option String
strip_suffix suffix String.[] = if str_eq "" suffix then some "" else none
strip_suffix suffix (String.◌∷◌ c s) =
    let rest = strip_suffix suffix s in
    if str_eq (String.◌∷◌ c s) suffix
    then some ""
    else elim rest [ none ↦ none | some t ↦ some (String.◌∷◌ c t) ]

-- `digits.parse().unwrap_or(u32::MAX)`, for a text of digits.
unfoldable pub u32_of : String → ℕ
u32_of digits = let v = value 0 digits in if ltb v (2 ^ 32) then v else 2 ^ 32 - 1

abbrev pub passes : Option String → String → Bool
passes none step_id = true
passes (some want) step_id = str_eq want step_id

abbrev pub and_if : (String → Bool) → ℕ → Option String → Option ℕ
and_if test n none = none
and_if test n (some s) = if test s then some n else none

abbrev pub id_of : Option String → Option String
id_of none = none
id_of (some rest) = strip_suffix ".meta.yaml" rest

-- The step's number, where a file is the meta file of a step that the filter lets through.
unfoldable pub wanted : (filter : Option String) (name : String) → Option ℕ
unfolding take_digits trim_digits strip_prefix strip_suffix u32_of is_empty
wanted filter name =
    if is_empty (take_digits name)
    then none
    else and_if (passes filter) (u32_of (take_digits name))
        (id_of (strip_prefix "-" (trim_digits name)))

abbrev pub text_read : FileRead → Result StackError String
text_read (contents s) = ok s
text_read (missing e) = err (read_failed e)
text_read (unreadable e) = err (read_failed e)

abbrev pub decoded : Result String StepRecord → Result StackError StepRecord
decoded (ok r) = ok r
decoded (err e) = err (serialize_yaml e)

module _ (from_yaml : String → Result String StepRecord) (dir : RunDirectory) where
  unfoldable pub record_in : String → Result StackError StepRecord
  record_in name = text_read (dir.file name) >>= λ yaml. decoded (from_yaml yaml)

  abbrev pub with_meta :
      Option ℕ
      → Result StackError StepRecord
      → Result StackError (List (ℕ × StepRecord))
      → Result StackError (List (ℕ × StepRecord))
  with_meta none r rest = rest
  with_meta (some n) r rest = r >>= λ rec. rest >>= λ metas. ok ((n, rec) ∷ metas)

  -- The loop over the directory.
  unfoldable pub read_metas :
      Option String → List String → Result StackError (List (ℕ × StepRecord))
  unfolding wanted record_in
  read_metas filter [] = ok []
  read_metas filter (name ∷ names) =
      with_meta (wanted filter name) (record_in name) (read_metas filter names)

  -- The content of a step, if it has been written.
  abbrev pub content_read : FileRead → Result StackError (Option String)
  content_read (contents s) = ok (some s)
  content_read (missing e) = ok none
  content_read (unreadable e) = err (read_failed e)

  unfoldable pub read_outputs : List (ℕ × StepRecord) → Result StackError (List RunStepOutput)
  read_outputs [] = ok []
  read_outputs ((n, rec) ∷ metas) = content_read (dir.file rec.output_file) >>= λ content.
      read_outputs metas >>= λ outputs.
      ok (record { step_id = rec.step_id; content = content } ∷ outputs)

-- `sort_by_key`, which keeps the order of records with one number.
unfoldable pub insert_by_order : ℕ × StepRecord → List (ℕ × StepRecord) → List (ℕ × StepRecord)
insert_by_order m [] = m ∷ []
insert_by_order m (k ∷ ks) =
    let rest = insert_by_order m ks in if leb m.0 k.0 then m ∷ k ∷ ks else k ∷ rest

unfoldable pub sort_by_order : List (ℕ × StepRecord) → List (ℕ × StepRecord)
unfolding insert_by_order
sort_by_order [] = []
sort_by_order (m ∷ ms) = insert_by_order m (sort_by_order ms)

abbrev pub listed : Result String (List String) → Result StackError (List String)
listed (ok names) = ok names
listed (err e) = err (read_failed e)

unfoldable pub collect_run_steps :
    (String → Result String StepRecord)
    → RunDirectory
    → Option String
    → Result StackError (List RunStepOutput)
unfolding read_metas sort_by_order read_outputs
collect_run_steps from_yaml dir filter = elim dir.listing [
  | none ↦ ok []
  | some names ↦ listed names >>= λ found. read_metas from_yaml dir filter found >>= λ metas.
      read_outputs from_yaml dir (sort_by_order metas)
]

unfoldable pub read_run :
    (String → Result String StepRecord)
    → RunDirectory
    → (run_id : String) → Option String
    → Result StackError RunOutputs
unfolding collect_run_steps
read_run from_yaml dir run_id step =
    if dir.is_dir
    then (collect_run_steps from_yaml dir step >>= λ steps. ok (record {
      run_id = run_id;
      status = (if dir.has_manifest then done else running);
      steps = steps;
    }))
    else ok (record { run_id = run_id; status = not_found; steps = [] })
