-- ===== src/Stack/Purge.antt =====
-- The purge of src/stack.rs. A path is its components; the file system is the parameter `Files`, with a directory as
-- a tree in which a symbolic link is an entry of its own. An error is its text.
pub mod Segments
pub mod Within
mod Tests
use Prim.Native.Char.{code}
use kuromaku.Prelude.{
  ℕ, ◌+◌, ◌%◌, ◌^◌, String, Bool, true, false, ◌||◌, Option, none, some, List, [], ◌∷◌, ◌++◌,
  str_eq, ◌==◌, if◌then◌else◌,
}
use kuromaku.Prelude.Text.{is_empty}
use kuromaku.Prelude.Result.{Result, ok, err, ◌>>=◌}
use kuromaku.Runner.Graph.Model.{
  StackError, read_failed, invalid_project_name, project_not_found, path_outside_stack_root,
  remove_failed,
}

abbrev pub FilePath : Type 0
FilePath = List String

-- `denied` is an entry whose reading fails.
mutual
  pub data Node : Type 0 where
    file : (size : ℕ) → Node
    directory : Nodes → Node
    link : Node
    denied : (error : String) → Node

  pub data Nodes : Type 0 where
    empty : Nodes
    entry : Node → Nodes → Nodes

pub record Files : Type 1 where
  pub State : Type 0
  pub exists : FilePath → State → Bool
  pub canonicalize : FilePath → State → Result String FilePath
  pub read_dir : FilePath → State → Result String Nodes
  pub remove_dir_all : FilePath → State → Option String × State

pub record PurgeReport : Type 0 where
  pub project : String
  pub path : FilePath
  pub run_count : ℕ
  pub file_count : ℕ
  pub byte_size : ℕ
  pub deleted : Bool

abbrev pub report_of : String → FilePath → ℕ × ℕ × ℕ → Bool → PurgeReport
report_of project path counts deleted = record {
  project = project;
  path = path;
  run_count = counts.0;
  file_count = counts.1;
  byte_size = counts.2;
  deleted = deleted;
}

unfoldable pub contains_code : ℕ → String → Bool
contains_code n String.[] = false
contains_code n (String.◌∷◌ c s) = code c == n || contains_code n s

unfoldable pub starts_with_dot : String → Bool
starts_with_dot String.[] = false
starts_with_dot (String.◌∷◌ c s) = code c == 46

unfoldable pub is_bad_name : String → Bool
unfolding contains_code starts_with_dot is_empty
is_bad_name name =
    is_empty name
    || str_eq name "."
    || str_eq name ".."
    || starts_with_dot name
    || contains_code 47 name
    || contains_code 92 name
    || contains_code 0 name

unfoldable pub validate_project_name : String → Result StackError String
unfolding is_bad_name
validate_project_name name = if is_bad_name name then err (invalid_project_name name) else ok name

-- `Path::starts_with`, by whole components.
unfoldable pub starts_with : (path base : FilePath) → Bool
starts_with path [] = true
starts_with [] (c ∷ base) = false
starts_with (d ∷ path) (c ∷ base) =
    let rest = starts_with path base in if str_eq c d then rest else false

abbrev pub read_or {ℓ} : {A : Type ℓ} → Result String A → Result StackError A
read_or (ok a) = ok a
read_or (err e) = err (read_failed e)

-- The directories directly below.
unfoldable pub count_runs : Nodes → Result StackError ℕ
count_runs empty = ok 0
count_runs (entry (file n) rest) = count_runs rest
count_runs (entry (directory d) rest) = count_runs rest >>= λ n. ok (n + 1)
count_runs (entry link rest) = count_runs rest
count_runs (entry (denied e) rest) = err (read_failed e)

-- Files and bytes, in 64 bits, behind those that have been counted.
unfoldable pub walk_files : Nodes → ℕ × ℕ → Result StackError (ℕ × ℕ)
walk_files empty counted = ok counted
walk_files (entry (file n) rest) counted =
    walk_files rest ((counted.0 + 1) % 2 ^ 64, (counted.1 + n) % 2 ^ 64)
walk_files (entry (directory d) rest) counted = walk_files d counted >>= λ c. walk_files rest c
walk_files (entry link rest) counted = walk_files rest counted
walk_files (entry (denied e) rest) counted = err (read_failed e)

module _ (f : Files) where
  unfoldable pub resolve_project_path :
      (root : FilePath) (project : String) → f.State → Result StackError FilePath
  unfolding validate_project_name starts_with
  resolve_project_path root project w =
      let candidate = root ++ project ∷ [] in
      validate_project_name project >>= λ name.
      if f.exists candidate w
      then (read_or (f.canonicalize root w) >>= λ canonical_root.
          read_or (f.canonicalize candidate w) >>= λ canonical_project.
          if starts_with canonical_project canonical_root
          then ok canonical_project
          else err (path_outside_stack_root canonical_project canonical_root))
      else err (project_not_found project candidate)

  unfoldable pub inspect_directory : FilePath → f.State → Result StackError (ℕ × ℕ × ℕ)
  unfolding count_runs walk_files
  inspect_directory path w = read_or (f.read_dir path w) >>= λ nodes. count_runs nodes >>= λ runs.
      walk_files nodes (0, 0) >>= λ counted. ok (runs, counted.0, counted.1)

  unfoldable pub plan_purge : FilePath → String → f.State → Result StackError PurgeReport
  unfolding resolve_project_path inspect_directory
  plan_purge root project w = resolve_project_path root project w >>= λ path.
      inspect_directory path w >>= λ counts. ok (report_of project path counts false)

  abbrev pub removed :
      PurgeReport → Option String × f.State → Result StackError PurgeReport × f.State
  removed report (none, w) = (ok (record report { deleted = true }), w)
  removed report (some e, w) = (err (remove_failed report.path e), w)

  unfoldable pub purge_project :
      FilePath → String → f.State → Result StackError PurgeReport × f.State
  unfolding plan_purge
  purge_project root project w = elim (plan_purge root project w) [
    | err e ↦ (err e, w)
    | ok report ↦ removed report (f.remove_dir_all report.path w)
  ]
