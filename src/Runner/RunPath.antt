-- ===== src/Runner/RunPath.antt =====
-- `unique_run_path` of src/runner/mod.rs: a name for a run's directory that is not taken. The names
-- that exist stand as a list.
pub mod Free
mod Tests
use kuromaku.Prelude.{
  ℕ, zero, suc, ◌+◌, String, Bool, true, false, Option, none, some, List, [], ◌∷◌, length, contains,
  if◌then◌else◌,
}
use kuromaku.Prelude.Text.{◌<>◌}
use kuromaku.Prelude.Number.{show}

abbrev pub candidate : String → ℕ → String
candidate base n = base <> "-" <> show n

-- The loop; `none` when the fuel has run out.
unfoldable pub free_candidate : List String → String → ℕ → (fuel : ℕ) → Option String
unfolding contains show
free_candidate existing base n zero = none
free_candidate existing base n (suc fuel) =
    let rest = free_candidate existing base (n + 1) fuel in
    if contains (candidate base n) existing then rest else some (candidate base n)

unfoldable pub unique_run_path : List String → String → Option String
unfolding contains
unique_run_path existing base =
    if contains base existing
    then free_candidate existing base 2 (suc (length existing))
    else some base
