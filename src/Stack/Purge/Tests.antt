-- ===== src/Stack/Purge/Tests.antt =====
-- Tests of the purge of src/stack.rs, with a project that is a symbolic link to the stack root.
use kuromaku.Prelude.{
  String, ◌≡◌, ◌↔◌, refl, Bool, true, false, none, List, [], ◌∷◌, str_eq, if◌then◌else◌,
}
use kuromaku.Prelude.Result.{ok, err}
use kuromaku.Runner.Graph.Model.{invalid_project_name, project_not_found, path_outside_stack_root}
use kuromaku.Stack.Purge.{
  FilePath, file, directory, link, Nodes, empty, entry, Files, PurgeReport, report_of, plan_purge,
  purge_project, contains_code, starts_with_dot,
}
use kuromaku.Stack.Purge.Within.{Purges, purge_project-Purges}

abbrev last_is : String → FilePath → Bool
last_is s [] = false
last_is s (c ∷ []) = str_eq c s
last_is s (c ∷ d ∷ p) = last_is s (d ∷ p)

abbrev root : FilePath
root = "home" ∷ "stacks" ∷ []

abbrev tree : Nodes
tree =
    entry
      (directory (entry (file 10) (entry link (entry (directory (entry (file 5) empty)) empty))))
      (entry (file 7) empty)

-- `self` points at the root and `away` out of it; the state is what has been removed.
abbrev disk : Files
disk = record {
  State = List FilePath;
  exists = λ p w. if last_is "gone" p then false else true;
  canonicalize = λ p w.
      if last_is "self" p then ok root else if last_is "away" p then ok ("etc" ∷ []) else ok p;
  read_dir = λ p w. ok tree;
  remove_dir_all = λ p w. (none, p ∷ w);
}

purged : PurgeReport
purged = report_of "alpha" ("home" ∷ "stacks" ∷ "alpha" ∷ []) (1, 3, 22) true

alpha : purge_project disk root "alpha" [] ≡ (ok purged, ("home" ∷ "stacks" ∷ "alpha" ∷ []) ∷ [])
unfolding purge_project contains_code starts_with_dot str_eq purged
alpha = refl

gone :
    plan_purge disk root "gone" []
    ≡ err (project_not_found "gone" ("home" ∷ "stacks" ∷ "gone" ∷ []))
unfolding plan_purge contains_code starts_with_dot str_eq
gone = refl

away : plan_purge disk root "away" [] ≡ err (path_outside_stack_root ("etc" ∷ []) root)
unfolding plan_purge contains_code starts_with_dot str_eq
away = refl

climbing : plan_purge disk root "a/../b" [] ≡ err (invalid_project_name "a/../b")
unfolding plan_purge contains_code starts_with_dot str_eq
climbing = refl

-- The whole root is removed.
linked_to_root :
    purge_project disk root "self" [] ≡ (ok (report_of "self" root (1, 3, 22) true), root ∷ [])
unfolding purge_project contains_code starts_with_dot str_eq
linked_to_root = refl

purge_project-Purges_example :
    (purge_project disk root "self" [] ≡ (ok (report_of "self" root (1, 3, 22) true), root ∷ []))
    ↔ Purges disk root "self" [] (root ∷ []) (report_of "self" root (1, 3, 22) true)
purge_project-Purges_example =
    purge_project-Purges disk root "self" [] (root ∷ []) (report_of "self" root (1, 3, 22) true)
