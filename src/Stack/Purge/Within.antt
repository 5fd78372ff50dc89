-- ===== src/Stack/Purge/Within.antt =====
-- What a purge of src/stack.rs removes, and when.
use kuromaku.Prelude.{
  ℕ, String, ◌≡◌, ◌↔◌, refl, sym, ap, ◌∙◌, inl, inr, true, false, Option, none, some, [], ◌∷◌, ◌++◌,
  str_eq_refl, str-cases, Bool-cases,
}
use kuromaku.Prelude.Result.{Result, ok, err, Result-cases, >>=-first}
use kuromaku.Runner.Graph.Model.{StackError}
use kuromaku.Stack.Purge.{
  FilePath, Files, PurgeReport, report_of, is_bad_name, validate_project_name, starts_with, read_or,
  resolve_project_path, inspect_directory, plan_purge, removed, purge_project,
}
use kuromaku.Stack.Purge.Segments.{IsSegment, good_name, segment_good}

starts_with-prefix :
    (path base : FilePath)
    → starts_with path base ≡ true
    → (rest : FilePath) × (path ≡ base ++ rest)
unfolding starts_with
starts_with-prefix path [] h = (path, refl)
starts_with-prefix [] (c ∷ base) h = absurd (cc)
starts_with-prefix (d ∷ path) (c ∷ base) h = elim (str-cases c d) [
  | inl (e, same) ↦
      let (rest, more) = starts_with-prefix path base (rw e at h) in
      (rest, ap (λ x. x ∷ path) (sym same) ∙ ap (λ l. c ∷ l) more)
  | inr e ↦ absurd (cc (rw e at h))
]

prefix-starts_with : (base rest : FilePath) → starts_with (base ++ rest) base ≡ true
unfolding starts_with
prefix-starts_with [] rest = refl
prefix-starts_with (c ∷ base) rest =
    rw (starts_with, str_eq_refl c, prefix-starts_with base rest) refl

-- What a successful purge has gone by: the project is one segment below the root, it is there, its canonical path
-- begins with that of the root, its tree has been counted, and its canonical path has been removed.
pub record Purges (f : Files) (root : FilePath) (project : String) (w w' : f.State)
    (report : PurgeReport) : Type 0 where
  pub segment : IsSegment project
  pub there : f.exists (root ++ project ∷ []) w ≡ true
  pub base : FilePath
  pub below : FilePath
  pub root_path : f.canonicalize root w ≡ ok base
  pub project_path : f.canonicalize (root ++ project ∷ []) w ≡ ok (base ++ below)
  pub counts : ℕ × ℕ × ℕ
  pub counted : inspect_directory f (base ++ below) w ≡ ok counts
  pub removal : f.remove_dir_all (base ++ below) w ≡ (none, w')
  pub reported : report ≡ report_of project (base ++ below) counts true

module _ (f : Files) where
  validated :
      (name other : String) → validate_project_name name ≡ ok other → is_bad_name name ≡ false
  unfolding validate_project_name
  validated name other h = elim (Bool-cases (is_bad_name name)) [
    | inl e ↦ absurd (cc (rw e at h))
    | inr e ↦ e
  ]

  read_or-ok : {A : Type 0} (r : Result String A) (a : A) → read_or r ≡ ok a → r ≡ ok a
  read_or-ok (ok b) a h = ap ok (cc (h))
  read_or-ok (err e) a h = absurd (cc)

  ok_path : (p q : FilePath) → Path (Result StackError FilePath) (ok p) (ok q) → p ≡ q
  ok_path p q h = cc (h)

  ok_report : (p q : PurgeReport) → Path (Result StackError PurgeReport) (ok p) (ok q) → p ≡ q
  ok_report p q h = cc (h)

  err_ok :
      {e : StackError} {p : PurgeReport} → Path (Result StackError PurgeReport) (err e) (ok p) → ⊥
  err_ok h = cc (h)

  -- A path that has been resolved.
  abbrev Resolves : FilePath → String → f.State → FilePath → Type 0
  Resolves root project w path =
      IsSegment project
      × (f.exists (root ++ project ∷ []) w ≡ true)
      × ((base : FilePath) × (below : FilePath) × (f.canonicalize root w ≡ ok base)
          × (f.canonicalize (root ++ project ∷ []) w ≡ ok path)
          × (path ≡ base ++ below))

  resolve_project_path-Resolves :
      (root : FilePath) (project : String) (w : f.State) (path : FilePath)
      → resolve_project_path f root project w ≡ ok path
      → Resolves root project w path
  unfolding resolve_project_path
  resolve_project_path-Resolves root project w path h =
      let (name, h1, named) = >>=-first _ (validate_project_name project) h in
      elim (Bool-cases (f.exists (root ++ project ∷ []) w)) [
        | inr e ↦ absurd (cc (rw e at h1))
        | inl e ↦
            let (base, h2, rooted) = >>=-first _ (read_or (f.canonicalize root w)) (rw e at h1) in
            let (found, h3, placed) =
              >>=-first _ (read_or (f.canonicalize (root ++ project ∷ []) w)) h2 in
            elim (Bool-cases (starts_with found base)) [
              | inr t ↦ absurd (cc (rw t at h3))
              | inl t ↦
                  let same : found ≡ path = ok_path found path (rw t at h3) in
                  let (below, parts) = starts_with-prefix found base t in
                  (
                    good_name project (validated project name named),
                    e,
                    (
                      base,
                      below,
                      read_or-ok (f.canonicalize root w) base rooted,
                      read_or-ok (f.canonicalize (root ++ project ∷ []) w) found placed
                          ∙ ap ok same,
                      sym same ∙ parts,
                    ),
                  )
            ]
      ]

  Resolves-resolve_project_path :
      (root : FilePath) (project : String) (w : f.State) (base below : FilePath)
      → IsSegment project
      → f.exists (root ++ project ∷ []) w ≡ true
      → f.canonicalize root w ≡ ok base
      → f.canonicalize (root ++ project ∷ []) w ≡ ok (base ++ below)
      → resolve_project_path f root project w ≡ ok (base ++ below)
  unfolding resolve_project_path validate_project_name
  Resolves-resolve_project_path root project w base below segment e rooted placed =
      rw
        (
          validate_project_name,
          segment_good project segment,
          e,
          rooted,
          placed,
          prefix-starts_with base below,
        )
        refl

  removed-ok :
      (report report' : PurgeReport) (r : Option String × f.State) (w' : f.State)
      → removed f report r ≡ (ok report', w')
      → (r ≡ (none, w')) × (report' ≡ record report { deleted = true })
  removed-ok report report' (none, v) w' h =
      (ap (λ x. (none, x)) (ap (λ p. p.1) h), sym (ok_report _ report' (ap (λ p. p.0) h)))
  removed-ok report report' (some e, v) w' h = absurd (err_ok (ap (λ p. p.0) h))

  purged :
      (root : FilePath) (project : String) (w w' : f.State) (report : PurgeReport)
      → purge_project f root project w ≡ (ok report, w')
      → Purges f root project w w' report
  unfolding purge_project plan_purge
  purged root project w w' report h = elim (Result-cases (plan_purge f root project w)) [
    | inr (x, e) ↦ absurd (err_ok (ap (λ p. p.0) (rw (purge_project, e) at h)))
    | inl (planned, e) ↦
        let (path, h1, resolved) = >>=-first _ (resolve_project_path f root project w) e in
        let (counts, h2, counted) = >>=-first _ (inspect_directory f path w) h1 in
        let (segment, there, (base, below, rooted, placed, parts)) =
          resolve_project_path-Resolves root project w path resolved in
        let (removal, reported) =
          removed-ok planned report (f.remove_dir_all planned.path w) w'
            (rw (purge_project, e) at h) in
        let plan = ok_report _ planned h2 in
        let at_path : planned.path ≡ base ++ below = ap (λ r. r.path) (sym plan) ∙ parts in
        record {
          segment = segment;
          there = there;
          base = base;
          below = below;
          root_path = rooted;
          project_path = placed ∙ ap ok parts;
          counts = counts;
          counted = ap (λ p. inspect_directory f p w) (sym parts) ∙ counted;
          removal = ap (λ p. f.remove_dir_all p w) (sym at_path) ∙ removal;
          reported =
              reported
              ∙ ap {A = PurgeReport} (λ r. record r { deleted = true }) (sym plan)
              ∙ ap (λ q. report_of project q counts true) parts;
        }
  ]

  purge :
      (root : FilePath) (project : String) (w w' : f.State) (report : PurgeReport)
      → Purges f root project w w' report
      → purge_project f root project w ≡ (ok report, w')
  unfolding purge_project plan_purge
  purge root project w w' report p =
      let resolved =
        Resolves-resolve_project_path root project w p.base p.below p.segment p.there p.root_path
          p.project_path in
      let planned : plan_purge f root project w
          ≡ ok (report_of project (p.base ++ p.below) p.counts false) =
        rw (resolved, p.counted) refl in
      rw (purge_project, planned, p.removal, p.reported) refl

-- A project is purged, with the report that is returned, exactly if its name is one segment that is not hidden, it is
-- there, its canonical path begins with the root's, its tree can be counted, and its canonical path can be removed:
-- which is then what has been removed. The canonical path may be that of the root itself, or of another project.
pub purge_project-Purges :
    (f : Files) (root : FilePath) (project : String) (w w' : f.State) (report : PurgeReport)
    → (purge_project f root project w ≡ (ok report, w')) ↔ Purges f root project w w' report
purge_project-Purges f root project w w' report =
    (purged f root project w w' report, purge f root project w w' report)
