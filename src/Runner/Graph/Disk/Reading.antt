-- ===== src/Runner/Graph/Disk/Reading.antt =====
-- Which step the reader of src/stack.rs finds.
use kuromaku.Prelude.{
  none, ◌∙◌, String, ◌≡◌, refl, sym, ap, ◌≢◌, ◌↔◌, inl, inr, true, false, some, [], ◌∷◌, ◌++◌, find,
  Member, Member-append_right, Member-append_cases, find-Member, find-hit, All, All-Member, str_eq,
  str_eq_refl, str_eq_iff, str-cases, Option-cases, arith,
}
use kuromaku.Prelude.Result.{Result, ok, err}
use kuromaku.Runner.Graph.Model.{StoredStep, Disk, StackError, read_failed, World}
use kuromaku.Runner.Graph.Disk.Names.{is_meta_of-step_meta_filename}
use kuromaku.Runner.Graph.Disk.{
  same_files, overwrite, write_run_step, read_run_step_content, with_output, content_at,
  read_output, read_step, read_found, step_meta_filename,
}
use kuromaku.Runner.Graph.Disk.Overwriting.{
  has_id, overwrite-Member, content_at-overwrite, kept_first, kept_content,
}

-- Which step is read can be told by the ids alone.
read-by_id :
    (w : World) (disk : Disk) (id : String) (env : w.State)
    → read_run_step_content w disk id env ≡ elim (w.read_dir_error env) [
      | some e ↦ err (read_failed e)
      | none ↦ read_found w disk id env (find (has_id id) (w.listing disk env))
    ]
unfolding read_run_step_content
read-by_id w disk id env =
    ap
      (λ p. elim (w.read_dir_error env) as (λ o. Result StackError String) [
        | some e ↦ err (read_failed e)
        | none ↦ read_found w disk id env (find p (w.listing disk env))
      ])
      (λ i s. is_meta_of-step_meta_filename s.number s.entry.step_id id i)

-- Every listed step with the id of `s` is one that writing `s` replaces.
abbrev pub ReplacedBy : StoredStep → StoredStep → Type 0
ReplacedBy s t = t.entry.step_id ≡ s.entry.step_id → t.number ≡ s.number

-- The directory and its files can be read.
abbrev pub Readable : (w : World) → w.State → Type 0
Readable w env = (w.read_dir_error env ≡ none) × ((file : String) → w.read_error file env ≡ none)

replaced :
    (s t : StoredStep) → ReplacedBy s t → t.entry.step_id ≡ s.entry.step_id → same_files s t ≡ true
unfolding same_files
replaced s t h e = rw (h e, e, str_eq_refl s.entry.step_id) (ground arith)

only_one :
    (s t : StoredStep) (disk : Disk)
    → All (ReplacedBy s) disk
    → Member t (overwrite s disk ++ s ∷ [])
    → t.entry.step_id ≡ s.entry.step_id
    → t ≡ s
only_one s t disk h m e = elim (Member-append_cases t (overwrite s disk) (s ∷ []) m) [
  | inl k ↦
      let (u, n, f, of_u) = overwrite-Member s t disk k in
      let named : u.entry.step_id ≡ s.entry.step_id =
        ap (λ (x : StoredStep). x.entry.step_id) (sym of_u) ∙ e in
      absurd (cc (replaced s u (All-Member (ReplacedBy s) disk h n) named, f))
  | inr (inl same) ↦ same
  | inr (inr bad) ↦ absurd bad
]

pub read_step-ok :
    (w : World) (s : StoredStep) (disk : Disk) (content : String) (env : w.State)
    → ((file : String) → w.read_error file env ≡ none)
    → w.reread s.entry ≡ ok s.entry
    → content_at s.entry.output_file disk ≡ some content
    → read_step w disk s env ≡ ok content
unfolding read_step read_output
read_step-ok w s disk content env reads restored there =
    rw
      (
        read_step,
        reads (step_meta_filename s.number s.entry.step_id),
        restored,
        read_output,
        reads s.entry.output_file,
        there,
      )
      refl

written-overwrite :
    (w : World) (s : StoredStep) (disk disk' : Disk) (env : w.State)
    → write_run_step w s disk env ≡ ok disk'
    → disk' ≡ overwrite s disk ++ s ∷ []
unfolding write_run_step
written-overwrite w s disk disk' env written = ground arith

-- A step that has been written is read back by its id, in whatever order the directory lists its
-- files, where the steps that were there with that id had its number too, the directory and its files
-- can be read, and YAML gives the step's record back. Whatever else is on the disk may name the same
-- output file.
pub read-write :
    (w : World) (s : StoredStep) (disk disk' : Disk) (env : w.State)
    → All (ReplacedBy s) disk
    → ((t : StoredStep) → Member t (w.listing disk' env) ↔ Member t disk')
    → Readable w env
    → w.reread s.entry ≡ ok s.entry
    → write_run_step w s disk env ≡ ok disk'
    → read_run_step_content w disk' s.entry.step_id env ≡ ok s.content
read-write w s disk disk' env h lists (listed, reads) restored written =
    let wrote = written-overwrite w s disk disk' env written in
    let there : Member s disk' =
      rw wrote (Member-append_right s (overwrite s disk) (s ∷ []) (inl refl)) in
    let holds : content_at s.entry.output_file disk' ≡ some s.content =
      rw wrote (content_at-overwrite s disk) in
    elim (Option-cases (find (has_id s.entry.step_id) (w.listing disk' env))) [
      | inl lost ↦ absurd (
          find-hit (has_id s.entry.step_id) s (w.listing disk' env) ((lists s).1 there)
            (str_eq_refl s.entry.step_id) lost)
      | inr (t, found) ↦
          let (m, same) = find-Member (has_id s.entry.step_id) (w.listing disk' env) found in
          let one : t ≡ s =
            only_one s t disk h (rw wrote at ((lists t).0 m))
              ((str_eq_iff t.entry.step_id s.entry.step_id).0 same) in
          read-by_id w disk' s.entry.step_id env
          ∙ rw (listed, found)
              (ap (λ x. read_step w disk' x env) one
                ∙ read_step-ok w s disk' s.content env reads restored holds)
    ]

read_step-same :
    (w : World) (s t : StoredStep) (disk disk' : Disk) (env : w.State)
    → w.reread t.entry ≡ ok t.entry
    → content_at t.entry.output_file disk' ≡ content_at t.entry.output_file disk
    → read_step w disk' (with_output s t) env ≡ read_step w disk t env
unfolding read_step read_output
read_step-same w s t disk disk' env restored same =
    elim (Option-cases (w.read_error (step_meta_filename t.number t.entry.step_id) env)) [
      | inr (x, e) ↦ rw (read_step, e) refl
      | inl e ↦ elim (Option-cases (w.read_error t.entry.output_file env)) [
        | inr (x, f) ↦ rw (read_step, e, restored, read_output, f) refl
        | inl f ↦ rw (read_step, e, restored, read_output, f, same) refl
      ]
    ]

-- Where a state is visited again, under another number and with another output file than the first
-- visit that is on the disk, the directory lists its files in the order in which they were written, and
-- YAML gives the record of that visit back, the reader gives what it gave before the write: it finds
-- the earlier visit, not the step that was just written.
pub read-write_stale :
    (w : World) (s t : StoredStep) (disk disk' : Disk) (env : w.State)
    → ((d : Disk) → w.listing d env ≡ d)
    → w.reread t.entry ≡ ok t.entry
    → find (λ x. str_eq x.entry.step_id s.entry.step_id) disk ≡ some t
    → t.number ≢ s.number
    → t.entry.output_file ≢ s.entry.output_file
    → write_run_step w s disk env ≡ ok disk'
    → read_run_step_content w disk' s.entry.step_id env
      ≡ read_run_step_content w disk s.entry.step_id env
read-write_stale w s t disk disk' env lists restored first other apart written =
    let wrote = written-overwrite w s disk disk' env written in
    let others : str_eq s.entry.output_file t.entry.output_file ≡ false =
      elim (str-cases s.entry.output_file t.entry.output_file) [
        | inl (e, named) ↦ absurd (apart (sym named))
        | inr f ↦ f
      ] in
    let same : read_step w disk' (with_output s t) env ≡ read_step w disk t env =
      read_step-same w s t disk disk' env restored
        (rw wrote (kept_content s t disk other others first)) in
    read-by_id w disk' s.entry.step_id env ∙ elim (Option-cases (w.read_dir_error env)) [
      | inr (x, e) ↦ rw e (sym (read-by_id w disk s.entry.step_id env ∙ rw e refl))
      | inl e ↦
          rw (e, lists disk', wrote, kept_first s t disk other first)
            (rw wrote at same
              ∙ sym (read-by_id w disk s.entry.step_id env ∙ rw (e, lists disk, first) refl))
    ]
