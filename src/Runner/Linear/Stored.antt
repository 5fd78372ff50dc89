-- ===== src/Runner/Linear/Stored.antt =====
-- What read_inputs of src/runner/mod.rs reads from the disk.
use kuromaku.Prelude.{
  ℕ, String, ◌≡◌, ◌↔◌, refl, sym, ap, ◌∙◌, All-Member, Bool-cases, str_eq, inl, inr, true, some,
  List, [], ◌∷◌, All, Member, find, find-hit, find-Member, Option-cases, str_eq_iff,
}
use kuromaku.Prelude.Result.{ok}
use kuromaku.Runner.Graph.Model.{StepRunResult, StoredStep, Disk, World}
use kuromaku.Runner.Graph.Disk.{is_meta_of, step_meta_filename, content_at, read_run_step_content}
use kuromaku.Runner.Graph.Disk.Reading.{Readable, read_step-ok}
use kuromaku.Runner.Graph.Disk.Names.{is_meta_of-step_meta_filename}
use kuromaku.Runner.Linear.Steps.{context_part, read_inputs}

abbrev pub disk_ids : Disk → List String
disk_ids [] = []
disk_ids (t ∷ ts) = t.entry.step_id ∷ disk_ids ts

abbrev pub numbers : Disk → List ℕ
numbers [] = []
numbers (t ∷ ts) = t.number ∷ numbers ts

abbrev pub result_ids : List StepRunResult → List String
result_ids [] = []
result_ids (r ∷ rs) = r.step_id ∷ result_ids rs

-- The directory lists the files that are there, in some order.
abbrev pub ListsAll : World → Type 0
ListsAll w =
    (t : StoredStep) (disk : Disk) (env : w.State) → Member t (w.listing disk env) ↔ Member t disk

disk_ids-Member :
    (k : String) (disk : Disk)
    → Member k (disk_ids disk)
    → (t : StoredStep) × Member t disk × (t.entry.step_id ≡ k)
disk_ids-Member k [] m = absurd m
disk_ids-Member k (t ∷ ts) (inl e) = (t, inl refl, sym e)
disk_ids-Member k (t ∷ ts) (inr m) = let (u, n, e) = disk_ids-Member k ts m in (u, inr n, e)

-- YAML gives the records of the disk back.
abbrev pub Restored : (w : World) → Disk → Type 0
Restored w disk = All (λ (t : StoredStep). w.reread t.entry ≡ ok t.entry) disk

-- A stored step of the id, and what its output file holds.
abbrev pub Holds : Disk → (id content : String) → Type 0
Holds disk id content =
    (t : StoredStep) × Member t disk
    × (t.entry.step_id ≡ id)
    × (content_at t.entry.output_file disk ≡ some content)

-- The parts of a prompt are what stored steps with the inputs' ids hold, one for one.
abbrev pub Carries : Disk → List String → List String → Type 0
Carries disk [] [] = Unit
Carries disk (i ∷ is) (p ∷ ps) =
    ((content : String) × Holds disk i content × (p ≡ context_part i content)) × Carries disk is ps
Carries disk [] (p ∷ ps) = ⊥
Carries disk (i ∷ is) [] = ⊥

content_at-Member :
    (t : StoredStep) (disk : Disk)
    → Member t disk
    → (content : String) × (content_at t.entry.output_file disk ≡ some content)
unfolding content_at
content_at-Member t [] m = absurd m
content_at-Member t (x ∷ xs) (inl e) =
    let named = ap (λ (y : StoredStep). y.entry.output_file) e in
    (x.content, rw ((str_eq_iff t.entry.output_file x.entry.output_file).1 named) refl)
content_at-Member t (x ∷ xs) (inr m) =
    elim (Bool-cases (str_eq t.entry.output_file x.entry.output_file)) [
      | inl e ↦ (x.content, rw e refl)
      | inr e ↦ let (content, there) = content_at-Member t xs m in (content, rw e there)
    ]

module _ (w : World) (lists : ListsAll w) where
  -- The reader finds a meta file of the id.
  pub found-stored :
      (disk : Disk) (id : String) (env : w.State)
      → Member id (disk_ids disk)
      → (u : StoredStep) × Member u disk
        × (u.entry.step_id ≡ id)
        × (find
              (λ s. is_meta_of id (step_meta_filename s.number s.entry.step_id))
              (w.listing disk env)
            ≡ some u)
  found-stored disk id env m =
      let (t, n, same) = disk_ids-Member id disk m in
      let test = λ (s : StoredStep). is_meta_of id (step_meta_filename s.number s.entry.step_id) in
      let hit : test t ≡ true =
        is_meta_of-step_meta_filename t.number t.entry.step_id id
        ∙ (str_eq_iff t.entry.step_id id).1 same in
      elim (Option-cases (find test (w.listing disk env))) [
        | inl lost ↦ absurd (find-hit test t (w.listing disk env) ((lists t disk env).1 n) hit lost)
        | inr (u, found) ↦
            let (k, is_u) = find-Member test (w.listing disk env) found in
            (
              u,
              (lists u disk env).0 k,
              (str_eq_iff u.entry.step_id id).0
                  (sym (is_meta_of-step_meta_filename u.number u.entry.step_id id) ∙ is_u),
              found,
            )
      ]

  module _ (env : w.State) (readable : Readable w env) where
    read-stored :
        (disk : Disk) (id : String)
        → Restored w disk
        → Member id (disk_ids disk)
        → (content : String) × Holds disk id content
          × (read_run_step_content w disk id env ≡ ok content)
    unfolding read_run_step_content
    read-stored disk id restored m =
        let (u, k, same, found) = found-stored disk id env m in
        let (content, there) = content_at-Member u disk k in
        (
          content,
          (u, k, same, there),
          rw (read_run_step_content, readable.0, found)
              (read_step-ok w u disk content env readable.1
                (All-Member (λ (t : StoredStep). w.reread t.entry ≡ ok t.entry) disk restored k)
                there),
        )

    pub read_inputs-Carries :
        (disk : Disk) (step : String) (inputs : List String)
        → Restored w disk
        → All (λ i. Member i (disk_ids disk)) inputs
        → (parts : List String) × (read_inputs w disk step inputs env ≡ ok parts)
          × Carries disk inputs parts
    unfolding read_inputs
    read_inputs-Carries disk step [] restored h = ([], refl, tt)
    read_inputs-Carries disk step (i ∷ is) restored h =
        let (content, held, read) = read-stored disk i restored h.0 in
        let (parts, rest, c) = read_inputs-Carries disk step is restored h.1 in
        (
          context_part i content ∷ parts,
          rw (read_inputs, read, rest) refl,
          ((content, held, refl), c),
        )
