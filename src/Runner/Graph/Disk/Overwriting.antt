-- ===== src/Runner/Graph/Disk/Overwriting.antt =====
-- What a write of src/stack.rs leaves of the steps that were there.
use kuromaku.Prelude.{
  String, ◌≡◌, refl, ap, subst, ◌≢◌, inl, inr, Bool, true, false, some, [], ◌∷◌, ◌++◌, find, Member,
  ◌==◌, str_eq, str_eq_refl, str_eq_iff, str-cases, Bool-cases, arith,
}
use mathlib.Core.Option.{some-injective}
use kuromaku.Runner.Graph.Model.{StoredStep, Disk}
use kuromaku.Runner.Graph.Disk.{same_files, overwrite, with_output, content_at}

abbrev pub has_id : String → StoredStep → Bool
has_id id t = str_eq t.entry.step_id id

pub overwrite-Member :
    (s t : StoredStep) (disk : Disk)
    → Member t (overwrite s disk)
    → (u : StoredStep) × Member u disk × (same_files s u ≡ false) × (t ≡ with_output s u)
unfolding overwrite
overwrite-Member s t [] m = absurd m
overwrite-Member s t (x ∷ xs) m = elim (Bool-cases (same_files s x)) [
  | inl e ↦ let (u, k, f, of_u) = overwrite-Member s t xs (rw e at m) in (u, inr k, f, of_u)
  | inr e ↦
      let m' : Member t (with_output s x ∷ overwrite s xs) = rw e at m in
      elim m' [
        | inl same ↦ (x, inl refl, e, same)
        | inr n ↦ let (u, k, f, of_u) = overwrite-Member s t xs n in (u, inr k, f, of_u)
      ]
]

-- The output file holds what was written last.
pub content_at-overwrite :
    (s : StoredStep) (disk : Disk)
    → content_at s.entry.output_file (overwrite s disk ++ s ∷ []) ≡ some s.content
unfolding content_at overwrite
content_at-overwrite s [] = rw (str_eq_refl s.entry.output_file) refl
content_at-overwrite s (t ∷ ts) = elim (Bool-cases (same_files s t)) [
  | inl e ↦ rw e (content_at-overwrite s ts)
  | inr e ↦ elim (Bool-cases (str_eq s.entry.output_file t.entry.output_file)) [
    | inl f ↦ rw (e, f) refl
    | inr f ↦ rw (e, f) (content_at-overwrite s ts)
  ]
]

different : (a b : String) → str_eq a b ≡ false → str_eq b a ≡ false
different a b h = elim (str-cases b a) [
  | inl (t, same) ↦ absurd (cc (str_eq_refl a, h, same))
  | inr t ↦ t
]

kept_apart :
    (s x : StoredStep) → str_eq x.entry.step_id s.entry.step_id ≡ false → same_files s x ≡ false
unfolding same_files
kept_apart s x e = let flipped = different x.entry.step_id s.entry.step_id e in ground arith

kept_other : (s x t : StoredStep) → x ≡ t → t.number ≢ s.number → same_files s x ≡ false
unfolding same_files
kept_other s x t first other =
    let apart : (s.number == x.number) ≡ false =
      ground (arith, ap (λ (y : StoredStep). y.number) first) in
    rw apart refl

-- The first step with the id stays the first, where it has another number.
pub kept_first :
    (s t : StoredStep) (disk : Disk)
    → t.number ≢ s.number
    → find (has_id s.entry.step_id) disk ≡ some t
    → find (has_id s.entry.step_id) (overwrite s disk ++ s ∷ []) ≡ some (with_output s t)
unfolding overwrite find
kept_first s t [] other h = cc
kept_first s t (x ∷ xs) other h = elim (Bool-cases (str_eq x.entry.step_id s.entry.step_id)) [
  | inl e ↦
      let first : x ≡ t = some-injective x t (rw e at h) in
      rw (kept_other s x t first other, e) (ap (λ y. some (with_output s y)) first)
  | inr e ↦ let rest = kept_first s t xs other (rw e at h) in rw (kept_apart s x e) (rw e rest)
]

-- So does what its output file holds, where the new step has another one.
pub kept_content :
    (s t : StoredStep) (disk : Disk)
    → t.number ≢ s.number
    → str_eq s.entry.output_file t.entry.output_file ≡ false
    → find (has_id s.entry.step_id) disk ≡ some t
    → content_at t.entry.output_file (overwrite s disk ++ s ∷ [])
      ≡ content_at t.entry.output_file disk
unfolding overwrite find content_at
kept_content s t [] other apart h = cc
kept_content s t (x ∷ xs) other apart h =
    elim (Bool-cases (str_eq x.entry.step_id s.entry.step_id)) [
      | inl e ↦
          let first : x ≡ t = some-injective x t (rw e at h) in
          let its : str_eq t.entry.output_file x.entry.output_file ≡ true =
            rw first (str_eq_refl t.entry.output_file) in
          let not_its : str_eq s.entry.output_file x.entry.output_file ≡ false = rw first apart in
          rw (kept_other s x t first other, its, not_its) refl
      | inr e ↦
          let rest = kept_content s t xs other apart (rw e at h) in
          elim (Bool-cases (str_eq t.entry.output_file x.entry.output_file)) [
            | inl f ↦
                let named = (str_eq_iff t.entry.output_file x.entry.output_file).0 f in
                let not_its : str_eq s.entry.output_file x.entry.output_file ≡ false =
                  subst (λ k. str_eq s.entry.output_file k ≡ false) named apart in
                rw (kept_apart s x e, f, not_its) refl
            | inr f ↦ rw (kept_apart s x e, f) rest
          ]
    ]
