-- ===== src/Core/Validator/Structure/Targets.antt =====
-- `check_targets` accepts exactly the lists of known, distinct targets.
use kuromaku.Prelude.{
  String, ◌≡◌, refl, sym, ◌↔◌, inl, inr, List, [], ◌∷◌, Assoc, keys, Member, Distinct, contains,
  contains-Member, Member-contains, not-contains, Bool-cases,
}
use kuromaku.Prelude.Result.{ok}
use kuromaku.Core.GraphFlow.{GraphState, SelectEntry}
use kuromaku.Core.Validator.{check_targets}
use kuromaku.Core.Validator.Spec.{targets, Known, Fresh}

Fresh-cons :
    (t : String) (seen : List String) (es : List SelectEntry)
    → Fresh (t ∷ seen) es
    → (¬ Member t (targets es)) × Fresh seen es
Fresh-cons t seen [] h = (λ m. m, tt)
Fresh-cons t seen (e ∷ es) h =
    let (absent, fresh) = Fresh-cons t seen es h.1 in
    (
      λ m. elim m [ inl here ↦ h.0 (inl (sym here)) | inr later ↦ absent later ],
      (λ m. h.0 (inr m), fresh),
    )

cons-Fresh :
    (t : String) (seen : List String) (es : List SelectEntry)
    → ¬ Member t (targets es)
    → Fresh seen es
    → Fresh (t ∷ seen) es
cons-Fresh t seen [] absent h = tt
cons-Fresh t seen (e ∷ es) absent h = (
  λ m. elim m [ inl here ↦ absent (inl (sym here)) | inr old ↦ h.0 old ],
  cons-Fresh t seen es (λ m. absent (inr m)) h.1,
)

Fresh-nil : (es : List SelectEntry) → Fresh [] es
Fresh-nil [] = tt
Fresh-nil (e ∷ es) = (λ m. m, Fresh-nil es)

module _ (states : Assoc GraphState) (id : String) where
  check_targets_sound :
      (seen : List String) (es : List SelectEntry)
      → check_targets states id seen es ≡ ok tt
      → Known states es × Fresh seen es × Distinct (targets es)
  unfolding check_targets
  check_targets_sound seen [] h = (tt, tt, tt)
  check_targets_sound seen (e ∷ es) h = elim (Bool-cases (contains e.target (keys states))) [
    | inr unknown ↦ cc (rw unknown at h)
    | inl known ↦ elim (Bool-cases (contains e.target seen)) [
      | inl old ↦ cc (rw (known, old) at h)
      | inr new ↦
          let (ks, fresh, distinct) =
            check_targets_sound (e.target ∷ seen) es (rw (known, new) at h) in
          let (absent, fresh') = Fresh-cons e.target seen es fresh in
          (
            (contains-Member e.target (keys states) known, ks),
            (not-contains e.target seen new, fresh'),
            (absent, distinct),
          )
    ]
  ]

  check_targets_complete :
      (seen : List String) (es : List SelectEntry)
      → Known states es
      → Fresh seen es
      → Distinct (targets es)
      → check_targets states id seen es ≡ ok tt
  unfolding check_targets
  check_targets_complete seen [] ks fresh distinct = refl
  check_targets_complete seen (e ∷ es) ks fresh distinct =
      elim (Bool-cases (contains e.target seen)) [
        | inl old ↦ absurd (fresh.0 (contains-Member e.target seen old))
        | inr new ↦
            rw (Member-contains e.target (keys states) ks.0, new)
              (check_targets_complete (e.target ∷ seen) es ks.1
                (cons-Fresh e.target seen es distinct.0 fresh.1) distinct.1)
      ]

  pub check_targets-ok_iff :
      (es : List SelectEntry)
      → (check_targets states id [] es ≡ ok tt) ↔ (Known states es × Distinct (targets es))
  check_targets-ok_iff es = (
    λ h. let (ks, _, distinct) = check_targets_sound [] es h in (ks, distinct),
    λ h. check_targets_complete [] es h.0 (Fresh-nil es) h.1,
  )
