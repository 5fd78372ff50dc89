-- ===== src/Core/Validator/Structure/Shapes.antt =====
-- `validate_state_semantics` accepts exactly the four shapes of a state.
use kuromaku.Prelude.{
  String, ◌≤◌, ◌≡◌, refl, ◌≢◌, ◌⊎◌, inl, inr, true, false, none, some, List, [], ◌∷◌, All, length,
  str_eq, ◌==◌, str_eq_iff, Option-cases, arith,
}
use kuromaku.Prelude.Text.{is_blank}
use kuromaku.Prelude.Result.{ok}
use kuromaku.Core.GraphFlow.{GraphState, SelectEntry}
use kuromaku.Core.Validator.{
  reason_text, check_shell_entries, check_reasons, check_agent, check_shell, check_final,
}
use kuromaku.Core.Validator.Spec.{IsReasoned}

fail-ne-pass : str_eq "fail" "pass" ≡ false
unfolding str_eq
fail-ne-pass = refl

module _ (id : String) where
  abbrev pub Pair : SelectEntry → SelectEntry → Type 0
  Pair a b =
      ((reason_text a ≡ "pass") × (reason_text b ≡ "fail")
        ⊎ (reason_text a ≡ "fail") × (reason_text b ≡ "pass"))
      × (a.target ≢ id)
      × (b.target ≢ id)

  two_entries_sound : (a b : SelectEntry) → check_shell_entries id (a ∷ b ∷ []) ≡ ok tt → Pair a b
  unfolding check_shell_entries
  two_entries_sound a b h = ground (
    arith,
    str_eq_iff (reason_text a) "pass",
    str_eq_iff (reason_text b) "pass",
    str_eq_iff (reason_text a) "fail",
    str_eq_iff (reason_text b) "fail",
    str_eq_iff a.target id,
    str_eq_iff b.target id,
  )

  pub two_entries_complete :
      (a b : SelectEntry) → Pair a b → check_shell_entries id (a ∷ b ∷ []) ≡ ok tt
  unfolding check_shell_entries
  two_entries_complete a b h = ground (
    arith,
    fail-ne-pass,
    str_eq_iff (reason_text a) "pass",
    str_eq_iff (reason_text b) "pass",
    str_eq_iff (reason_text a) "fail",
    str_eq_iff (reason_text b) "fail",
    str_eq_iff a.target id,
    str_eq_iff b.target id,
  )

  entry_count :
      (es : List SelectEntry) → check_shell_entries id es ≡ ok tt → (length es == 2) ≡ true
  unfolding check_shell_entries
  entry_count es h = ground arith

  pub shell_entries_sound :
      (es : List SelectEntry)
      → check_shell_entries id es ≡ ok tt
      → (a : SelectEntry) × (b : SelectEntry) × (es ≡ a ∷ b ∷ []) × Pair a b
  shell_entries_sound (a ∷ b ∷ []) h = (a, b, refl, two_entries_sound a b h)
  shell_entries_sound [] h = absurd (ground (arith, entry_count [] h))
  shell_entries_sound (a ∷ []) h = absurd (ground (arith, entry_count (a ∷ []) h))
  shell_entries_sound (a ∷ b ∷ c ∷ es) h = absurd (ground (arith, entry_count (a ∷ b ∷ c ∷ es) h))

  pub check_shell_sound :
      (s : GraphState)
      → check_shell id s ≡ ok tt
      → (c : String) × (s.run ≡ some c)
        × (is_blank c ≡ false)
        × (s.role ≡ none)
        × (s.task ≡ none)
        × (s.task_file ≡ none)
        × (es : List SelectEntry) × (s.select ≡ some es)
        × (check_shell_entries id es ≡ ok tt)
  unfolding check_shell
  check_shell_sound s h = elim (Option-cases s.run) [
    | inl e ↦ absurd (ground arith)
    | inr (c, runs) ↦ elim (Option-cases s.select) [
      | inl e ↦ absurd (ground arith)
      | inr (es, listed) ↦ (
        c,
        runs,
        ground arith,
        ground arith,
        ground arith,
        ground arith,
        es,
        listed,
        ground arith,
      )
    ]
  ]

  pub check_shell_complete :
      (s : GraphState) (c : String) (es : List SelectEntry)
      → s.run ≡ some c
      → is_blank c ≡ false
      → s.role ≡ none
      → s.task ≡ none
      → s.task_file ≡ none
      → s.select ≡ some es
      → check_shell_entries id es ≡ ok tt
      → check_shell id s ≡ ok tt
  unfolding check_shell
  check_shell_complete s c es runs shown no_role no_task no_file listed entries =
      rw (runs, no_role, no_task, no_file, listed, check_shell, shown) entries

  pub check_final_sound :
      (s : GraphState)
      → check_final id s ≡ ok tt
      → (d : String) × (s.final_desc ≡ some d)
        × (is_blank d ≡ false)
        × (s.role ≡ none)
        × (s.task ≡ none)
        × (s.select ≡ none)
  unfolding check_final
  check_final_sound s h = elim (Option-cases s.final_desc) [
    | inl e ↦ absurd (ground arith)
    | inr (d, ends) ↦ (d, ends, ground arith, ground arith, ground arith, ground arith)
  ]

  pub check_final_complete :
      (s : GraphState) (d : String)
      → s.final_desc ≡ some d
      → is_blank d ≡ false
      → s.role ≡ none
      → s.task ≡ none
      → s.select ≡ none
      → check_final id s ≡ ok tt
  unfolding check_final
  check_final_complete s d ends described no_role no_task no_next = ground arith

  check_reasons_sound : (es : List SelectEntry) → check_reasons id es ≡ ok tt → All IsReasoned es
  unfolding check_reasons
  check_reasons_sound [] h = tt
  check_reasons_sound (e ∷ es) h = elim (Option-cases e.reason) [
    | inl bare ↦ absurd (ground arith)
    | inr (r, given) ↦ ((r, given, ground arith), check_reasons_sound es (ground arith))
  ]

  check_reasons_complete : (es : List SelectEntry) → All IsReasoned es → check_reasons id es ≡ ok tt
  unfolding check_reasons
  check_reasons_complete [] h = refl
  check_reasons_complete (e ∷ es) ((r, given, shown), h) =
      rw (given, check_reasons, shown) (check_reasons_complete es h)

  pub check_agent_sound :
      (s : GraphState)
      → check_agent id s ≡ ok tt
      → (s.select ≡ none)
        ⊎ ((es : List SelectEntry) × (s.select ≡ some es) × (2 ≤ length es) × All IsReasoned es)
  unfolding check_agent
  check_agent_sound s h = elim (Option-cases s.select) [
    | inl e ↦ inl e
    | inr (es, listed) ↦ inr (es, listed, ground arith, check_reasons_sound es (ground arith))
  ]

  pub check_agent_complete :
      (s : GraphState)
      → (s.select ≡ none)
        ⊎ ((es : List SelectEntry) × (s.select ≡ some es) × (2 ≤ length es) × All IsReasoned es)
      → check_agent id s ≡ ok tt
  unfolding check_agent
  check_agent_complete s (inl e) = ground arith
  check_agent_complete s (inr (es, listed, two, reasoned)) =
      ground (arith, check_reasons_complete es reasoned)
