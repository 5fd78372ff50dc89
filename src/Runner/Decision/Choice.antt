-- ===== src/Runner/Decision/Choice.antt =====
-- Which block of a reply becomes the decision. `from_str` is serde_json's decoder for a decision.
use kuromaku.Prelude.{
  ◌≡◌, refl, sym, ap, ◌∙◌, inl, inr, Option, none, some, List, [], ◌∷◌, ◌++◌, append_assoc, All,
  All-append, List-cases, subst, ◌==◌, false,
}
use mathlib.Core.List.{reverse, reverse-append}
use kuromaku.Prelude.Result.{Result, ok, err, Result-cases}
use kuromaku.Runner.Decision.{
  Bytes, open_brace, close_brace, AgentDecision, DecisionParseError, no_json_object, invalid_json,
  top_level_json_objects, try_candidates, parse_agent_decision,
}
use kuromaku.Runner.Decision.Grammar.{
  Body, Prose, block, whole, braces, top_level-Prose, Prose-append, Prose-plain,
}

module _ {E : Type 0} (from_str : Bytes → Result E AgentDecision) where
  abbrev pub Fails : Bytes → Type 0
  Fails c = (e : E) × (from_str c ≡ err e)

  try_decodes :
      (cs : List Bytes) (c : Bytes) (more : List Bytes) (last : Option E) {d : AgentDecision}
      → All Fails cs
      → from_str c ≡ ok d
      → try_candidates from_str (cs ++ c ∷ more) last ≡ some (ok d)
  unfolding try_candidates
  try_decodes [] c more last fails decoded = rw (decoded, try_candidates)
  try_decodes (x ∷ xs) c more last ((e, failed), fails) decoded =
      rw (failed, try_candidates) (try_decodes xs c more (some e) fails decoded)

  try-Fails :
      (cs : List Bytes) (c : Bytes) (last : Option E) {e : E}
      → All Fails cs
      → from_str c ≡ err e
      → try_candidates from_str (cs ++ c ∷ []) last ≡ some (err (invalid_json e))
  unfolding try_candidates
  try-Fails [] c last fails failed = rw (failed, try_candidates)
  try-Fails (x ∷ xs) c last ((e', failed'), fails) failed =
      rw (failed', try_candidates) (try-Fails xs c (some e') fails failed)

  All-reverse : (cs : List Bytes) → All Fails cs → All Fails (reverse cs)
  All-reverse [] h = h
  All-reverse (c ∷ cs) h =
      subst (All Fails) (sym (reverse-append (c ∷ []) cs))
        (All-append Fails (reverse cs) (c ∷ []) (All-reverse cs h.1) (h.0, tt))

  reverse-split :
      (pre : List Bytes) (c : Bytes) (post : List Bytes)
      → reverse (pre ++ c ∷ post) ≡ reverse post ++ c ∷ reverse pre
  reverse-split pre c post =
      reverse-append pre (c ∷ post)
      ∙ ap (λ l. l ++ reverse pre) (reverse-append (c ∷ []) post)
      ∙ append_assoc (reverse post) (c ∷ []) (reverse pre)

  -- With at least one block, the reply is read by the loop from the end.
  parse_candidates :
      (raw : Bytes) (pre : List Bytes) (c : Bytes) (post : List Bytes)
      → top_level_json_objects raw ≡ pre ++ c ∷ post
      → parse_agent_decision from_str raw
        ≡ try_candidates from_str (reverse post ++ c ∷ reverse pre) none
  unfolding parse_agent_decision
  parse_candidates raw [] c post e =
      rw (e, parse_agent_decision)
        (ap (λ l. try_candidates from_str l none) (reverse-split [] c post))
  parse_candidates raw (x ∷ pre) c post e =
      rw (e, parse_agent_decision)
        (ap (λ l. try_candidates from_str l none) (reverse-split (x ∷ pre) c post))

  -- The decision is that of the last block which decodes: a block that decodes, all blocks behind
  -- which fail to, decides the reply, whatever stands before it.
  pub parse-last :
      (raw : Bytes) (pre : List Bytes) (c : Bytes) (post : List Bytes) (d : AgentDecision)
      → top_level_json_objects raw ≡ pre ++ c ∷ post
      → All Fails post
      → from_str c ≡ ok d
      → parse_agent_decision from_str raw ≡ some (ok d)
  parse-last raw pre c post d e fails decoded =
      parse_candidates raw pre c post e
      ∙ try_decodes (reverse post) c (reverse pre) none (All-reverse post fails) decoded

  -- If no block decodes, the reported error is that of the first block of the reply.
  pub parse_error-first :
      (raw : Bytes) (c : Bytes) (post : List Bytes) (e : E)
      → top_level_json_objects raw ≡ c ∷ post
      → All Fails post
      → from_str c ≡ err e
      → parse_agent_decision from_str raw ≡ some (err (invalid_json e))
  parse_error-first raw c post e h fails failed =
      parse_candidates raw [] c post h
      ∙ try-Fails (reverse post) c none (All-reverse post fails) failed

  -- A reply of prose, which may hold other blocks, then a block that decodes to `d`, then no further
  -- open brace, is read as `d`: the form that the prompt asks for.
  pub parse_reply :
      (p b tail : Bytes) (bs : List Bytes) (d : AgentDecision)
      → Prose p bs
      → Body b
      → All (λ c. (c == open_brace) ≡ false) tail
      → from_str (braces b) ≡ ok d
      → parse_agent_decision from_str (p ++ (open_brace ∷ b ++ (close_brace ∷ tail))) ≡ some (ok d)
  parse_reply p b tail bs d prose body rest decoded =
      parse-last _ bs (braces b) [] d
        ((top_level-Prose (Prose-append prose (block body (Prose-plain tail rest))) (whole body)).0)
        tt decoded

  try_total :
      (cs : List Bytes) (last : E)
      → (r : Result (DecisionParseError E) AgentDecision) × (try_candidates from_str cs (some last)
          ≡ some r)
  unfolding try_candidates
  try_total [] last = (err (invalid_json last), refl)
  try_total (c ∷ cs) last = elim (Result-cases (from_str c)) [
    | inl (d, e) ↦ (ok d, rw (e, try_candidates) refl)
    | inr (x, e) ↦ let (r, h) = try_total cs x in (r, rw (e, try_candidates) h)
  ]

  try_total_cons :
      (cs : List Bytes) (c : Bytes)
      → (r : Result (DecisionParseError E) AgentDecision) × (try_candidates from_str
            (cs ++ c ∷ [])
            none
          ≡ some r)
  unfolding try_candidates
  try_total_cons [] c = elim (Result-cases (from_str c)) [
    | inl (d, e) ↦ (ok d, rw (e, try_candidates) refl)
    | inr (x, e) ↦ (err (invalid_json x), rw (e, try_candidates) refl)
  ]
  try_total_cons (b ∷ cs) c = elim (Result-cases (from_str b)) [
    | inl (d, e) ↦ (ok d, rw (e, try_candidates) refl)
    | inr (x, e) ↦ let (r, h) = try_total (cs ++ c ∷ []) x in (r, rw (e, try_candidates) h)
  ]

  -- The `expect` behind the loop is never reached: every reply gives a decision or an error.
  pub parse_total :
      (raw : Bytes)
      → (r : Result (DecisionParseError E) AgentDecision) × (parse_agent_decision from_str raw
          ≡ some r)
  parse_total raw = elim (List-cases (top_level_json_objects raw)) [
    | inl e ↦ (err no_json_object, unfold parse_agent_decision in rw (e, parse_agent_decision) refl)
    | inr (c, post, e) ↦
        let (r, h) = try_total_cons (reverse post) c in (r, parse_candidates raw [] c post e ∙ h)
  ]
