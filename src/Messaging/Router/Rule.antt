-- ===== src/Messaging/Router/Rule.antt =====
-- What holds of a conversation: a rule for its loop, and the log that a broadcast adds to.
use kuromaku.Prelude.{
  String, ◌≡◌, refl, ◌⊎◌, inl, inr, Option, none, some, List, [], ◌∷◌, All, Bool-cases,
}
use kuromaku.Messaging.Router.{
  Router, Event, TerminationReason, LogEntry, Transports, Conversation, Round, next, stop, offered,
  on_event, handle, converse, opened, closed, run,
}

module _ (t : Transports) (r : Router) where
  -- `P` of the variables that a round goes on with, `Q` of those that it stops with.
  abbrev pub Post :
      (Conversation t → Type 0) → (TerminationReason → Conversation t → Type 0) → Round t → Type 0
  Post P Q (next c) = P c
  Post P Q (stop reason c) = Q reason c

  abbrev pub Result :
      (Conversation t → Type 0)
      → (TerminationReason → Conversation t → Type 0)
      → Option TerminationReason × Conversation t
      → Type 0
  Result P Q (none, c) = P c
  Result P Q (some reason, c) = Q reason c

  Round-cases :
      (round : Round t)
      → ((c : Conversation t) × (round ≡ next c))
        ⊎ ((reason : TerminationReason) × (c : Conversation t) × (round ≡ stop reason c))
  Round-cases (next c) = inl (c, refl)
  Round-cases (stop reason c) = inr (reason, c, refl)

  handle-Post :
      (P : Conversation t → Type 0) (Q : TerminationReason → Conversation t → Type 0) (e : Event)
      (c : Conversation t)
      → P c
      → Post P Q (on_event t r e c)
      → Post P Q (handle t r e c)
  unfolding handle
  handle-Post P Q e c p h = elim (Bool-cases (offered r e)) [
    | inl o ↦ rw (o, handle) h
    | inr o ↦ rw (o, handle) p
  ]

  -- What each event keeps, while the conversation goes on and where it ends, holds of its end.
  pub converse_rule :
      (P : Conversation t → Type 0) (Q : TerminationReason → Conversation t → Type 0)
      → (Fine : Event → Type 0)
      → ((e : Event) (c : Conversation t) → Fine e → P c → Post P Q (on_event t r e c))
      → (es : List Event) (c : Conversation t) → All Fine es
      → P c
      → Result P Q (converse t r es c)
  unfolding converse
  converse_rule P Q Fine keep [] c fine p = p
  converse_rule P Q Fine keep (e ∷ es) c fine p =
      let h = handle-Post P Q e c p (keep e c fine.0 p) in
      elim (Round-cases (handle t r e c)) [
        | inl (c', same) ↦
            rw (same, converse) (converse_rule P Q Fine keep es c' fine.1 (rw same at h))
        | inr (reason, c', same) ↦ rw (same, converse) (rw same at h)
      ]

  close_rule :
      (P : Conversation t → Type 0) (Q : TerminationReason → Conversation t → Type 0)
      (R : Option TerminationReason → List LogEntry → Type 0)
      → ((c : Conversation t) → P c → R none c.links.0)
      → ((reason : TerminationReason) (c : Conversation t)
          → Q reason c
          → R (some reason) (closed t (some reason) c.links.0))
      → (out : Option TerminationReason × Conversation t) → Result P Q out
      → R out.0 (closed t out.0 out.1.links.0)
  close_rule P Q R waits ends (none, c) h = waits c h
  close_rule P Q R waits ends (some reason, c) h = ends reason c h

  -- The rule for a whole conversation, with the entry that closes the log.
  pub run_rule :
      (P : Conversation t → Type 0) (Q : TerminationReason → Conversation t → Type 0)
      (Fine : Event → Type 0) (R : Option TerminationReason → List LogEntry → Type 0)
      → ((e : Event) (c : Conversation t) → Fine e → P c → Post P Q (on_event t r e c))
      → ((c : Conversation t) → P c → R none c.links.0)
      → ((reason : TerminationReason) (c : Conversation t)
          → Q reason c
          → R (some reason) (closed t (some reason) c.links.0))
      → (prompt : Option String) (es : List Event) (state : t.State) → All Fine es
      → P (opened t r prompt state)
      → R (run t r prompt es state).0 (run t r prompt es state).1
  unfolding run
  run_rule P Q Fine R keep waits ends prompt es state fine p =
      close_rule P Q R waits ends (converse t r es (opened t r prompt state))
        (converse_rule P Q Fine keep es (opened t r prompt state) fine p)
