-- ===== src/Messaging/Router/Turns.antt =====
-- How a conversation ends: the cap on the results, and the entry that closes the log.
use kuromaku.Prelude.{
  ℕ, ◌+◌, ◌<◌, String, ◌≡◌, refl, sym, ap, ◌∙◌, subst, ◌≢◌, ◌⊎◌, inl, inr, Bool, true, false,
  Option, none, some, List, [], ◌∷◌, ◌++◌, All, All-append, insert, Bool-cases, leb, ◌==◌,
  if◌then◌else◌, arith,
}
use kuromaku.Messaging.Router.{
  text, tool_use, result, Source, agent, human, router, partial, final, TerminationReason,
  max_turns, LogKind, inbound, termination, LogEntry, Router, Event, elapsed, agents_done,
  agent_said, human_said, human_done, Transports, Conversation, fragment_text, message_kind,
  broadcast, relay_result, relay_fragment, relay_human, on_event, run, opened, logged, converged,
}
use kuromaku.Messaging.Router.Rule.{Post, run_rule}
use kuromaku.Messaging.Router.Log.{IsDelivery, broadcast_log}
use kuromaku.Messaging.Router.Broadcast.{every_event}

abbrev pub is_result_kind : Source → LogKind → Bool
is_result_kind (agent id) (inbound content final) = true
is_result_kind _ _ = false

-- The results of agents in the log.
abbrev pub results_in : List LogEntry → ℕ
results_in [] = 0
results_in (e ∷ es) = (if is_result_kind e.from e.kind then 1 else 0) + results_in es

-- A cap of 0 lets one result pass: it is tested behind the result.
abbrev pub cap : Router → ℕ
cap r = if r.config.max_turns == 0 then 1 else r.config.max_turns

results_in-append : (es fs : List LogEntry) → results_in (es ++ fs) ≡ results_in es + results_in fs
results_in-append [] fs = omega arith
results_in-append (e ∷ es) fs = omega (arith, results_in-append es fs)

delivery-no_result : (e : LogEntry) → IsDelivery e → is_result_kind e.from e.kind ≡ false
delivery-no_result e d = ground (arith, d)

results_in-all : (es : List LogEntry) → All IsDelivery es → results_in es ≡ 0
results_in-all [] h = refl
results_in-all (e ∷ es) h = rw (delivery-no_result e h.0) (omega (arith, results_in-all es h.1))

-- How the results and the reason of a conversation fit together.
abbrev pub IsCapped : Router → Option TerminationReason → List LogEntry → Type 0
IsCapped r reason log =
    (reason ≡ some max_turns) × (results_in log ≡ cap r)
    ⊎ (reason ≢ some max_turns) × (results_in log < cap r)

module _ (t : Transports) (r : Router) where
  abbrev Counts : Conversation t → Type 0
  Counts c = (results_in c.links.0 ≡ c.turn_count) × (c.turn_count < cap r)

  abbrev Stopped : TerminationReason → Conversation t → Type 0
  Stopped reason c = IsCapped r (some reason) c.links.0

  heard :
      (e : LogEntry) (content : String) (except : Option String) (c : Conversation t)
      → results_in (broadcast t r.agents content except (logged t e c).links).0
        ≡ results_in c.links.0 + (if is_result_kind e.from e.kind then 1 else 0)
  heard e content except c =
      let (ds, added, kinds, carried) =
        broadcast_log t r.agents content except (logged t e c).links in
      ap results_in added
      ∙ results_in-append (c.links.0 ++ e ∷ []) ds
      ∙ omega (arith, results_in-append c.links.0 (e ∷ []), results_in-all ds kinds)

  relay_result-Post :
      (content from : String) (c : Conversation t)
      → results_in (broadcast t r.agents content (some from) c.links).0 ≡ c.turn_count + 1
      → c.turn_count < cap r
      → Post t r Counts Stopped (relay_result t r from content c)
  unfolding relay_result
  relay_result-Post content from c h low =
      elim (Bool-cases (leb r.config.max_turns (c.turn_count + 1))) [
        | inl over ↦ rw (over, relay_result) (inl (refl, h ∙ ground (arith, over, low)))
        | inr under ↦
            let few : c.turn_count + 1 < cap r = ground (arith, under) in
            elim (Bool-cases (converged r.agents (insert from content c.last_result))) [
              | inl all ↦ rw (under, relay_result, all) (inr (λ e. cc e, omega arith))
              | inr some_not ↦ rw (under, relay_result, some_not) (h, few)
            ]
      ]

  on_event-Counts :
      (e : Event) (c : Conversation t)
      → Unit {0}
      → Counts c
      → Post t r Counts Stopped (on_event t r e c)
  unfolding on_event relay_fragment relay_human fragment_text message_kind
  on_event-Counts elapsed c u (h, low) = inr (λ e. cc e, omega arith)
  on_event-Counts agents_done c u (h, low) = inr (λ e. cc e, omega arith)
  on_event-Counts human_done c u (h, low) = inr (λ e. cc e, omega arith)
  on_event-Counts (human_said content) c u (h, low) = (
    omega (arith, heard (record { from = human; kind = inbound content final }) content none c),
    low,
  )
  on_event-Counts (agent_said from (text s)) c u (h, low) = (
    omega (
      arith,
      results_in-append c.links.0 (record { from = agent from; kind = inbound s partial } ∷ []),
    ),
    low,
  )
  on_event-Counts (agent_said from (tool_use name)) c u (h, low) =
      (results_in-append c.links.0 _ ∙ omega arith, low)
  on_event-Counts (agent_said from (result s)) c u (h, low) =
      relay_result-Post s from _
        (heard (record { from = agent from; kind = inbound s final }) s (some from) c ∙ omega arith)
        low

  Counts-opened : (prompt : Option String) (state : t.State) → Counts (opened t r prompt state)
  Counts-opened none state = (refl, ground arith)
  Counts-opened (some prompt) state =
      let (ds, added, kinds, carried) = broadcast_log t r.agents prompt none ([], state) in
      (ap results_in added ∙ results_in-all ds kinds, ground arith)

-- A conversation ends for the cap on results exactly when the agents have given as many results as
-- the cap allows, and it never has more. A cap of 0 allows one.
pub run-IsCapped :
    (t : Transports) (r : Router) (prompt : Option String) (es : List Event) (state : t.State)
    → IsCapped r (run t r prompt es state).0 (run t r prompt es state).1
run-IsCapped t r prompt es state =
    run_rule t r (Counts t r) (Stopped t r) (λ e. Unit) (IsCapped r) (on_event-Counts t r)
      (λ c h. inr (λ e. cc e, omega arith))
      (λ reason c h.
        subst
          (λ n.
            (some reason ≡ some max_turns) × (n ≡ cap r)
            ⊎ (some reason ≢ some max_turns) × (n < cap r))
          (sym (results_in-append c.links.0 _ ∙ omega arith)) h)
      prompt es state (every_event es) (Counts-opened t r prompt state)

abbrev is_end_kind : LogKind → Bool
is_end_kind (termination reason) = true
is_end_kind _ = false

abbrev pub GoesOn : LogEntry → Type 0
GoesOn e = is_end_kind e.kind ≡ false

-- A log with a reason ends with the entry for it, which is the only one of its kind.
abbrev pub IsClosed : Option TerminationReason → List LogEntry → Type 0
IsClosed none log = All GoesOn log
IsClosed (some reason) log =
    (front : List LogEntry) × (log
      ≡ front ++ record { from = router; kind = termination reason } ∷ [])
    × All GoesOn front

deliveries-GoesOn : (es : List LogEntry) → All IsDelivery es → All GoesOn es
deliveries-GoesOn [] h = tt
deliveries-GoesOn (e ∷ es) h = (ground (arith, h.0), deliveries-GoesOn es h.1)

module _ (t : Transports) (r : Router) where
  abbrev Open : Conversation t → Type 0
  Open c = All GoesOn c.links.0

  broadcast-Open :
      (content : String) (except : Option String) (c : Conversation t)
      → Open c
      → All GoesOn (broadcast t r.agents content except c.links).0
  broadcast-Open content except c h =
      let (ds, added, kinds, carried) = broadcast_log t r.agents content except c.links in
      subst (All GoesOn) (sym added) (All-append GoesOn c.links.0 ds h (deliveries-GoesOn ds kinds))

  relay_result-Open :
      (content from : String) (c : Conversation t)
      → Open c
      → Post t r Open (λ reason. Open) (relay_result t r from content c)
  unfolding relay_result
  relay_result-Open content from c h =
      let spread = broadcast-Open content (some from) c h in
      elim (Bool-cases (leb r.config.max_turns (c.turn_count + 1))) [
        | inl over ↦ rw (over, relay_result) spread
        | inr under ↦ elim (Bool-cases (converged r.agents (insert from content c.last_result))) [
          | inl all ↦ rw (under, relay_result, all) spread
          | inr some_not ↦ rw (under, relay_result, some_not) spread
        ]
      ]

  on_event-Open :
      (e : Event) (c : Conversation t)
      → Unit {0}
      → Open c
      → Post t r Open (λ reason. Open) (on_event t r e c)
  unfolding on_event relay_fragment relay_human fragment_text message_kind
  on_event-Open elapsed c u h = h
  on_event-Open agents_done c u h = h
  on_event-Open human_done c u h = h
  on_event-Open (human_said content) c u h =
      broadcast-Open content none (logged t _ c) (All-append GoesOn c.links.0 _ h (refl, tt))
  on_event-Open (agent_said from (text s)) c u h = All-append GoesOn c.links.0 _ h (refl, tt)
  on_event-Open (agent_said from (tool_use name)) c u h = All-append GoesOn c.links.0 _ h (refl, tt)
  on_event-Open (agent_said from (result s)) c u h =
      relay_result-Open s from _ (All-append GoesOn c.links.0 _ h (refl, tt))

  Open-opened : (prompt : Option String) (state : t.State) → Open (opened t r prompt state)
  Open-opened none state = tt
  Open-opened (some prompt) state =
      let (ds, added, kinds, carried) = broadcast_log t r.agents prompt none ([], state) in
      subst (All GoesOn) (sym added) (deliveries-GoesOn ds kinds)

-- The log of a conversation that has ended closes with the entry for its reason, and no other entry
-- of any log is a notice of termination.
pub run-IsClosed :
    (t : Transports) (r : Router) (prompt : Option String) (es : List Event) (state : t.State)
    → IsClosed (run t r prompt es state).0 (run t r prompt es state).1
run-IsClosed t r prompt es state =
    run_rule t r (Open t r) (λ reason. Open t r) (λ e. Unit) IsClosed (on_event-Open t r) (λ c h. h)
      (λ reason c h. (c.links.0, refl, h)) prompt es state (every_event es)
      (Open-opened t r prompt state)
