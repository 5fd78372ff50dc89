-- ===== src/Runner/Linear/Totals.antt =====
-- The summary of a conversation: the rows of the participants and the number of turns.
use kuromaku.Prelude.{
  ℕ, ◌+◌, ◌%◌, ◌^◌, String, ◌≡◌, refl, sym, ap, subst, ◌∙◌, inl, inr, false, Option, none, some,
  List, [], ◌∷◌, All, All-append, All-map, Member, Distinct, str_eq, str_eq_refl, str-cases, leb,
  insert, Bool-cases, if◌then◌else◌, arith,
}
use kuromaku.Messaging.Router.{
  text, tool_use, result, Source, agent, human, router, partial, final, LogKind, inbound, outbound,
  send_failed, termination, LogEntry, Router, Event, elapsed, agents_done, agent_said, human_said,
  human_done, Transports, Conversation, fragment_text, message_kind, broadcast, relay_result,
  relay_fragment, relay_human, on_event, run, opened, logged, converged,
}
use kuromaku.Messaging.Router.Rule.{Post, run_rule}
use kuromaku.Messaging.Router.Log.{IsDelivery, broadcast_log}
use kuromaku.Messaging.Router.Turns.{results_in, is_result_kind}
use kuromaku.Runner.Graph.Model.{Agent}
use kuromaku.Runner.Linear.Transcript.{count_agent_turns, is_from, is_final}
use kuromaku.Runner.Linear.Talk.{agent_ids, stats, total_turns}

abbrev SpeaksAs : List String → String → LogKind → Type 0
SpeaksAs names id (inbound content final) = Member id names
SpeaksAs names id (inbound content partial) = Unit
SpeaksAs names id (inbound content (tool_use name)) = Unit
SpeaksAs names id (outbound to content) = Unit
SpeaksAs names id (send_failed to error) = Unit
SpeaksAs names id (termination reason) = Unit

abbrev SpeaksFrom : List String → Source → LogKind → Type 0
SpeaksFrom names (agent id) kind = SpeaksAs names id kind
SpeaksFrom names human kind = Unit
SpeaksFrom names router kind = Unit

-- A result of an agent is one of a participant.
abbrev Speaks : List String → LogEntry → Type 0
Speaks names e = SpeaksFrom names e.from e.kind

-- How many participants have the id.
hits : String → List Agent → ℕ
hits id [] = 0
hits id (a ∷ rest) = (if str_eq id a.id then 1 else 0) + hits id rest

hits-none : (id : String) (ps : List Agent) → ¬ Member id (agent_ids ps) → hits id ps ≡ 0
unfolding hits
hits-none id [] h = refl
hits-none id (a ∷ rest) h = elim (str-cases id a.id) [
  | inl e ↦ absurd (h (inl e.1))
  | inr e ↦ rw e (omega (arith, hits-none id rest (λ m. h (inr m))))
]

hits-one :
    (id : String) (ps : List Agent)
    → Distinct (agent_ids ps)
    → Member id (agent_ids ps)
    → hits id ps ≡ 1
unfolding hits
hits-one id [] d m = absurd m
hits-one id (a ∷ rest) d m = elim (str-cases id a.id) [
  | inl e ↦
      rw (e.0)
        (omega (arith, hits-none id rest (λ n. d.0 (subst (λ k. Member k (agent_ids rest)) e.1 n))))
  | inr e ↦ elim m [
    | inl same ↦ absurd (cc (e, same, str_eq_refl id))
    | inr n ↦ rw e (omega (arith, hits-one id rest d.1 n))
  ]
]

-- The turns of the rows, without wrapping.
turns_of : List LogEntry → List Agent → ℕ
unfolding count_agent_turns
turns_of log [] = 0
turns_of log (a ∷ rest) = count_agent_turns log a.id + turns_of log rest

total_turns-turns_of :
    (log : List LogEntry) (ps : List Agent) → total_turns (stats log ps) ≡ turns_of log ps % 2 ^ 32
unfolding turns_of
total_turns-turns_of log [] = refl
total_turns-turns_of log (a ∷ rest) = omega (arith, total_turns-turns_of log rest)

turns_of-nil : (ps : List Agent) → turns_of [] ps ≡ 0
unfolding turns_of count_agent_turns
turns_of-nil [] = refl
turns_of-nil (a ∷ rest) = omega (arith, turns_of-nil rest)

not_counted :
    (id : String) (from : Source) (kind : LogKind)
    → is_result_kind from kind ≡ false
    → ◌≡◌ {A = ℕ} (if is_from id from then if is_final kind then 1 else 0 else 0) 0
not_counted id (agent x) (inbound content final) h = absurd (cc)
not_counted id (agent x) kind h = ground arith
not_counted id human kind h = refl
not_counted id router kind h = refl

turns_of-silent :
    (e : LogEntry) (log : List LogEntry) (ps : List Agent)
    → is_result_kind e.from e.kind ≡ false
    → turns_of (e ∷ log) ps ≡ turns_of log ps
unfolding turns_of count_agent_turns
turns_of-silent e log [] h = refl
turns_of-silent e log (a ∷ rest) h =
    omega (arith, not_counted a.id e.from e.kind h, turns_of-silent e log rest h)

turns_of-result :
    (id content : String) (log : List LogEntry) (ps : List Agent)
    → turns_of (record { from = agent id; kind = inbound content final } ∷ log) ps
      ≡ hits id ps + turns_of log ps
unfolding turns_of count_agent_turns hits
turns_of-result id content log [] = omega arith
turns_of-result id content log (a ∷ rest) = omega (arith, turns_of-result id content log rest)

turns_of-entry :
    (from : Source) (kind : LogKind) (log : List LogEntry) (ps : List Agent)
    → Distinct (agent_ids ps)
    → SpeaksFrom (agent_ids ps) from kind
    → turns_of (record { from = from; kind = kind } ∷ log) ps
      ≡ (if is_result_kind from kind then 1 else 0) + turns_of log ps
turns_of-entry (agent id) (inbound content final) log ps d m =
    omega (arith, turns_of-result id content log ps, hits-one id ps d m)
turns_of-entry from kind log ps d m =
    turns_of-silent (record { from = from; kind = kind }) log ps refl ∙ omega arith

turns_of-log :
    (log : List LogEntry) (ps : List Agent)
    → Distinct (agent_ids ps)
    → All (Speaks (agent_ids ps)) log
    → turns_of log ps ≡ results_in log
turns_of-log [] ps d h = turns_of-nil ps
turns_of-log (e ∷ log) ps d h =
    turns_of-entry e.from e.kind log ps d h.0
    ∙ ap (λ n. (if is_result_kind e.from e.kind then 1 else 0) + n) (turns_of-log log ps d h.1)

-- An event of an agent is one of the router's agents.
abbrev pub IsOurs : List String → Event → Type 0
IsOurs names (agent_said from f) = Member from names
IsOurs names elapsed = Unit
IsOurs names agents_done = Unit
IsOurs names (human_said content) = Unit
IsOurs names human_done = Unit

delivery-Speaks : (names : List String) (e : LogEntry) → IsDelivery e → Speaks names e
delivery-Speaks names e d = quiet e.from e.kind d
  where
    quiet :
        (from : Source) (kind : LogKind)
        → IsDelivery (record { from = from; kind = kind })
        → SpeaksFrom names from kind
    quiet (agent id) (outbound to content) h = tt
    quiet (agent id) (send_failed to error) h = tt
    quiet (agent id) (inbound content m) h = absurd (cc)
    quiet (agent id) (termination reason) h = absurd (cc)
    quiet human kind h = tt
    quiet router kind h = tt

module _ (t : Transports) (r : Router) (names : List String) where
  abbrev Spoken : Conversation t → Type 0
  Spoken c = All (Speaks names) c.links.0

  broadcast-Spoken :
      (content : String) (except : Option String) (links : List LogEntry × t.State)
      → All (Speaks names) links.0
      → All (Speaks names) (broadcast t r.agents content except links).0
  broadcast-Spoken content except links h =
      let (ds, added, kinds, carried) = broadcast_log t r.agents content except links in
      subst (All (Speaks names)) (sym added)
        (All-append (Speaks names) links.0 ds h (All-map _ _ ds (delivery-Speaks names) kinds))

  logged-Spoken :
      (e : LogEntry) (c : Conversation t) → Speaks names e → Spoken c → Spoken (logged t e c)
  logged-Spoken e c s h = All-append (Speaks names) c.links.0 (e ∷ []) h (s, tt)

  relay_result-Spoken :
      (from content : String) (c : Conversation t)
      → Spoken c
      → Post t r Spoken (λ reason. Spoken) (relay_result t r from content c)
  unfolding relay_result
  relay_result-Spoken from content c h =
      let after = broadcast-Spoken content (some from) c.links h in
      elim (Bool-cases (leb r.config.max_turns (c.turn_count + 1))) [
        | inl over ↦ rw (over, relay_result) after
        | inr under ↦ elim (Bool-cases (converged r.agents (insert from content c.last_result))) [
          | inl all ↦ rw (under, relay_result, all) after
          | inr some_not ↦ rw (under, relay_result, some_not) after
        ]
      ]

  on_event-Spoken :
      (e : Event) (c : Conversation t)
      → IsOurs names e
      → Spoken c
      → Post t r Spoken (λ reason. Spoken) (on_event t r e c)
  unfolding on_event relay_fragment relay_human fragment_text message_kind
  on_event-Spoken elapsed c o h = h
  on_event-Spoken agents_done c o h = h
  on_event-Spoken human_done c o h = h
  on_event-Spoken (human_said content) c o h =
      broadcast-Spoken content none _
        (logged-Spoken (record { from = human; kind = inbound content final }) c tt h)
  on_event-Spoken (agent_said from (text s)) c o h =
      logged-Spoken (record { from = agent from; kind = inbound s partial }) c tt h
  on_event-Spoken (agent_said from (tool_use name)) c o h = logged-Spoken _ c tt h
  on_event-Spoken (agent_said from (result s)) c o h =
      relay_result-Spoken from s _
        (logged-Spoken (record { from = agent from; kind = inbound s final }) c o h)

  seeded-Spoken : (prompt : Option String) (state : t.State) → Spoken (opened t r prompt state)
  seeded-Spoken none state = tt
  seeded-Spoken (some prompt) state = broadcast-Spoken prompt none ([], state) tt

-- The number of turns that the record of a conversation step has, the sum over its participants, is
-- the number of results that agents have given in the conversation, as a u32, where the participants
-- are distinct and are the only agents that speak.
pub total_turns-run :
    (t : Transports) (r : Router) (ps : List Agent) (prompt : Option String) (es : List Event)
    (state : t.State)
    → Distinct (agent_ids ps)
    → All (IsOurs (agent_ids ps)) es
    → total_turns (stats (run t r prompt es state).1 ps)
      ≡ results_in (run t r prompt es state).1 % 2 ^ 32
total_turns-run t r ps prompt es state d ours =
    let names = agent_ids ps in
    let spoken =
      run_rule t r (Spoken t r names) (λ reason. Spoken t r names) (IsOurs names)
        (λ reason log. All (Speaks names) log) (on_event-Spoken t r names) (λ c h. h)
        (λ reason c h. All-append (Speaks names) c.links.0 _ h (tt, tt)) prompt es state ours
        (seeded-Spoken t r names prompt state) in
    total_turns-turns_of (run t r prompt es state).1 ps
    ∙ ap (λ n. n % 2 ^ 32) (turns_of-log (run t r prompt es state).1 ps d spoken)
