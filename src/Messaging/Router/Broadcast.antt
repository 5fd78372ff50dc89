-- ===== src/Messaging/Router/Broadcast.antt =====
-- Which messages the router sends.
use kuromaku.Prelude.{
  ◌+◌, String, ◌≡◌, refl, sym, ap, ◌∙◌, subst, inl, inr, false, Option, none, some, List, [], ◌∷◌,
  ◌++◌, append-nil, append_assoc, All, insert, Bool-cases, leb, if◌then◌else◌, arith,
}
use kuromaku.Messaging.Router.{
  text, tool_use, result, Source, agent, human, final, LogKind, inbound, LogEntry, Router, Event,
  router, termination, Links, elapsed, agents_done, agent_said, human_said, human_done, Transports,
  Conversation, fragment_text, message_kind, broadcast, relay_result, relay_fragment, relay_human,
  on_event, run, seeded, logged, converged,
}
use kuromaku.Messaging.Router.Rule.{Post, run_rule}
use kuromaku.Messaging.Router.Log.{
  is_delivery, IsDelivery, Carried, recipients, each, sent_all, sent_all-append, sent_all-Carried,
  broadcast-sent_all,
}

-- The messages that an entry of the log obliges the router to send: a result of an agent goes to all
-- others, and what the person says to all agents.
abbrev owed_kind : List String → Source → LogKind → List (String × String)
owed_kind agents (agent id) (inbound content final) = each content (recipients (some id) agents)
owed_kind agents human (inbound content final) = each content (recipients none agents)
owed_kind agents _ _ = []

abbrev pub owed_entry : List String → LogEntry → List (String × String)
owed_entry agents e = owed_kind agents e.from e.kind

abbrev pub owed : List String → List LogEntry → List (String × String)
owed agents [] = []
owed agents (e ∷ es) = owed_entry agents e ++ owed agents es

abbrev pub deliveries : List LogEntry → List LogEntry
deliveries [] = []
deliveries (e ∷ es) = let rest = deliveries es in if is_delivery e then e ∷ rest else rest

abbrev pub owed_first : List String → Option String → List (String × String)
owed_first agents none = []
owed_first agents (some prompt) = each prompt (recipients none agents)

owed-append :
    (agents : List String) (es fs : List LogEntry)
    → owed agents (es ++ fs) ≡ owed agents es ++ owed agents fs
owed-append agents [] fs = refl
owed-append agents (e ∷ es) fs =
    ap (λ l. owed_entry agents e ++ l) (owed-append agents es fs)
    ∙ sym (append_assoc (owed_entry agents e) (owed agents es) (owed agents fs))

deliveries-append : (es fs : List LogEntry) → deliveries (es ++ fs) ≡ deliveries es ++ deliveries fs
deliveries-append [] fs = refl
deliveries-append (e ∷ es) fs = elim (Bool-cases (is_delivery e)) [
  | inl d ↦ rw d (ap (◌∷◌ e) (deliveries-append es fs))
  | inr d ↦ rw d (deliveries-append es fs)
]

deliveries-all : (es : List LogEntry) → All IsDelivery es → deliveries es ≡ es
deliveries-all [] h = refl
deliveries-all (e ∷ es) h = rw h.0 (ap (◌∷◌ e) (deliveries-all es h.1))

owed_delivery : (agents : List String) (e : LogEntry) → IsDelivery e → owed_entry agents e ≡ []
owed_delivery agents e d = ground (arith, d)

owed-all : (agents : List String) (es : List LogEntry) → All IsDelivery es → owed agents es ≡ []
owed-all agents [] h = refl
owed-all agents (e ∷ es) h = rw (owed_delivery agents e h.0) (owed-all agents es h.1)

-- All that is owed has been sent, one message behind the other, and nothing else: the log has what each of these sends
-- returned, and each entry is for its message.
abbrev pub Delivered :
    (t : Transports) → List String → List (String × String) → t.State → List LogEntry → Type 0
Delivered t agents first state log =
    (deliveries log ≡ (sent_all t (first ++ owed agents log) state).0)
    × Carried (deliveries log) (first ++ owed agents log)

module _ (t : Transports) (agents : List String) (first : List (String × String))
    (start : t.State) where
  -- The log and the transports are those after sending what is owed.
  abbrev Sent : Links t → Type 0
  Sent links = (deliveries links.0, links.1) ≡ sent_all t (first ++ owed agents links.0) start

  step :
      (log : List LogEntry) (e : LogEntry) (ns : List (String × String)) (state : t.State)
      → is_delivery e ≡ false
      → owed_entry agents e ≡ ns
      → Sent (log, state)
      → Sent ((log ++ e ∷ []) ++ (sent_all t ns state).0, (sent_all t ns state).1)
  step log e ns state other obliged h =
      let ds = (sent_all t ns state).0 in
      let kinds = (sent_all-Carried t ns state).0 in
      let nothing : deliveries (e ∷ []) ≡ [] = rw other refl in
      let sent : deliveries ((log ++ e ∷ []) ++ ds) ≡ deliveries log ++ ds =
        deliveries-append (log ++ e ∷ []) ds
        ∙ ap (λ l. l ++ deliveries ds)
            (deliveries-append log (e ∷ [])
              ∙ ap (λ l. deliveries log ++ l) nothing
              ∙ append-nil (deliveries log))
        ∙ ap (λ l. deliveries log ++ l) (deliveries-all ds kinds) in
      let due : owed agents ((log ++ e ∷ []) ++ ds) ≡ owed agents log ++ ns =
        owed-append agents (log ++ e ∷ []) ds
        ∙ ap (λ l. owed agents (log ++ e ∷ []) ++ l) (owed-all agents ds kinds)
        ∙ append-nil (owed agents (log ++ e ∷ []))
        ∙ owed-append agents log (e ∷ [])
        ∙ ap (λ l. owed agents log ++ l) (append-nil (owed_entry agents e) ∙ obliged) in
      ap (λ l. (l, (sent_all t ns state).1)) sent
      ∙ ap (λ (p : List LogEntry × t.State). (p.0 ++ (sent_all t ns p.1).0, (sent_all t ns p.1).1))
          h
      ∙ sym (sent_all-append t (first ++ owed agents log) ns start)
      ∙ ap (λ l. sent_all t l start)
          (append_assoc first (owed agents log) ns ∙ ap (λ l. first ++ l) (sym due))

  silent :
      (log : List LogEntry) (e : LogEntry) (state : t.State)
      → is_delivery e ≡ false
      → owed_entry agents e ≡ []
      → Sent (log, state)
      → Sent (log ++ e ∷ [], state)
  unfolding sent_all
  silent log e state other free h =
      subst (λ l. Sent (l, state)) (append-nil (log ++ e ∷ [])) (step log e [] state other free h)

  Delivered-Sent : (links : Links t) → Sent links → Delivered t agents first start links.0
  Delivered-Sent (log, state) h =
      let sent : deliveries log ≡ (sent_all t (first ++ owed agents log) start).0 =
        ap (λ (p : List LogEntry × t.State). p.0) h in
      (
        sent,
        subst (λ l. Carried l (first ++ owed agents log)) (sym sent)
            (sent_all-Carried t (first ++ owed agents log) start).1,
      )

module _ (t : Transports) (r : Router) (first : List (String × String)) (start : t.State) where
  abbrev Kept : Conversation t → Type 0
  Kept c = Sent t r.agents first start c.links

  spread :
      (content : String) (except : Option String) (e : LogEntry) (c : Conversation t)
      → is_delivery e ≡ false
      → owed_entry r.agents e ≡ each content (recipients except r.agents)
      → Kept c
      → Sent t r.agents first start (broadcast t r.agents content except (logged t e c).links)
  spread content except e c other due h =
      subst (Sent t r.agents first start)
        (sym (broadcast-sent_all t r.agents content except (logged t e c).links))
        (step t r.agents first start c.links.0 e (each content (recipients except r.agents))
          c.links.1 other due h)

  Post-both :
      (content from : String) (c : Conversation t)
      → Sent t r.agents first start (broadcast t r.agents content (some from) c.links)
      → Post t r Kept (λ reason. Kept) (relay_result t r from content c)
  unfolding relay_result
  Post-both content from c h = elim (Bool-cases (leb r.config.max_turns (c.turn_count + 1))) [
    | inl over ↦ rw (over, relay_result) h
    | inr under ↦ elim (Bool-cases (converged r.agents (insert from content c.last_result))) [
      | inl all ↦ rw (under, relay_result, all) h
      | inr some_not ↦ rw (under, relay_result, some_not) h
    ]
  ]

  on_event-Kept :
      (e : Event) (c : Conversation t)
      → Unit {0}
      → Kept c
      → Post t r Kept (λ reason. Kept) (on_event t r e c)
  unfolding on_event relay_fragment relay_human fragment_text message_kind
  on_event-Kept elapsed c u h = h
  on_event-Kept agents_done c u h = h
  on_event-Kept human_done c u h = h
  on_event-Kept (human_said content) c u h = spread content none _ c refl refl h
  on_event-Kept (agent_said from (text s)) c u h =
      silent t r.agents first start c.links.0 _ c.links.1 refl refl h
  on_event-Kept (agent_said from (tool_use name)) c u h =
      silent t r.agents first start c.links.0 _ c.links.1 refl refl h
  on_event-Kept (agent_said from (result s)) c u h =
      Post-both s from _ (spread s (some from) _ c refl refl h)

Sent-seeded :
    (t : Transports) (r : Router) (prompt : Option String) (state : t.State)
    → Sent t r.agents (owed_first r.agents prompt) state (seeded t r prompt state)
unfolding sent_all
Sent-seeded t r none state = refl
Sent-seeded t r (some prompt) state =
    let first = each prompt (recipients none r.agents) in
    let (ds, state') = sent_all t first state in
    let kinds = (sent_all-Carried t first state).0 in
    subst (Sent t r.agents first state)
      (sym (broadcast-sent_all t r.agents prompt none ([], state)))
      (ap (λ l. (l, state')) (deliveries-all ds kinds)
        ∙ ap (λ l. sent_all t l state)
            (sym (append-nil first) ∙ ap (λ l. first ++ l) (sym (owed-all r.agents ds kinds))))

pub every_event : (es : List Event) → All (λ e. Unit {0}) es
every_event [] = tt
every_event (e ∷ es) = (tt, every_event es)

-- In every conversation, whether it has ended or not, the router's entries of messages in the log are
-- exactly what the transports return when they send, one behind the other, all messages that the log
-- obliges the router to send, in that order: the first prompt to all agents, each result of an agent to
-- all other agents, and each message of the person to all agents. Each entry says that its message
-- was sent, or that the send to its agent failed; a failed send keeps no other from being sent, and
-- neither does the end of the conversation.
pub run-Delivered :
    (t : Transports) (r : Router) (prompt : Option String) (es : List Event) (state : t.State)
    → Delivered t r.agents (owed_first r.agents prompt) state (run t r prompt es state).1
run-Delivered t r prompt es state =
    let first = owed_first r.agents prompt in
    run_rule t r (Kept t r first state) (λ reason. Kept t r first state) (λ e. Unit)
      (λ reason. Delivered t r.agents first state) (on_event-Kept t r first state)
      (λ c h. Delivered-Sent t r.agents first state c.links h)
      (λ reason c h.
        let e : LogEntry = record { from = router; kind = termination reason } in
        Delivered-Sent t r.agents first state (c.links.0 ++ e ∷ [], c.links.1)
          (silent t r.agents first state c.links.0 e c.links.1 refl refl h))
      prompt es state (every_event es) (Sent-seeded t r prompt state)
