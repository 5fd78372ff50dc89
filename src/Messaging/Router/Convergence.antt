-- ===== src/Messaging/Router/Convergence.antt =====
-- What it means that a conversation has converged.
mod Latest
mod Speakers
use kuromaku.Prelude.{
  ◌+◌, ◌<◌, ◌≤◌, String, ◌≡◌, refl, sym, ap, ◌∙◌, subst, ◌≢◌, ◌⊎◌, inl, inr, true, Option, none,
  some, List, [], ◌∷◌, ◌++◌, All, Member, Distinct, length, length-append, Member-append_left,
  Member-append_right, Member-append_cases, Assoc, keys, lookup, insert, lookup-insert, str_eq,
  str_eq_refl, str_eq_iff, str-cases, Bool-cases, leb, if◌then◌else◌, arith,
}
use kuromaku.Prelude.Text.{trim}
use kuromaku.Messaging.Router.{
  text, tool_use, result, Source, agent, human, final, TerminationReason, convergence, LogKind,
  inbound, LogEntry, Router, Event, elapsed, agents_done, agent_said, human_said, human_done,
  Transports, Conversation, fragment_text, message_kind, broadcast, relay_result, relay_fragment,
  relay_human, on_event, run, opened, logged, converged, all_done, done_text,
}
use kuromaku.Messaging.Router.Rule.{Post, run_rule}
use kuromaku.Messaging.Router.Log.{IsDelivery, broadcast_log}
use kuromaku.Messaging.Router.Convergence.Latest.{
  heard_from, latest, latest-append, latest-deliveries,
}
use kuromaku.Prelude.Counting.{fill}
use kuromaku.Prelude.Maps.{insert-Distinct}
use kuromaku.Messaging.Router.Convergence.Speakers.{insert-inside, length-keys, all_done-key}

-- The agent's latest result, since the person spoke last, is `DONE`.
abbrev pub SaysDone : List LogEntry → String → Type 0
SaysDone log id = (s : String) × (latest id none log ≡ some s) × (trim s ≡ done_text)

-- An event of an agent is one of the router's agents.
abbrev pub IsOurs : Router → Event → Type 0
IsOurs r (agent_said from f) = Member from r.agents
IsOurs r _ = Unit

abbrev AllSayDone : Router → Option TerminationReason → List LogEntry → Type 0
AllSayDone r reason log =
    reason ≡ some convergence
    → (0 < length r.agents) × ((id : String) → Member id r.agents → SaysDone log id)

module _ (t : Transports) (r : Router) where
  record Tracks (c : Conversation t) : Type 0 where
    current : (id : String) → latest id none c.links.0 ≡ lookup id c.last_result
    distinct : Distinct (keys c.last_result)
    inside : All (λ k. Member k r.agents) (keys c.last_result)

  abbrev Agrees : TerminationReason → Conversation t → Type 0
  Agrees reason c = AllSayDone r (some reason) c.links.0

  after :
      (id content : String) (except : Option String) (e : LogEntry) (c : Conversation t)
      → latest id none (broadcast t r.agents content except (logged t e c).links).0
        ≡ heard_from id e.from e.kind (latest id none c.links.0)
  after id content except e c =
      let (ds, added, kinds, carried) =
        broadcast_log t r.agents content except (logged t e c).links in
      ap (latest id none) added
      ∙ latest-append id none (c.links.0 ++ e ∷ []) ds
      ∙ latest-deliveries id (latest id none (c.links.0 ++ e ∷ [])) ds kinds
      ∙ latest-append id none c.links.0 (e ∷ [])

  all_say_done :
      (c : Conversation t)
      → Tracks c
      → converged r.agents c.last_result ≡ true
      → Agrees convergence c
  unfolding converged
  all_say_done c k h e = (
    ground (arith, h),
    λ id m.
        let full : length c.last_result ≡ length r.agents = ground (arith, h) in
        let done : all_done c.last_result ≡ true = ground (arith, h) in
        let there =
          fill (keys c.last_result) r.agents k.distinct k.inside
            (omega (arith, full, length-keys c.last_result)) id m in
        let (s, found, says) = all_done-key id c.last_result there done in
        (s, k.current id ∙ found, says),
  )

  abbrev said : (from content : String) → LogEntry
  said from content = record { from = agent from; kind = inbound content final }

  Tracks-result :
      (from content : String) (c : Conversation t)
      → Member from r.agents
      → Tracks c
      → Tracks (record {
        turn_count = c.turn_count + 1;
        last_result = insert from content c.last_result;
        links = broadcast t r.agents content (some from) (logged t (said from content) c).links;
      })
  Tracks-result from content c ours k = record {
    current = λ id.
        after id content (some from) (said from content) c
        ∙ ap (λ l. if str_eq id from then some content else l) (k.current id)
        ∙ sym (lookup-insert from id content c.last_result);
    distinct = insert-Distinct from content c.last_result k.distinct;
    inside = insert-inside r.agents from content c.last_result ours k.inside;
  }

  relay_result-Post :
      (from content : String) (c : Conversation t)
      → Member from r.agents
      → Tracks c
      → Post t r Tracks Agrees (relay_result t r from content (logged t (said from content) c))
  unfolding relay_result
  relay_result-Post from content c ours k =
      let k' = Tracks-result from content c ours k in
      elim (Bool-cases (leb r.config.max_turns (c.turn_count + 1))) [
        | inl over ↦ rw (over, relay_result) (λ e. cc e)
        | inr under ↦ elim (Bool-cases (converged r.agents (insert from content c.last_result))) [
          | inl all ↦ rw (under, relay_result, all) (all_say_done _ k' all)
          | inr some_not ↦ rw (under, relay_result, some_not) k'
        ]
      ]

  Tracks-human :
      (content : String) (c : Conversation t)
      → Tracks c
      → Tracks (
          relay_human t r content
            (logged t (record { from = human; kind = inbound content final }) c))
  unfolding relay_human lookup
  Tracks-human content c k = record {
    current = λ id. after id content none (record { from = human; kind = inbound content final }) c;
    distinct = tt;
    inside = tt;
  }

  Tracks-quiet :
      (e : LogEntry) (c : Conversation t)
      → ((id : String) (last : Option String) → heard_from id e.from e.kind last ≡ last)
      → Tracks c
      → Tracks (logged t e c)
  Tracks-quiet e c quiet k = record {
    current = λ id.
        latest-append id none c.links.0 (e ∷ [])
        ∙ quiet id (latest id none c.links.0)
        ∙ k.current id;
    distinct = k.distinct;
    inside = k.inside;
  }

  on_event-Tracks :
      (e : Event) (c : Conversation t)
      → IsOurs r e
      → Tracks c
      → Post t r Tracks Agrees (on_event t r e c)
  unfolding on_event relay_fragment fragment_text message_kind
  on_event-Tracks elapsed c u k = λ e. cc e
  on_event-Tracks agents_done c u k = λ e. cc e
  on_event-Tracks human_done c u k = λ e. cc e
  on_event-Tracks (human_said content) c u k = Tracks-human content c k
  on_event-Tracks (agent_said from (text s)) c u k = Tracks-quiet _ c (λ id last. refl) k
  on_event-Tracks (agent_said from (tool_use name)) c u k = Tracks-quiet _ c (λ id last. refl) k
  on_event-Tracks (agent_said from (result s)) c u k = relay_result-Post from s c u k

  Tracks-opened : (prompt : Option String) (state : t.State) → Tracks (opened t r prompt state)
  unfolding lookup
  Tracks-opened none state = record { current = λ id. refl; distinct = tt; inside = tt }
  Tracks-opened (some prompt) state =
      let (ds, added, kinds, carried) = broadcast_log t r.agents prompt none ([], state) in
      record {
        current = λ id. ap (latest id none) added ∙ latest-deliveries id none ds kinds;
        distinct = tt;
        inside = tt;
      }

-- A conversation of the router's agents that ends for convergence has at least one agent, and the
-- latest result of every agent since the person's last message is `DONE`, but for white space around
-- it.
pub run-SaysDone :
    (t : Transports) (r : Router) (prompt : Option String) (es : List Event) (state : t.State)
    → All (IsOurs r) es
    → (run t r prompt es state).0 ≡ some convergence
    → (0 < length r.agents)
      × ((id : String) → Member id r.agents → SaysDone (run t r prompt es state).1 id)
run-SaysDone t r prompt es state ours =
    run_rule t r (Tracks t r) (Agrees t r) (IsOurs r) (AllSayDone r) (on_event-Tracks t r)
      (λ c h e. cc e)
      (λ reason c h e.
        let (some_agent, all) = h e in
        (
          some_agent,
          λ id m.
              let (s, found, says) = all id m in
              (s, latest-append id none c.links.0 _ ∙ found, says),
        ))
      prompt es state ours (Tracks-opened t r prompt state)
