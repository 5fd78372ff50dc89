-- ===== src/Messaging/Router/Log.antt =====
-- The entries that a broadcast adds to the log.
use kuromaku.Prelude.{
  String, ◌≡◌, refl, sym, ap, ◌∙◌, inl, inr, Bool, true, false, Option, List, [], ◌∷◌, ◌++◌,
  append-nil, append_assoc, All, Bool-cases, if◌then◌else◌,
}
use kuromaku.Prelude.Result.{Result, ok, err, Result-cases}
use kuromaku.Messaging.Router.{
  LogEntry, LogKind, inbound, outbound, send_failed, termination, router, Transports, Links,
  is_sender, deliver, broadcast,
}

abbrev is_delivery_kind : LogKind → Bool
is_delivery_kind (outbound to content) = true
is_delivery_kind (send_failed to error) = true
is_delivery_kind (inbound content message) = false
is_delivery_kind (termination reason) = false

-- An entry for a message that the router sent, or tried to send.
abbrev pub is_delivery : LogEntry → Bool
is_delivery e = is_delivery_kind e.kind

abbrev pub IsDelivery : LogEntry → Type 0
IsDelivery e = is_delivery e ≡ true

abbrev CarriesKind : LogKind → String → String → Type 0
CarriesKind (outbound to c) id content = (to ≡ id) × (c ≡ content)
CarriesKind (send_failed to error) id content = to ≡ id
CarriesKind (inbound c message) id content = ⊥
CarriesKind (termination reason) id content = ⊥

-- The entries stand for the messages, one for one: each was sent to its agent, or the send to this
-- agent failed.
abbrev pub Carried : List LogEntry → List (String × String) → Type 0
Carried [] [] = Unit
Carried (e ∷ es) ((id, content) ∷ ms) = CarriesKind e.kind id content × Carried es ms
Carried [] (m ∷ ms) = ⊥
Carried (e ∷ es) [] = ⊥

-- All agents but the sender, in their order.
abbrev pub recipients : Option String → List String → List String
recipients except [] = []
recipients except (id ∷ ids) =
    let rest = recipients except ids in if is_sender except id then rest else id ∷ rest

abbrev pub each : (content : String) → List String → List (String × String)
each content [] = []
each content (id ∷ ids) = (id, content) ∷ each content ids

module _ (t : Transports) where
  deliver_log :
      (content id : String) (links : Links t)
      → (e : LogEntry) × ((deliver t content id links).0 ≡ links.0 ++ e ∷ [])
        × IsDelivery e
        × Carried (e ∷ []) ((id, content) ∷ [])
  unfolding deliver
  deliver_log content id (log, state) = elim (Result-cases (t.send id content state).0) [
    | inl (u, e) ↦ (
      record { from = router; kind = outbound id content },
      rw (deliver, e) refl,
      refl,
      ((refl, refl), tt),
    )
    | inr (x, e) ↦
        (record { from = router; kind = send_failed id x }, rw (deliver, e) refl, refl, (refl, tt))
  ]

  -- A broadcast adds one entry for each agent that is not the sender, and nothing else.
  pub broadcast_log :
      (ids : List String) (content : String) (except : Option String) (links : Links t)
      → (es : List LogEntry) × ((broadcast t ids content except links).0 ≡ links.0 ++ es)
        × All IsDelivery es
        × Carried es (each content (recipients except ids))
  unfolding broadcast
  broadcast_log [] content except links = ([], sym (append-nil links.0), tt, tt)
  broadcast_log (id ∷ ids) content except links = elim (Bool-cases (is_sender except id)) [
    | inl own ↦ rw (own, broadcast) (broadcast_log ids content except links)
    | inr other ↦
        let (e, added, kind, carried) = deliver_log content id links in
        let (es, more, kinds, rest) =
          broadcast_log ids content except (deliver t content id links) in
        (
          e ∷ es,
          rw (other, broadcast) (more ∙ ap (λ l. l ++ es) added ∙ append_assoc links.0 (e ∷ []) es),
          (kind, kinds),
          rw other (carried.0, rest),
        )
  ]

-- What the log says of one send, by what the send returned.
abbrev pub outcome : (to content : String) → Result String (Unit {0}) → LogEntry
outcome to content (ok u) = record { from = router; kind = outbound to content }
outcome to content (err e) = record { from = router; kind = send_failed to e }

-- What it takes to send the messages, one behind the other: the entries for what each send returned, and the transports
-- after all of them.
unfoldable pub sent_all :
    (t : Transports) → List (String × String) → t.State → List LogEntry × t.State
sent_all t [] state = ([], state)
sent_all t ((to, content) ∷ ms) state =
    let (sent, state') = t.send to content state in
    let rest = sent_all t ms state' in (outcome to content sent ∷ rest.0, rest.1)

module _ (t : Transports) where
  abbrev then_sent : List (String × String) → List LogEntry × t.State → List LogEntry × t.State
  then_sent ns (es, state) = (es ++ (sent_all t ns state).0, (sent_all t ns state).1)

  pub sent_all-append :
      (ms ns : List (String × String)) (state : t.State)
      → sent_all t (ms ++ ns) state ≡ (
        (sent_all t ms state).0 ++ (sent_all t ns (sent_all t ms state).1).0,
        (sent_all t ns (sent_all t ms state).1).1,
      )
  unfolding sent_all
  sent_all-append [] ns state = refl
  sent_all-append ((to, content) ∷ ms) ns state =
      let (sent, state') = t.send to content state in
      ap (λ (q : List LogEntry × t.State). (outcome to content sent ∷ q.0, q.1))
        (sent_all-append ms ns state')

  outcome-Carries :
      (to content : String) (sent : Result String (Unit {0}))
      → IsDelivery (outcome to content sent) × CarriesKind (outcome to content sent).kind to content
  outcome-Carries to content (ok u) = (refl, (refl, refl))
  outcome-Carries to content (err e) = (refl, refl)

  pub sent_all-Carried :
      (ms : List (String × String)) (state : t.State)
      → All IsDelivery (sent_all t ms state).0 × Carried (sent_all t ms state).0 ms
  unfolding sent_all
  sent_all-Carried [] state = (tt, tt)
  sent_all-Carried ((to, content) ∷ ms) state =
      let (sent, state') = t.send to content state in
      let (kind, carries) = outcome-Carries to content sent in
      let (kinds, carried) = sent_all-Carried ms state' in ((kind, kinds), (carries, carried))

  deliver-outcome :
      (to content : String) (links : Links t)
      → deliver t content to links ≡ (
        links.0 ++ outcome to content (t.send to content links.1).0 ∷ [],
        (t.send to content links.1).1,
      )
  unfolding deliver
  deliver-outcome to content (log, state) = elim (Result-cases (t.send to content state).0) [
    | inl (u, e) ↦ rw (deliver, e) refl
    | inr (x, e) ↦ rw (deliver, e) refl
  ]

  -- A broadcast sends its text to each recipient, in order, and logs what each send returned.
  pub broadcast-sent_all :
      (ids : List String) (content : String) (except : Option String) (links : Links t)
      → broadcast t ids content except links ≡ (
        links.0 ++ (sent_all t (each content (recipients except ids)) links.1).0,
        (sent_all t (each content (recipients except ids)) links.1).1,
      )
  unfolding broadcast sent_all
  broadcast-sent_all [] content except links = ap (λ l. (l, links.1)) (sym (append-nil links.0))
  broadcast-sent_all (id ∷ ids) content except links = elim (Bool-cases (is_sender except id)) [
    | inl own ↦ rw (own, broadcast) (broadcast-sent_all ids content except links)
    | inr other ↦
        let (sent, state') = t.send id content links.1 in
        let e = outcome id content sent in
        let rest = sent_all t (each content (recipients except ids)) state' in
        rw (other, broadcast)
          (ap (λ l. broadcast t ids content except l) (deliver-outcome id content links)
            ∙ broadcast-sent_all ids content except (links.0 ++ e ∷ [], state')
            ∙ ap (λ l. (l, rest.1)) (append_assoc links.0 (e ∷ []) rest.0))
  ]
