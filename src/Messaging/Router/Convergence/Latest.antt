-- ===== src/Messaging/Router/Convergence/Latest.antt =====
-- The latest result of an agent, read off the log.
use kuromaku.Prelude.{
  String, ◌≡◌, refl, ap, ◌∙◌, Option, none, some, List, [], ◌∷◌, ◌++◌, All, str_eq, if◌then◌else◌,
  arith,
}
use kuromaku.Messaging.Router.{Source, agent, human, final, LogKind, inbound, LogEntry}
use kuromaku.Messaging.Router.Log.{IsDelivery}

-- What an entry makes of the latest result of an agent: its own results replace it, and a message of
-- the person opens a new round.
abbrev pub heard_from : String → Source → LogKind → Option String → Option String
heard_from id (agent from) (inbound content final) last =
    if str_eq id from then some content else last
heard_from id human (inbound content final) last = none
heard_from id _ _ last = last

-- The latest result of an agent since the person's last message.
abbrev pub latest : String → Option String → List LogEntry → Option String
latest id last [] = last
latest id last (e ∷ es) = latest id (heard_from id e.from e.kind last) es

pub latest-append :
    (id : String) (last : Option String) (es fs : List LogEntry)
    → latest id last (es ++ fs) ≡ latest id (latest id last es) fs
latest-append id last [] fs = refl
latest-append id last (e ∷ es) fs = latest-append id (heard_from id e.from e.kind last) es fs

delivery-unheard :
    (id : String) (last : Option String) (e : LogEntry)
    → IsDelivery e
    → heard_from id e.from e.kind last ≡ last
delivery-unheard id last e d = ground (arith, d)

pub latest-deliveries :
    (id : String) (last : Option String) (es : List LogEntry)
    → All IsDelivery es
    → latest id last es ≡ last
latest-deliveries id last [] h = refl
latest-deliveries id last (e ∷ es) h =
    ap (λ l. latest id l es) (delivery-unheard id last e h.0) ∙ latest-deliveries id last es h.1
