-- ===== src/Messaging/Router/Tests.antt =====
-- A conversation of two agents; the transport of the second is closed.
use kuromaku.Prelude.{
  ℕ, ◌+◌, ◌<◌, String, ◌≡◌, refl, inl, inr, true, some, List, [], ◌∷◌, insert, length, Member,
  str_eq, if◌then◌else◌,
}
use kuromaku.Prelude.Text.{trim}
use kuromaku.Prelude.Result.{ok, err}
use kuromaku.Messaging.Router.{
  text, result, convergence, Router, Event, agent_said, human_said, Transports, default_config, new,
  add_agent, set_human_input, broadcast, deliver, relay_result, relay_fragment, relay_human,
  on_event, handle, converse, run, converged, all_done, fragment_text, message_kind,
}
use kuromaku.Messaging.Router.Broadcast.{Delivered, run-Delivered}
use kuromaku.Messaging.Router.Turns.{IsCapped, run-IsCapped, IsClosed, run-IsClosed}
use kuromaku.Messaging.Router.Convergence.{SaysDone, run-SaysDone}

abbrev one_closed : Transports
one_closed = record {
  State = ℕ;
  send = λ to content n. (if str_eq to "designer" then err "closed" else ok tt, n + 1);
}

abbrev pair : Router
pair = record {
  agents = "developer" ∷ "designer" ∷ [];
  human_input = true;
  config = default_config;
}

pair_built :
    pair ≡ set_human_input (add_agent "designer" (add_agent "developer" (new default_config)))
unfolding set_human_input add_agent new
pair_built = refl

abbrev talk : List Event
talk =
    agent_said "developer" (result "DONE")
    ∷ human_said "One more thing."
    ∷ agent_said "developer" (text "Well")
    ∷ agent_said "designer" (result "DONE")
    ∷ agent_said "developer" (result " DONE")
    ∷ agent_said "designer" (result "Unheard.")
    ∷ []

talk_converges : (run one_closed pair (some "Discuss.") talk 0).0 ≡ some convergence
unfolding run converse handle on_event relay_fragment relay_result relay_human broadcast deliver
    converged all_done trim insert str_eq fragment_text message_kind
talk_converges = refl

run-Delivered_example :
    Delivered one_closed
      ("developer" ∷ "designer" ∷ [])
      (("developer", "Discuss.") ∷ ("designer", "Discuss.") ∷ [])
      0
      (run one_closed pair (some "Discuss.") talk 0).1
run-Delivered_example = run-Delivered one_closed pair (some "Discuss.") talk 0

run-IsCapped_example :
    IsCapped pair
      (run one_closed pair (some "Discuss.") talk 0).0
      (run one_closed pair (some "Discuss.") talk 0).1
run-IsCapped_example = run-IsCapped one_closed pair (some "Discuss.") talk 0

run-IsClosed_example :
    IsClosed
      (run one_closed pair (some "Discuss.") talk 0).0
      (run one_closed pair (some "Discuss.") talk 0).1
run-IsClosed_example = run-IsClosed one_closed pair (some "Discuss.") talk 0

run-SaysDone_example :
    (0 < length pair.agents)
    × ((id : String)
        → Member id pair.agents
        → SaysDone (run one_closed pair (some "Discuss.") talk 0).1 id)
run-SaysDone_example =
    run-SaysDone one_closed pair (some "Discuss.") talk 0
      (inl refl, (tt, (inl refl, (inr (inl refl), (inl refl, (inr (inl refl), tt))))))
      talk_converges
