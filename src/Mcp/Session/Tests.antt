-- ===== src/Mcp/Session/Tests.antt =====
-- Tests of src/mcp/session.rs and of send_message: two runs, of which one has a live conversation.
use kuromaku.Prelude.{ℕ, String, ◌≡◌, refl, ◌↔◌, none, List, [], ◌∷◌, ◌==◌, if◌then◌else◌, arith}
use kuromaku.Prelude.Result.{ok, err}
use kuromaku.Mcp.Session.{
  RunStates, SessionState, new, set_router, clear_router, send_message, Mpsc, none_live,
  several_live, empty_text,
}
use kuromaku.Mcp.Session.Slots.{Request, registering, deregistering, serve_all, Adds, register-Adds}
use kuromaku.Mcp.Session.Sending.{Delivers, send_message-Delivers}

-- Channel 9 is closed; another one keeps what it gets.
abbrev channels : Mpsc
channels = record {
  State = List (ℕ × String);
  send = λ channel t w. if channel == 9 then err "closed" else ok ((channel, t) ∷ w);
}

abbrev served : List Request
served = registering 4 ∷ registering 5 ∷ deregistering 0 ∷ registering 6 ∷ deregistering 8 ∷ []

abbrev session : SessionState
session = serve_all served new

session_runs : session.runs ≡ (1, 5) ∷ (2, 6) ∷ []
unfolding serve_all
session_runs = refl

register-Adds_example : Adds 7 session
register-Adds_example = register-Adds served 7 (omega arith)

abbrev silent : RunStates
silent run = none

abbrev one_live : RunStates
one_live = set_router 6 3 silent

both_live :
    send_message channels (ok "go on") session (set_router 5 4 one_live) [] ≡ err (several_live 2)
unfolding send_message serve_all set_router
both_live = refl

none_left : send_message channels (ok "go on") session (clear_router 6 one_live) [] ≡ err none_live
unfolding send_message serve_all set_router clear_router
none_left = refl

blank_text : send_message channels (ok " \n") session one_live [] ≡ err empty_text
unfolding send_message
blank_text = refl

send_message-Delivers_example :
    (send_message channels (ok " go on") session one_live [] ≡ ok ((3, " go on") ∷ []))
    ↔ Delivers channels (ok " go on") session one_live [] ((3, " go on") ∷ [])
send_message-Delivers_example =
    send_message-Delivers channels (ok " go on") session one_live [] ((3, " go on") ∷ [])

is_delivered : send_message channels (ok " go on") session one_live [] ≡ ok ((3, " go on") ∷ [])
unfolding send_message serve_all set_router
is_delivered = refl
