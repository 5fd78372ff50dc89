-- ===== src/Executor/Transport/Tests.antt =====
-- Tests of src/executor/transport.rs, with a list for the channel.
use kuromaku.Prelude.{
  String, ◌≡◌, refl, Option, none, some, List, [], ◌∷◌, ◌++◌, str_eq, if◌then◌else◌,
}
use kuromaku.Prelude.Number.{pos}
use kuromaku.Prelude.Result.{Result, ok}
use kuromaku.Messaging.Router.{Fragment, result}
use kuromaku.Executor.Stream.{Json, string, object, field, end, parse_line}
use kuromaku.Executor.Local.Model.{ExitStatus}
use kuromaku.Executor.Transport.{Unbounded, opened, receive, ended}
use kuromaku.Executor.Transport.Order.{
  Action, reading, reading_errors, receiving, act_all, InOrder, act_all-InOrder,
}

abbrev first_of : List Fragment → Option (Fragment × List Fragment)
first_of [] = none
first_of (f ∷ fs) = some (f, fs)

none_first : (s : List Fragment) → first_of s ≡ none → s ≡ []
none_first [] h = refl
none_first (f ∷ fs) h = absurd (cc)

some_first : (s s' : List Fragment) (f : Fragment) → first_of s ≡ some (f, s') → s ≡ f ∷ s'
some_first [] s' f h = absurd (cc)
some_first (g ∷ gs) s' f h = cc (h)

abbrev queue : Unbounded
queue = record {
  State = List Fragment;
  contents = λ s. s;
  fresh = [];
  send = λ f s. s ++ f ∷ [];
  try_recv = first_of;
  fresh_contents = refl;
  send_contents = λ f s. refl;
  none_contents = none_first;
  some_contents = some_first;
}

abbrev answer : Json
answer = object (field "type" (string "result") (field "result" (string "done") end))

abbrev decoder : String → Option Json
decoder s = if str_eq s "{answer}" then some answer else none

abbrev exit : Result String ExitStatus
exit = ok (record { code = some (pos 0) })

abbrev lines : List String
lines = "{answer}" ∷ "noise" ∷ "{answer}" ∷ []

abbrev actions : List Action
actions =
    receiving ∷ reading ∷ reading_errors ∷ reading ∷ receiving ∷ receiving ∷ reading ∷ receiving
    ∷ reading ∷ receiving ∷ []

received :
    (act_all queue decoder actions (opened queue lines ("warning" ∷ []) exit)).0
    ≡ result "done" ∷ result "done" ∷ []
unfolding act_all opened parse_line str_eq
received = refl

ended_after :
    (receive queue (act_all queue decoder actions (opened queue lines [] exit)).1).0 ≡ ended
unfolding act_all opened receive parse_line str_eq
ended_after = refl

act_all-InOrder_example : InOrder queue decoder lines ("warning" ∷ []) exit actions
act_all-InOrder_example = act_all-InOrder queue decoder lines ("warning" ∷ []) exit actions
