-- ===== src/Executor/Transport/Order.antt =====
-- What is received over src/executor/transport.rs, under any interleaving of its readers with the receiving.
use kuromaku.Prelude.{
  String, ◌≡◌, refl, sym, ap, subst, ◌∙◌, ◌≢◌, ◌⊎◌, inl, inr, true, Bool-cases, Option, none, some,
  Option-cases, List, [], ◌∷◌, ◌++◌, append-nil, append_assoc,
}
use package.text.Mathlib.TextLemmas.{append_assoc as text_assoc, append-nil as text-nil, nil-append}
use kuromaku.Prelude.Text.{◌<>◌}
use kuromaku.Prelude.Number.{ℤ, negsuc}
use kuromaku.Prelude.Result.{Result, ok, err}
use kuromaku.Messaging.Router.{Fragment}
use kuromaku.Executor.Stream.{Json, parse_line}
use kuromaku.Executor.Local.{code_or}
use kuromaku.Executor.Local.Model.{ExitStatus}
use kuromaku.Executor.Local.Told.{fragments, with_ends}
use kuromaku.Executor.Transport.{
  Unbounded, Received, event, ended, pending, StreamJsonTransport, opened, forward, read_of,
  read_turn, read_error_of, read_error_turn, read_errors, receive, output_with, close_transport,
  TransportError, close, TransportOutput,
}

pub data Action : Type 0 where
  reading reading_errors receiving : Action

-- The code that is told for a child: its own, or -1 when a signal has ended it.
abbrev pub CodeOf : Option ℤ → ℤ → Type 0
CodeOf none told = told ≡ negsuc 0
CodeOf (some code) told = told ≡ code

-- What closing gives for a child that has written the lines to stderr: its end and these lines, each with its end, or
-- the error of waiting for it.
abbrev pub Closes :
    (exit : Result String ExitStatus) (err_lines : List String)
    → Result TransportError TransportOutput
    → Type 0
Closes (err e) err_lines told = told ≡ err (close ("failed waiting for child: " <> e))
Closes (ok status) err_lines told =
    (o : TransportOutput) × (told ≡ ok o)
    × (o.stderr ≡ with_ends err_lines)
    × CodeOf status.code o.exit_code

abbrev pub events_of : Received → List Fragment
events_of (event f) = f ∷ []
events_of ended = []
events_of pending = []

code_or-CodeOf : (c : Option ℤ) → CodeOf c (code_or (negsuc 0) c)
code_or-CodeOf none = refl
code_or-CodeOf (some code) = refl

module _ (u : Unbounded) (from_str : String → Option Json) where
  -- The events that the actions receive, in their order, and the transport after them.
  unfoldable pub act_all :
      List Action → StreamJsonTransport u → List Fragment × StreamJsonTransport u
  unfolding read_turn read_error_turn receive
  act_all [] t = ([], t)
  act_all (reading ∷ more) t = act_all more (read_turn u from_str t)
  act_all (reading_errors ∷ more) t = act_all more (read_error_turn u t)
  act_all (receiving ∷ more) t =
      let r = receive u t in let rest = act_all more r.1 in (events_of r.0 ++ rest.0, rest.1)

  -- What is still to be received.
  abbrev due : StreamJsonTransport u → List Fragment
  due t = u.contents t.rx ++ fragments from_str t.stdout_left

  forward_contents :
      (fs : List Fragment) (s : u.State) → u.contents (forward u fs s) ≡ u.contents s ++ fs
  unfolding forward
  forward_contents [] s = sym (append-nil (u.contents s))
  forward_contents (f ∷ fs) s =
      forward_contents fs (u.send f s)
      ∙ ap (λ l. l ++ fs) (u.send_contents f s)
      ∙ append_assoc (u.contents s) (f ∷ []) fs

  due-read_of :
      (ls : List String) (t : StreamJsonTransport u)
      → t.stdout_left ≡ ls
      → due (read_of u from_str ls t) ≡ due t
  due-read_of [] t e = refl
  due-read_of (line ∷ ls) t e =
      rw (e, forward_contents (parse_line from_str line) t.rx)
        (append_assoc (u.contents t.rx) (parse_line from_str line) (fragments from_str ls))

  due-read_error_of :
      (ls : List String) (t : StreamJsonTransport u) → due (read_error_of u ls t) ≡ due t
  due-read_error_of [] t = refl
  due-read_error_of (line ∷ ls) t = refl

  due-receive :
      (t : StreamJsonTransport u) → events_of (receive u t).0 ++ due (receive u t).1 ≡ due t
  unfolding receive
  due-receive t = elim (Option-cases (u.try_recv t.rx)) [
    | inl e ↦ elim (Bool-cases t.stdout_open) [
      | inl o ↦ rw (receive, e, o) refl
      | inr o ↦ rw (receive, e, o) refl
    ]
    | inr ((f, rx), e) ↦ rw (receive, e, u.some_contents t.rx rx f e) refl
  ]

  due-act_all :
      (actions : List Action) (t : StreamJsonTransport u)
      → (act_all actions t).0 ++ due (act_all actions t).1 ≡ due t
  unfolding act_all read_turn read_error_turn
  due-act_all [] t = refl
  due-act_all (reading ∷ more) t =
      due-act_all more (read_turn u from_str t) ∙ due-read_of t.stdout_left t refl
  due-act_all (reading_errors ∷ more) t =
      due-act_all more (read_error_turn u t) ∙ due-read_error_of t.stderr_left t
  due-act_all (receiving ∷ more) t =
      let r = receive u t in
      append_assoc (events_of r.0) (act_all more r.1).0 (due (act_all more r.1).1)
      ∙ ap (λ l. events_of r.0 ++ l) (due-act_all more r.1)
      ∙ due-receive t

  -- The reader's end comes after the lines.
  abbrev Steady : StreamJsonTransport u → Type 0
  Steady t = (t.stdout_open ≡ true) ⊎ (t.stdout_left ≡ [])

  -- What no action changes: that, and what is written to stderr stays.
  abbrev Kept : StreamJsonTransport u → StreamJsonTransport u → Type 0
  Kept t t' =
      Steady t'
      × (read_errors u t'.stderr_left t'.stderr_buf ≡ read_errors u t.stderr_left t.stderr_buf)
      × (t'.exit ≡ t.exit)

  read_of-Kept :
      (ls : List String) (t : StreamJsonTransport u)
      → t.stdout_left ≡ ls
      → Steady t
      → Kept t (read_of u from_str ls t)
  read_of-Kept [] t e steady = (inr e, refl, refl)
  read_of-Kept (line ∷ ls) t e (inl is_open) = (inl is_open, refl, refl)
  read_of-Kept (line ∷ ls) t e (inr none_left) = absurd (cc (e, none_left))

  read_error_of-Kept :
      (ls : List String) (t : StreamJsonTransport u)
      → t.stderr_left ≡ ls
      → Steady t
      → Kept t (read_error_of u ls t)
  read_error_of-Kept [] t e steady = (steady, refl, refl)
  read_error_of-Kept (line ∷ ls) t e steady = (steady, rw e refl, refl)

  receive-Kept : (t : StreamJsonTransport u) → Steady t → Kept t (receive u t).1
  unfolding receive
  receive-Kept t steady = elim (Option-cases (u.try_recv t.rx)) [
    | inl e ↦ rw (receive, e) (steady, refl, refl)
    | inr ((f, rx), e) ↦ rw (receive, e) (steady, refl, refl)
  ]

  then_Kept : (t t' t'' : StreamJsonTransport u) → Kept t t' → Kept t' t'' → Kept t t''
  then_Kept t t' t'' (a, b, c) (d, e, f) = (d, e ∙ b, f ∙ c)

  act_all-Kept :
      (actions : List Action) (t : StreamJsonTransport u) → Steady t → Kept t (act_all actions t).1
  unfolding act_all read_turn read_error_turn
  act_all-Kept [] t steady = (steady, refl, refl)
  act_all-Kept (reading ∷ more) t steady =
      let kept = read_of-Kept t.stdout_left t refl steady in
      then_Kept t (read_turn u from_str t) (act_all more (read_turn u from_str t)).1 kept
        (act_all-Kept more (read_turn u from_str t) kept.0)
  act_all-Kept (reading_errors ∷ more) t steady =
      let kept = read_error_of-Kept t.stderr_left t refl steady in
      then_Kept t (read_error_turn u t) (act_all more (read_error_turn u t)).1 kept
        (act_all-Kept more (read_error_turn u t) kept.0)
  act_all-Kept (receiving ∷ more) t steady =
      let kept = receive-Kept t steady in
      then_Kept t (receive u t).1 (act_all more (receive u t).1).1 kept
        (act_all-Kept more (receive u t).1 kept.0)

  read_errors_lem : (ls : List String) (w : String) → read_errors u ls w ≡ w <> with_ends ls
  read_errors_lem [] w = sym (text-nil w)
  read_errors_lem (line ∷ ls) w =
      read_errors_lem ls (w <> (line <> "\n"))
      ∙ text_assoc w (line <> "\n") (with_ends ls)
      ∙ ap (λ s. w <> s) (text_assoc line "\n" (with_ends ls))

  -- The end is told only when all has been received.
  due-end : (t : StreamJsonTransport u) → Steady t → ((receive u t).0 ≢ ended) ⊎ (due t ≡ [])
  unfolding receive
  due-end t steady = elim (Option-cases (u.try_recv t.rx)) [
    | inr ((f, rx), e) ↦ rw (receive, e) (inl (λ h. absurd (cc (h))))
    | inl e ↦ elim steady [
      | inl is_open ↦ rw (receive, e, is_open) (inl (λ h. absurd (cc (h))))
      | inr none_left ↦ inr (rw (u.none_contents t.rx e, none_left) refl)
    ]
  ]

  -- What has been received begins the fragments of the child's lines, the end comes after all of them, and closing
  -- gives what the child has written to stderr.
  abbrev pub InOrder :
      (out err_lines : List String) → Result String ExitStatus → List Action → Type 0
  InOrder out err_lines exit actions =
      let r = act_all actions (opened u out err_lines exit) in
      ((rest : List Fragment) × (r.0 ++ rest ≡ fragments from_str out))
      × (((receive u r.1).0 ≢ ended) ⊎ (r.0 ≡ fragments from_str out))
      × Closes exit err_lines (close_transport u r.1)

  output_with-Closes :
      (exit : Result String ExitStatus) (err_lines : List String) (written : String)
      → written ≡ with_ends err_lines
      → Closes exit err_lines (output_with u exit written)
  output_with-Closes (err e) err_lines written h = refl
  output_with-Closes (ok status) err_lines written h = (
    record { exit_code = code_or (negsuc 0) status.code; stderr = written },
    refl,
    h,
    code_or-CodeOf status.code,
  )

-- However the readers' turns and the receiving follow on each other, what has been received is a beginning of the
-- fragments of the child's lines, in their order; the end is received only when all of them have been; and closing then
-- gives the child's exit code, or -1 where it has none, with every line that the child has written to stderr, or the
-- error of waiting for the child.
pub act_all-InOrder :
    (u : Unbounded) (from_str : String → Option Json) (out err_lines : List String)
    (exit : Result String ExitStatus) (actions : List Action)
    → InOrder u from_str out err_lines exit actions
unfolding opened close_transport
act_all-InOrder u from_str out err_lines exit actions =
    let t = opened u out err_lines exit in
    let r = act_all u from_str actions t in
    let (steady, same_errors, same_exit) = act_all-Kept u from_str actions t (inl refl) in
    let whole : r.0 ++ due u from_str r.1 ≡ fragments from_str out =
      due-act_all u from_str actions t ∙ ap (λ l. l ++ fragments from_str out) u.fresh_contents in
    (
      (due u from_str r.1, whole),
      elim (due-end u from_str r.1 steady) [
        | inl goes_on ↦ inl goes_on
        | inr none_due ↦ inr (sym (append-nil r.0) ∙ ap (λ l. r.0 ++ l) (sym none_due) ∙ whole)
      ],
      subst
          (λ x.
            Closes exit err_lines (output_with u x (read_errors u r.1.stderr_left r.1.stderr_buf)))
          (sym same_exit)
          (output_with-Closes u from_str exit err_lines
            (read_errors u r.1.stderr_left r.1.stderr_buf)
            (same_errors
              ∙ read_errors_lem u from_str err_lines ""
              ∙ nil-append (with_ends err_lines))),
    )
