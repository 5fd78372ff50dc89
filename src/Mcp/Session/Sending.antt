-- ===== src/Mcp/Session/Sending.antt =====
-- When send_message (src/mcp/messaging.rs) delivers a text.
use kuromaku.Prelude.{
  ℕ, String, ◌≡◌, refl, ap, ◌∙◌, ◌↔◌, inl, inr, false, none, some, List, [], ◌∷◌, ◌++◌, All,
  Bool-cases, Option-cases,
}
use kuromaku.Prelude.Text.{is_empty, trim}
use kuromaku.Prelude.Result.{Result, ok, err}
use kuromaku.Mcp.Session.{
  RunStates, SessionState, live_in, live_routers, Mpsc, sent_or, send_to, send_text, send_message,
}

module _ (states : RunStates) where
  abbrev pub Silent : (ℕ × ℕ) → Type 0
  Silent e = states e.1 ≡ none

  -- One run has published a router, and no other one.
  pub record OnlyLive (m : List (ℕ × ℕ)) (channel : ℕ) : Type 0 where
    pub before : List (ℕ × ℕ)
    pub slot : ℕ
    pub run : ℕ
    pub after : List (ℕ × ℕ)
    pub is_there : m ≡ before ++ (slot, run) ∷ after
    pub published : states run ≡ some channel
    pub others : All Silent before × All Silent after

  none_live-Silent : (m : List (ℕ × ℕ)) → live_in states m ≡ [] → All Silent m
  unfolding live_in
  none_live-Silent [] h = tt
  none_live-Silent ((slot, run) ∷ m) h = elim (Option-cases (states run)) [
    | inl e ↦ (e, none_live-Silent m (rw (live_in, e) at h))
    | inr (c, e) ↦ absurd (cc (rw (live_in, e) at h))
  ]

  Silent-none_live : (m : List (ℕ × ℕ)) → All Silent m → live_in states m ≡ []
  unfolding live_in
  Silent-none_live [] silent = refl
  Silent-none_live ((slot, run) ∷ m) silent = rw (live_in, silent.0) (Silent-none_live m silent.1)

  one_live-OnlyLive :
      (m : List (ℕ × ℕ)) (channel : ℕ) → live_in states m ≡ channel ∷ [] → OnlyLive m channel
  unfolding live_in
  one_live-OnlyLive [] channel h = absurd (cc)
  one_live-OnlyLive ((slot, run) ∷ m) channel h = elim (Option-cases (states run)) [
    | inl e ↦
        let rest = one_live-OnlyLive m channel (rw (live_in, e) at h) in
        record {
          before = (slot, run) ∷ rest.before;
          slot = rest.slot;
          run = rest.run;
          after = rest.after;
          published = rest.published;
          is_there = ap (λ l. (slot, run) ∷ l) rest.is_there;
          others = ((e, rest.others.0), rest.others.1);
        }
    | inr (c, e) ↦
        let h' : c ∷ live_in states m ≡ channel ∷ [] = rw (live_in, e) at h in
        record {
          before = [];
          slot = slot;
          run = run;
          after = m;
          is_there = refl;
          published = cc (e, h');
          others = (tt, none_live-Silent m (cc (h')));
        }
  ]

  live_in_only :
      (before after : List (ℕ × ℕ)) (slot run channel : ℕ)
      → states run ≡ some channel
      → All Silent before
      → All Silent after
      → live_in states (before ++ (slot, run) ∷ after) ≡ channel ∷ []
  unfolding live_in
  live_in_only [] after slot run channel e b a = rw (live_in, e, Silent-none_live after a) refl
  live_in_only ((i, r) ∷ before) after slot run channel e b a =
      rw (live_in, b.0) (live_in_only before after slot run channel e b.1 a)

  OnlyLive-one_live :
      (m : List (ℕ × ℕ)) (channel : ℕ) → OnlyLive m channel → live_in states m ≡ channel ∷ []
  OnlyLive-one_live m channel o =
      ap (live_in states) o.is_there
      ∙ live_in_only o.before o.after o.slot o.run channel o.published o.others.0 o.others.1

-- What makes a delivery: a text that is not blank, one live conversation, and its channel's taking the text as it was
-- given.
pub record Delivers (mpsc : Mpsc) (arguments : Result String String) (s : SessionState)
    (states : RunStates) (w w' : mpsc.State) : Type 0 where
  pub words : String
  pub channel : ℕ
  pub given : arguments ≡ ok words
  pub not_blank : is_empty (trim words) ≡ false
  pub only_one : OnlyLive states s.runs channel
  pub taken : mpsc.send channel words w ≡ ok w'

module _ (mpsc : Mpsc) where
  sent_or-ok :
      (r : Result String mpsc.State) (w w' : mpsc.State) → sent_or mpsc r w ≡ ok w' → r ≡ ok w'
  sent_or-ok (ok v) w w' h = ap ok (cc (h))
  sent_or-ok (err e) w w' h = absurd (cc)

  send_to-ok :
      (l : List ℕ) (t : String) (w w' : mpsc.State)
      → send_to mpsc l t w ≡ ok w'
      → (channel : ℕ) × (l ≡ channel ∷ []) × (mpsc.send channel t w ≡ ok w')
  unfolding send_to
  send_to-ok [] t w w' h = absurd (cc)
  send_to-ok (c ∷ []) t w w' h = (c, refl, sent_or-ok (mpsc.send c t w) w w' h)
  send_to-ok (c ∷ d ∷ l) t w w' h = absurd (cc)

  delivered :
      (t : String) (s : SessionState) (states : RunStates) (w w' : mpsc.State)
      → send_text mpsc t s states w ≡ ok w'
      → Delivers mpsc (ok t) s states w w'
  unfolding send_text live_routers
  delivered t s states w w' h = elim (Bool-cases (is_empty (trim t))) [
    | inl e ↦ absurd (cc (rw (send_text, e) at h))
    | inr e ↦
        let (channel, one, taken) =
          send_to-ok (live_in states s.runs) t w w' (rw (send_text, e) at h) in
        record {
          words = t;
          channel = channel;
          given = refl;
          not_blank = e;
          only_one = one_live-OnlyLive states s.runs channel one;
          taken = taken;
        }
  ]

  message_delivered :
      (arguments : Result String String) (s : SessionState) (states : RunStates) (w w' : mpsc.State)
      → send_message mpsc arguments s states w ≡ ok w'
      → Delivers mpsc arguments s states w w'
  unfolding send_message
  message_delivered (ok t) s states w w' h = delivered t s states w w' h
  message_delivered (err e) s states w w' h = absurd (cc)

  delivery :
      (arguments : Result String String) (s : SessionState) (states : RunStates) (w w' : mpsc.State)
      → Delivers mpsc arguments s states w w'
      → send_message mpsc arguments s states w ≡ ok w'
  unfolding send_message send_text live_routers send_to
  delivery arguments s states w w' d =
      rw
        (
          d.given,
          send_text,
          d.not_blank,
          OnlyLive-one_live states s.runs d.channel d.only_one,
          d.taken,
        )
        refl

-- A message is delivered just where its text is not blank, one of the session's runs and no other has a conversation
-- that is live, and the conversation's channel takes the text; the channel then gets the text as it was given, untrimmed.
pub send_message-Delivers :
    (mpsc : Mpsc) (arguments : Result String String) (s : SessionState) (states : RunStates)
    (w w' : mpsc.State)
    → (send_message mpsc arguments s states w ≡ ok w') ↔ Delivers mpsc arguments s states w w'
send_message-Delivers mpsc arguments s states w w' =
    (message_delivered mpsc arguments s states w w', delivery mpsc arguments s states w w')
