-- ===== src/Messaging/Router/Convergence/Speakers.antt =====
-- The agents that the map of the latest results knows.
use kuromaku.Prelude.{
  String, ◌≡◌, refl, inl, inr, true, some, List, [], ◌∷◌, All, Member, length, Assoc, keys, lookup,
  insert, str_eq_refl, str_eq_iff, str-cases, arith,
}
use kuromaku.Prelude.Text.{trim}
use kuromaku.Messaging.Router.{all_done, done_text}

pub insert-inside :
    (agents : List String) (k s : String) (m : Assoc String)
    → Member k agents
    → All (λ j. Member j agents) (keys m)
    → All (λ j. Member j agents) (keys (insert k s m))
unfolding insert
insert-inside agents k s [] n h = (n, tt)
insert-inside agents k s ((i, w) ∷ m) n h = elim (str-cases k i) [
  | inl (t, same) ↦ rw t (n, h.1)
  | inr t ↦ rw t (h.0, insert-inside agents k s m n h.1)
]

pub length-keys : (m : Assoc String) → length (keys m) ≡ length m
length-keys [] = refl
length-keys ((k, s) ∷ m) = omega (arith, length-keys m)

pub all_done-key :
    (k : String) (m : Assoc String)
    → Member k (keys m)
    → all_done m ≡ true
    → (s : String) × (lookup k m ≡ some s) × (trim s ≡ done_text)
unfolding all_done lookup
all_done-key k [] n h = absurd n
all_done-key k ((i, s) ∷ m) n h = elim (str-cases k i) [
  | inl (t, same) ↦ (s, rw t refl, (str_eq_iff (trim s) done_text).0 (ground arith))
  | inr t ↦ elim n [
    | inl e ↦ absurd (cc (str_eq_refl k, t, e))
    | inr later ↦ rw t (all_done-key k m later (ground arith))
  ]
]
