-- ===== src/Dag/Spec.antt =====
-- What an order of a flow's steps is, and what a cycle in them is.
use kuromaku.Prelude.{String, ◌≡◌, ◌↔◌, ◌++◌, List, [], ◌∷◌, All, Member, Distinct}
use kuromaku.Prelude.Text.{join}
use kuromaku.Config.{Step}
use kuromaku.Dag.{ids}

-- Each step stands behind all that it needs; `seen` has run before.
abbrev pub Ordered : List String → List Step → Type 0
Ordered seen [] = Unit
Ordered seen (s ∷ ss) = All (λ d. Member d seen) s.needs × Ordered (s.id ∷ seen) ss

-- The steps of the flow, each once, in an order in which they can run.
pub record IsOrder (steps order : List Step) : Type 0 where
  pub ordered : Ordered [] order
  pub distinct : Distinct (ids order)
  pub same : (s : Step) → Member s order ↔ Member s steps

-- The step `a` needs `b`.
abbrev pub Needs : List Step → String → String → Type 0
Needs steps a b = (s : Step) × Member s steps × (s.id ≡ a) × Member b s.needs

-- Each step on the way needs the next.
abbrev pub Chain : List Step → List String → Type 0
Chain steps [] = Unit
Chain steps (a ∷ []) = Unit
Chain steps (a ∷ b ∷ rest) = Needs steps a b × Chain steps (b ∷ rest)

-- A way from a step along its needs back to itself.
pub record IsCycle (steps : List Step) (way : List String) : Type 0 where
  pub at : String
  pub between : List String
  pub closed : way ≡ at ∷ (between ++ at ∷ [])
  pub chain : Chain steps way

-- The text names a cycle.
abbrev pub NamesCycle : List Step → String → Type 0
NamesCycle steps text = (way : List String) × (text ≡ join " -> " way) × IsCycle steps way
