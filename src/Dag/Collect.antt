-- ===== src/Dag/Collect.antt =====
-- The maps that are collected from the steps.
use kuromaku.Prelude.{
  ℕ, zero, suc, String, ◌≡◌, refl, sym, ap, ◌∙◌, ◌⊎◌, inl, inr, some, List, [], ◌∷◌, length, Member,
  Distinct, Assoc, keys, lookup, insert, lookup-insert, str_eq_refl, str-cases, arith,
}
use kuromaku.Prelude.Maps.{insert_key, insert-Distinct}
use kuromaku.Config.{Step}
use kuromaku.Dag.{ids, collect, free_keys}

pub Member-ids : (s : Step) (ss : List Step) → Member s ss → Member s.id (ids ss)
Member-ids s [] m = absurd m
Member-ids s (t ∷ ts) (inl e) = inl (ap (λ (x : Step). x.id) e)
Member-ids s (t ∷ ts) (inr m) = inr (Member-ids s ts m)

pub ids-Member :
    (k : String) (ss : List Step) → Member k (ids ss) → (s : Step) × Member s ss × (s.id ≡ k)
ids-Member k [] m = absurd m
ids-Member k (t ∷ ts) (inl e) = (t, inl refl, sym e)
ids-Member k (t ∷ ts) (inr m) = let (s, n, e) = ids-Member k ts m in (s, inr n, e)

pub length-ids : (ss : List Step) → length (ids ss) ≡ length ss
length-ids [] = refl
length-ids (s ∷ ss) = omega (arith, length-ids ss)

-- With distinct ids a step is known by its id.
pub same_step :
    (s t : Step) (ss : List Step)
    → Distinct (ids ss)
    → Member s ss
    → Member t ss
    → s.id ≡ t.id
    → s ≡ t
same_step s t [] d m n e = absurd m
same_step s t (u ∷ us) d (inl a) (inl b) e = cc
same_step s t (u ∷ us) d (inl a) (inr n) e =
    absurd (d.0 (rw (← ap (λ (x : Step). x.id) a, e) (Member-ids t us n)))
same_step s t (u ∷ us) d (inr m) (inl b) e =
    absurd (d.0 (rw (← ap (λ (x : Step). x.id) b, ← e) (Member-ids s us m)))
same_step s t (u ∷ us) d (inr m) (inr n) e = same_step s t us d.1 m n e

module _ {V : Type 0} (f : Step → V) where
  collect-other :
      (k : String) (ss : List Step) (m : Assoc V)
      → ¬ Member k (ids ss)
      → lookup k (collect f ss m) ≡ lookup k m
  unfolding collect
  collect-other k [] m h = refl
  collect-other k (s ∷ ss) m h =
      collect-other k ss (insert s.id (f s) m) (λ n. h (inr n))
      ∙ lookup-insert s.id k (f s) m
      ∙ (elim (str-cases k s.id) [ inl e ↦ absurd (h (inl e.1)) | inr e ↦ rw e refl ])

  pub lookup-collect :
      (s : Step) (ss : List Step) (m : Assoc V)
      → Distinct (ids ss)
      → Member s ss
      → lookup s.id (collect f ss m) ≡ some (f s)
  unfolding collect
  lookup-collect s [] m d n = absurd n
  lookup-collect s (t ∷ ts) m d (inr n) = lookup-collect s ts (insert t.id (f t) m) d.1 n
  lookup-collect s (t ∷ ts) m d (inl e) = rw e (
      collect-other t.id ts (insert t.id (f t) m) d.0
      ∙ lookup-insert t.id t.id (f t) m
      ∙ rw (str_eq_refl t.id) refl)

  pub collect-Distinct :
      (ss : List Step) (m : Assoc V) → Distinct (keys m) → Distinct (keys (collect f ss m))
  unfolding collect
  collect-Distinct [] m d = d
  collect-Distinct (s ∷ ss) m d =
      collect-Distinct ss (insert s.id (f s) m) (insert-Distinct s.id (f s) m d)

  pub keys-collect :
      (k : String) (ss : List Step) (m : Assoc V)
      → Member k (keys (collect f ss m))
      → Member k (keys m) ⊎ Member k (ids ss)
  unfolding collect
  keys-collect k [] m h = inl h
  keys-collect k (s ∷ ss) m h = elim (keys-collect k ss (insert s.id (f s) m) h) [
    | inr n ↦ inr (inr n)
    | inl n ↦ elim (insert_key s.id k (f s) m n) [ inl e ↦ inr (inl e) | inr old ↦ inl old ]
  ]

pub free_keys-keys : (k : String) (m : Assoc ℕ) → Member k (free_keys m) → Member k (keys m)
unfolding free_keys
free_keys-keys k [] h = h
free_keys-keys k ((j, zero) ∷ m) (inl e) = inl e
free_keys-keys k ((j, zero) ∷ m) (inr h) = inr (free_keys-keys k m h)
free_keys-keys k ((j, suc n) ∷ m) h = inr (free_keys-keys k m h)

pub free_keys-Distinct : (m : Assoc ℕ) → Distinct (keys m) → Distinct (free_keys m)
unfolding free_keys
free_keys-Distinct [] d = d
free_keys-Distinct ((j, zero) ∷ m) d = ((λ h. d.0 (free_keys-keys j m h)), free_keys-Distinct m d.1)
free_keys-Distinct ((j, suc n) ∷ m) d = free_keys-Distinct m d.1

pub Member-free_keys :
    (k : String) (m : Assoc ℕ) → Distinct (keys m) → Member k (free_keys m) → lookup k m ≡ some 0
unfolding free_keys lookup
Member-free_keys k [] d h = absurd h
Member-free_keys k ((j, zero) ∷ m) d h = elim (str-cases k j) [
  | inl e ↦ rw e.0 refl
  | inr e ↦ elim h [
    | inl same ↦ absurd (cc (e, same, str_eq_refl k))
    | inr n ↦ rw e (Member-free_keys k m d.1 n)
  ]
]
Member-free_keys k ((j, suc n) ∷ m) d h = elim (str-cases k j) [
  | inl e ↦ absurd (d.0 (rw (← e.1) (free_keys-keys k m h)))
  | inr e ↦ rw e (Member-free_keys k m d.1 h)
]

pub lookup-free_keys : (k : String) (m : Assoc ℕ) → lookup k m ≡ some 0 → Member k (free_keys m)
unfolding free_keys lookup
lookup-free_keys k [] h = cc
lookup-free_keys k ((j, zero) ∷ m) h = elim (str-cases k j) [
  | inl e ↦ inl e.1
  | inr e ↦ inr (lookup-free_keys k m (rw e at h))
]
lookup-free_keys k ((j, suc n) ∷ m) h = elim (str-cases k j) [
  | inl e ↦ absurd (ground (arith, rw e.0 at h))
  | inr e ↦ lookup-free_keys k m (rw e at h)
]
