-- ===== src/Prelude/Maps.antt =====
-- The keys of a map into which an entry is put.
use kuromaku.Prelude.{
  String, ◌≡◌, refl, false, subst, none, if◌then◌else◌, lookup, Bool-cases, str_eq, ◌⊎◌, inl, inr,
  [], ◌∷◌, Member, Distinct, Assoc, keys, insert, str_eq_refl, str-cases,
}

pub insert_key :
    {V : Type 0} (k j : String) (s : V) (m : Assoc V)
    → Member j (keys (insert k s m))
    → (j ≡ k) ⊎ Member j (keys m)
unfolding insert
insert_key k j s [] (inl e) = inl e
insert_key k j s [] (inr bad) = absurd bad
insert_key k j s ((i, w) ∷ m) n = elim (str-cases k i) [
  | inl (t, same) ↦
      let n' : (j ≡ k) ⊎ Member j (keys m) = rw t at n in
      elim n' [ inl e ↦ inl e | inr later ↦ inr (inr later) ]
  | inr t ↦
      let n' : (j ≡ i) ⊎ Member j (keys (insert k s m)) = rw t at n in
      elim n' [
        | inl e ↦ inr (inl e)
        | inr later ↦ elim (insert_key k j s m later) [ inl e ↦ inl e | inr old ↦ inr (inr old) ]
      ]
]

pub insert-Distinct :
    {V : Type 0} (k : String) (s : V) (m : Assoc V)
    → Distinct (keys m)
    → Distinct (keys (insert k s m))
unfolding insert
insert-Distinct k s [] d = ((λ bad. bad), tt)
insert-Distinct k s ((i, w) ∷ m) d = elim (str-cases k i) [
  | inl (t, same) ↦ rw t ((λ n. d.0 (subst (λ x. Member x (keys m)) same n)), d.1)
  | inr t ↦ rw t (
    (λ n. elim (insert_key k i s m n) [ inl e ↦ cc (str_eq_refl k, t, e) | inr old ↦ d.0 old ]),
    insert-Distinct k s m d.1,
  )
]

-- `HashMap::remove`, for the map that stays.
unfoldable pub remove_key : {V : Type 0} → String → Assoc V → Assoc V
remove_key k [] = []
remove_key k ((j, v) ∷ m) = let rest = remove_key k m in if str_eq k j then rest else (j, v) ∷ rest

pub lookup-remove_key :
    {V : Type 0} (k j : String) (m : Assoc V)
    → str_eq j k ≡ false
    → lookup j (remove_key k m) ≡ lookup j m
unfolding lookup remove_key
lookup-remove_key k j [] h = refl
lookup-remove_key k j ((i, v) ∷ m) h = elim (str-cases k i) [
  | inr e ↦ rw (e, lookup-remove_key k j m h) refl
  | inl (e, same) ↦
      let other : str_eq j i ≡ false = subst (λ x. str_eq j x ≡ false) same h in
      rw (e, other) (lookup-remove_key k j m h)
]

pub lookup-removed : {V : Type 0} (k : String) (m : Assoc V) → lookup k (remove_key k m) ≡ none
unfolding lookup remove_key
lookup-removed k [] = refl
lookup-removed k ((i, v) ∷ m) = elim (Bool-cases (str_eq k i)) [
  | inl e ↦ rw e (lookup-removed k m)
  | inr e ↦ rw (e, e) (lookup-removed k m)
]
