-- ===== src/Mcp/Session/Slots.antt =====
-- The slots of src/mcp/session.rs: each run has one of its own.
use kuromaku.Prelude.{
  ℕ, ◌+◌, ◌%◌, ◌^◌, ◌≤◌, ◌<◌, ◌≡◌, refl, ap, ◌∙◌, Bool-cases, inl, inr, true, false, List, [], ◌∷◌,
  ◌++◌, All, ltb, ◌==◌, arith,
}
use kuromaku.Mcp.Session.{SessionState, new, insert_slot, remove_slot, register, deregister}

pub data Request : Type 0 where
  registering : (run : ℕ) → Request
  deregistering : (slot : ℕ) → Request

unfoldable pub serve : Request → SessionState → SessionState
unfolding register deregister
serve (registering run) s = (register run s).1
serve (deregistering slot) s = deregister slot s

unfoldable pub serve_all : List Request → SessionState → SessionState
unfolding serve
serve_all [] s = s
serve_all (r ∷ rs) s = serve_all rs (serve r s)

abbrev pub requests : List Request → ℕ
requests [] = 0
requests (r ∷ rs) = requests rs + 1

-- All slots are below a number.
abbrev Below : ℕ → List (ℕ × ℕ) → Type 0
Below n m = All (λ e. e.0 < n) m

insert_slot_last : (k v : ℕ) (m : List (ℕ × ℕ)) → Below k m → insert_slot k v m ≡ m ++ (k, v) ∷ []
unfolding insert_slot
insert_slot_last k v [] b = refl
insert_slot_last k v ((j, w) ∷ m) b =
    let later = insert_slot_last k v m b.1 in
    let not_less : ltb k j ≡ false = ground (arith, b.0) in
    let not_same : (k == j) ≡ false = ground (arith, b.0) in rw (not_less, not_same, later) refl

remove_slot_last : (k v : ℕ) (m : List (ℕ × ℕ)) → Below k m → remove_slot k (m ++ (k, v) ∷ []) ≡ m
unfolding remove_slot
remove_slot_last k v [] b = let same : (k == k) ≡ true = ground (arith) in rw same refl
remove_slot_last k v ((j, w) ∷ m) b =
    let later = remove_slot_last k v m b.1 in
    let not_same : (k == j) ≡ false = ground (arith, b.0) in rw (not_same, later) refl

remove_slot-Below : (k n : ℕ) (m : List (ℕ × ℕ)) → Below n m → Below n (remove_slot k m)
unfolding remove_slot
remove_slot-Below k n [] b = tt
remove_slot-Below k n ((j, w) ∷ m) b = elim (Bool-cases (k == j)) [
  | inl e ↦ rw e b.1
  | inr e ↦ rw e (b.0, remove_slot-Below k n m b.1)
]

insert_slot-Below : (k v : ℕ) (m : List (ℕ × ℕ)) → Below k m → Below (k + 1) (m ++ (k, v) ∷ [])
insert_slot-Below k v [] b = (omega arith, tt)
insert_slot-Below k v ((j, w) ∷ m) b = (omega (arith, b.0), insert_slot-Below k v m b.1)

-- A session that has seen at most a number of requests.
abbrev Fine : ℕ → SessionState → Type 0
Fine n s = Below s.next_id s.runs × (s.next_id ≤ n)

next_small : (k n : ℕ) → k ≤ n → n + 1 < 2 ^ 64 → (k + 1) % 2 ^ 64 ≡ k + 1
next_small k n le lt = omega (arith)

serve-Fine :
    (r : Request) (n : ℕ) (s : SessionState) → n + 1 < 2 ^ 64 → Fine n s → Fine (n + 1) (serve r s)
unfolding serve register deregister
serve-Fine (registering run) n s lt (below, le) =
    rw (next_small s.next_id n le lt, insert_slot_last s.next_id run s.runs below)
      (insert_slot-Below s.next_id run s.runs below, omega arith)
serve-Fine (deregistering slot) n s lt (below, le) =
    (remove_slot-Below slot s.next_id s.runs below, omega arith)

serve_all-Fine :
    (rs : List Request) (n : ℕ) (s : SessionState)
    → n + requests rs < 2 ^ 64
    → Fine n s
    → Fine (n + requests rs) (serve_all rs s)
unfolding serve_all
serve_all-Fine [] n s lt fine = (fine.0, omega (arith, fine.1))
serve_all-Fine (r ∷ rs) n s lt fine =
    let served =
      serve_all-Fine rs (n + 1) (serve r s) (omega arith) (serve-Fine r n s (omega arith) fine) in
    (served.0, omega (arith, served.1))

-- What registering does to the runs: the new one stands last, under a slot that no other has, and giving the slot back
-- leaves the runs as they were.
abbrev pub Adds : (run : ℕ) → SessionState → Type 0
Adds run s =
    let r = register run s in
    (r.1.runs ≡ s.runs ++ (r.0, run) ∷ [])
    × All (λ e. e.0 < r.0) s.runs
    × ((deregister r.0 r.1).runs ≡ s.runs)

-- After fewer than 2 ^ 64 requests of a session, whichever they were, registering a run puts it behind those that are
-- registered, under a slot greater than theirs, and giving that slot back leaves them as they were.
pub register-Adds :
    (rs : List Request) (run : ℕ) → requests rs < 2 ^ 64 → Adds run (serve_all rs new)
unfolding register deregister
register-Adds rs run lt =
    let s = serve_all rs new in
    let (below, le) = serve_all-Fine rs 0 new (omega arith) (tt, omega arith) in
    let last = insert_slot_last s.next_id run s.runs below in
    (last, below, ap (remove_slot s.next_id) last ∙ remove_slot_last s.next_id run s.runs below)
