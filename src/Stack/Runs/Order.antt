-- ===== src/Stack/Runs/Order.antt =====
-- What read_run of src/stack.rs makes of the steps of a run, in whatever order the directory lists the files.
use kuromaku.Prelude.{
  ℕ, ◌^◌, ◌<◌, String, ◌≡◌, refl, sym, ap, ◌∙◌, inl, inr, true, false, Option, none, some, List, [],
  ◌∷◌, ◌++◌, All, append_assoc, map, leb, Bool-cases, if◌then◌else◌, arith,
}
use kuromaku.Prelude.Result.{Result, ok, err}
use kuromaku.Runner.Graph.Model.{StepRecord, StoredStep, StackError}
use kuromaku.Runner.Graph.Disk.{step_meta_filename}
use kuromaku.Stack.Runs.{
  RunDirectory, RunStepOutput, running, done, contents, passes, wanted, record_in, with_meta,
  read_metas, read_outputs, insert_by_order, sort_by_order, collect_run_steps, read_run,
}
use kuromaku.Stack.Runs.Names.{wanted-step_meta_filename}

-- A record with its number, and its place in the order.
abbrev Meta : Type 0
Meta = ℕ × StepRecord

abbrev After : ℕ → Meta → Type 0
After n m = n < m.0

-- The numbers grow.
abbrev pub Ascending : List Meta → Type 0
Ascending [] = Unit
Ascending (m ∷ ms) = All (After m.0) ms × Ascending ms

insert_first : (m : Meta) (ms : List Meta) → All (After m.0) ms → insert_by_order m ms ≡ m ∷ ms
unfolding insert_by_order
insert_first m [] a = refl
insert_first m (k ∷ ks) a = let below : leb m.0 k.0 ≡ true = ground (arith, a.0) in rw below refl

insert_behind :
    (m k : Meta) (ms : List Meta)
    → After m.0 k
    → insert_by_order k (m ∷ ms) ≡ m ∷ insert_by_order k ms
unfolding insert_by_order
insert_behind m k ms a = let above : leb k.0 m.0 ≡ false = ground (arith, a) in rw above refl

All-insert :
    (P : Meta → Type 0) (m : Meta) (ms : List Meta) → All P (insert_by_order m ms) → P m × All P ms
unfolding insert_by_order
All-insert P m [] h = h
All-insert P m (k ∷ ks) h = elim (Bool-cases (leb m.0 k.0)) [
  | inl e ↦ rw e at h
  | inr e ↦
      let h' : P k × All P (insert_by_order m ks) = rw e at h in
      let (first, rest) = All-insert P m ks h'.1 in (first, (h'.0, rest))
]

-- The record with the least number comes first, wherever it stands.
sort_least :
    (m : Meta) (before after : List Meta)
    → All (After m.0) (sort_by_order (before ++ after))
    → sort_by_order (before ++ m ∷ after) ≡ m ∷ sort_by_order (before ++ after)
unfolding sort_by_order
sort_least m [] after above = insert_first m (sort_by_order after) above
sort_least m (k ∷ before) after above =
    let (k_above, rest) = All-insert (After m.0) k (sort_by_order (before ++ after)) above in
    ap (insert_by_order k) (sort_least m before after rest)
    ∙ insert_behind m k (sort_by_order (before ++ after)) k_above

abbrev pub keyed : StoredStep → Meta
keyed s = (s.number, s.entry)

abbrev pub output : StoredStep → RunStepOutput
output s = record { step_id = s.entry.step_id; content = some s.content }

module _ (from_yaml : String → Result String StepRecord) (dir : RunDirectory)
    (filter : Option String) where
  -- A step whose two files can be read, and that the filter lets through.
  pub record Readable (s : StoredStep) : Type 0 where
    pub meta : record_in from_yaml dir (step_meta_filename s.number s.entry.step_id) ≡ ok s.entry
    pub content : dir.file s.entry.output_file ≡ contents s.content
    pub bounded : s.number < 2 ^ 32
    pub let_through : passes filter s.entry.step_id ≡ true

  -- The names are those of the steps' meta files and of other files, in any order.
  pub data Listed : List StoredStep → List String → Type 0 where
    none_left : Listed [] []
    other_file :
        {steps : List StoredStep} {names : List String} (name : String) (before after : List String)
        → names ≡ before ++ name ∷ after
        → wanted filter name ≡ none
        → Listed steps (before ++ after)
        → Listed steps names
    step_file :
        {steps : List StoredStep} {names : List String} (s : StoredStep)
        (before after : List String)
        → names ≡ before ++ step_meta_filename s.number s.entry.step_id ∷ after
        → Readable s
        → Listed steps (before ++ after)
        → Listed (s ∷ steps) names

  other_skipped :
      (name : String) (before after : List String)
      → wanted filter name ≡ none
      → read_metas from_yaml dir filter (before ++ name ∷ after)
        ≡ read_metas from_yaml dir filter (before ++ after)
  unfolding read_metas
  other_skipped name [] after e = rw e refl
  other_skipped name (b ∷ before) after e =
      ap (with_meta from_yaml dir (wanted filter b) (record_in from_yaml dir b))
        (other_skipped name before after e)

  -- What one name adds stands before what the others give.
  with_meta-ok :
      (o : Option ℕ) (r : Result StackError StepRecord) (rest : Result StackError (List Meta))
      (ms : List Meta)
      → with_meta from_yaml dir o r rest ≡ ok ms
      → (head : List Meta) × (tail : List Meta) × (rest ≡ ok tail)
        × (ms ≡ head ++ tail)
        × ((l : List Meta) → with_meta from_yaml dir o r (ok l) ≡ ok (head ++ l))
  with_meta-ok none r rest ms h = ([], ms, h, refl, λ l. refl)
  with_meta-ok (some n) (ok rec) (ok tail) ms h = ((n, rec) ∷ [], tail, refl, cc (h), λ l. refl)
  with_meta-ok (some n) (ok rec) (err e) ms h = absurd (cc)
  with_meta-ok (some n) (err e) rest ms h = absurd (cc)

  step_added :
      (name : String) (n : ℕ) (rec : StepRecord) (before after : List String) (ms : List Meta)
      → wanted filter name ≡ some n
      → record_in from_yaml dir name ≡ ok rec
      → read_metas from_yaml dir filter (before ++ after) ≡ ok ms
      → (front : List Meta) × (back : List Meta) × (ms ≡ front ++ back)
        × (read_metas from_yaml dir filter (before ++ name ∷ after) ≡ ok (front ++ (n, rec) ∷ back))
  unfolding read_metas
  step_added name n rec [] after ms e r h = ([], ms, refl, rw (e, r, h) refl)
  step_added name n rec (b ∷ before) after ms e r h =
      let (head, tail, reads, whole, with_tail) =
        with_meta-ok (wanted filter b) (record_in from_yaml dir b)
          (read_metas from_yaml dir filter (before ++ after)) ms h in
      let (front, back, parts, added) = step_added name n rec before after tail e r reads in
      (
        head ++ front,
        back,
        whole ∙ ap (λ t. head ++ t) parts ∙ sym (append_assoc head front back),
        ap (with_meta from_yaml dir (wanted filter b) (record_in from_yaml dir b)) added
            ∙ with_tail (front ++ (n, rec) ∷ back)
            ∙ ap ok (sym (append_assoc head front ((n, rec) ∷ back))),
      )

  found_in_order :
      {steps : List StoredStep} {names : List String}
      → Listed steps names
      → Ascending (map keyed steps)
      → (ms : List Meta) × (read_metas from_yaml dir filter names ≡ ok ms)
        × (sort_by_order ms ≡ map keyed steps)
  unfolding read_metas sort_by_order
  found_in_order none_left up = ([], refl, refl)
  found_in_order (other_file name before after e other rest) up =
      let (ms, reads, sorted) = found_in_order rest up in
      (
        ms,
        ap (read_metas from_yaml dir filter) e ∙ other_skipped name before after other ∙ reads,
        sorted,
      )
  found_in_order (step_file s before after e readable rest) up =
      let (ms, reads, sorted) = found_in_order rest up.1 in
      let name = step_meta_filename s.number s.entry.step_id in
      let is_wanted : wanted filter name ≡ some s.number =
        wanted-step_meta_filename filter s.number s.entry.step_id readable.bounded
        ∙ rw readable.let_through refl in
      let (front, back, parts, added) =
        step_added name s.number s.entry before after ms is_wanted readable.meta reads in
      let together = ap sort_by_order (sym parts) ∙ sorted in
      (
        front ++ keyed s ∷ back,
        ap (read_metas from_yaml dir filter) e ∙ added,
        sort_least (keyed s) front back (rw together up.0) ∙ ap (λ l. keyed s ∷ l) together,
      )

  outputs_read :
      {steps : List StoredStep} {names : List String}
      → Listed steps names
      → read_outputs from_yaml dir (map keyed steps) ≡ ok (map output steps)
  unfolding read_outputs
  outputs_read none_left = refl
  outputs_read (other_file name before after e other rest) = outputs_read rest
  outputs_read (step_file s before after e readable rest) =
      rw (readable.content, outputs_read rest) refl

-- A run is read with its steps in the order of their numbers and with their contents, whatever the order in which the
-- directory lists the files, and whatever other files stand in it.
pub read_run-InOrder :
    (from_yaml : String → Result String StepRecord) (dir : RunDirectory) (filter : Option String)
    (run_id : String) (steps : List StoredStep) (names : List String)
    → dir.is_dir ≡ true
    → dir.listing ≡ some (ok names)
    → Listed from_yaml dir filter steps names
    → Ascending (map keyed steps)
    → read_run from_yaml dir run_id filter
      ≡ ok (record {
        run_id = run_id;
        status = (if dir.has_manifest then done else running);
        steps = map output steps;
      })
unfolding read_run collect_run_steps
read_run-InOrder from_yaml dir filter run_id steps names there lists listed up =
    let (ms, reads, sorted) = found_in_order from_yaml dir filter listed up in
    rw (there, lists, reads, sorted, outputs_read from_yaml dir filter listed) refl
