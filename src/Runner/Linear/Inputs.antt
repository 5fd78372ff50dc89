-- ===== src/Runner/Linear/Inputs.antt =====
-- The prompt that a step makes of its inputs: build_user_prompt of src/runner/mod.rs.
use kuromaku.Prelude.{
  String, ◌≡◌, refl, sym, ap, ◌∙◌, Option, none, some, List, [], ◌∷◌, All, Member,
}
use package.text.Mathlib.TextLemmas.{append_assoc, append-nil}
use kuromaku.Prelude.Text.{◌<>◌, join}
use kuromaku.Prelude.Result.{ok}
use kuromaku.Config.{Step}
use kuromaku.Runner.Graph.Model.{Disk, World}
use kuromaku.Runner.Graph.Disk.Reading.{Readable}
use kuromaku.Runner.Linear.Steps.{context_part, build_user_prompt, with_parts, with_own_task}
use kuromaku.Runner.Linear.Stored.{
  disk_ids, ListsAll, Restored, Holds, Carries, read_inputs-Carries,
}

pub build_user_prompt-parts :
    (w : World) (task : String) (step : Step) (disk : Disk) (env : w.State)
    → ListsAll w
    → Readable w env
    → Restored w disk
    → All (λ i. Member i (disk_ids disk)) step.input
    → (parts : List String) × (build_user_prompt w task step disk env
        ≡ ok (with_parts parts (with_own_task step.task task)))
      × Carries disk step.input parts
unfolding build_user_prompt
build_user_prompt-parts w task step disk env lists readable restored h =
    let (parts, reads, c) =
      read_inputs-Carries w lists env readable disk step.id step.input restored h in
    (parts, rw (build_user_prompt, reads) refl, c)

-- The inputs stand in the text, one behind the other: each by its id, with the content of a stored step of this id.
abbrev pub HoldsInputs : Disk → List String → String → Type 0
HoldsInputs disk [] rest = Unit
HoldsInputs disk (i ∷ is) rest =
    (content : String) × (before : String) × (after : String) × Holds disk i content
    × (rest ≡ before <> "'" <> i <> "' ---\n" <> content <> after)
    × HoldsInputs disk is after

abbrev pub EndsWithInputs : Disk → List String → String → Type 0
EndsWithInputs disk [] rest = rest ≡ ""
EndsWithInputs disk (i ∷ is) rest = HoldsInputs disk (i ∷ is) rest

-- The text is the flow's task, the step's own task if it has one, and the rest.
abbrev pub Tasked : (task : String) → (own : Option String) → (rest text : String) → Type 0
Tasked task none rest text = text ≡ task <> rest
Tasked task (some own) rest text = text ≡ task <> "\n\nYour task: " <> own <> rest

Holds-behind :
    (disk : Disk) (is : List String) (p rest : String)
    → HoldsInputs disk is rest
    → HoldsInputs disk is (p <> rest)
Holds-behind disk [] p rest h = tt
Holds-behind disk (i ∷ is) p rest (content, before, after, held, e, h) =
    (content, p <> before, after, held, ap (λ r. p <> r) e ∙ sym (append_assoc p before _), h)

part_flat :
    (i content tail : String)
    → context_part i content <> tail
      ≡ "--- Output from step " <> "'" <> i <> "' ---\n" <> content <> "\n---" <> tail
unfolding context_part
part_flat i content tail =
    append_assoc "--- Output from step '" (i <> "' ---\n" <> content <> "\n---") tail
    ∙ ap (λ r. "--- Output from step '" <> r)
        (append_assoc i ("' ---\n" <> content <> "\n---") tail
          ∙ ap (λ r. i <> r)
              (append_assoc "' ---\n" (content <> "\n---") tail
                ∙ ap (λ r. "' ---\n" <> r) (append_assoc content "\n---" tail)))
    ∙ append_assoc "--- Output from step " "'" (i <> "' ---\n" <> content <> "\n---" <> tail)

Carries-Holds :
    (disk : Disk) (is ps : List String) (tail : String)
    → Carries disk is ps
    → HoldsInputs disk is (join "\n\n" ps <> tail)
unfolding join
Carries-Holds disk [] ps tail c = tt
Carries-Holds disk (i ∷ is) [] tail c = absurd c
Carries-Holds disk (i ∷ []) (p ∷ []) tail ((content, held, e), c) = (
  content,
  "--- Output from step ",
  "\n---" <> tail,
  held,
  ap (λ q. q <> tail) e ∙ part_flat i content tail,
  tt,
)
Carries-Holds disk (i ∷ []) (p ∷ q ∷ ps) tail (first, c) = absurd c
Carries-Holds disk (i ∷ j ∷ is) (p ∷ []) tail (first, c) = absurd c
Carries-Holds disk (i ∷ j ∷ is) (p ∷ q ∷ ps) tail ((content, held, e), c) =
    let later = join "\n\n" (q ∷ ps) <> tail in
    (
      content,
      "--- Output from step ",
      "\n---" <> "\n\n" <> later,
      held,
      append_assoc p ("\n\n" <> join "\n\n" (q ∷ ps)) tail
          ∙ ap (λ r. p <> r) (append_assoc "\n\n" (join "\n\n" (q ∷ ps)) tail)
          ∙ ap (λ r. r <> "\n\n" <> later) e
          ∙ part_flat i content ("\n\n" <> later),
      Holds-behind disk (j ∷ is) "\n---" ("\n\n" <> later)
          (Holds-behind disk (j ∷ is) "\n\n" later (Carries-Holds disk (j ∷ is) (q ∷ ps) tail c)),
    )

with_parts-EndsWithInputs :
    (disk : Disk) (is ps : List String) (text : String)
    → Carries disk is ps
    → (rest : String) × (with_parts ps text ≡ text <> rest) × EndsWithInputs disk is rest
with_parts-EndsWithInputs disk [] [] text c = ("", sym (append-nil text), refl)
with_parts-EndsWithInputs disk [] (p ∷ ps) text c = absurd c
with_parts-EndsWithInputs disk (i ∷ is) [] text c = absurd c
with_parts-EndsWithInputs disk (i ∷ is) (p ∷ ps) text c =
    (_, refl, Holds-behind disk (i ∷ is) _ _ (Carries-Holds disk (i ∷ is) (p ∷ ps) _ c))

with_own_task-Tasked :
    (own : Option String) (task rest : String)
    → Tasked task own rest (with_own_task own task <> rest)
with_own_task-Tasked none task rest = refl
with_own_task-Tasked (some own) task rest =
    append_assoc task ("\n\nYour task: " <> own) rest
    ∙ ap (λ r. task <> r) (append_assoc "\n\nYour task: " own rest)

-- Where the steps that a step takes its input from have their records on the disk, the directory lists
-- what is there, it and its files can be read, and YAML gives the records back, the step's prompt is the
-- flow's task, then the step's own task if it has one, and then, in their order, its inputs, each by
-- its id and with the whole of what the output file of a record with this id holds. Without inputs
-- nothing follows the tasks.
pub build_user_prompt-Carries :
    (w : World) (task : String) (step : Step) (disk : Disk) (env : w.State)
    → ListsAll w
    → Readable w env
    → Restored w disk
    → All (λ i. Member i (disk_ids disk)) step.input
    → (text : String) × (rest : String) × (build_user_prompt w task step disk env ≡ ok text)
      × Tasked task step.task rest text
      × EndsWithInputs disk step.input rest
build_user_prompt-Carries w task step disk env lists readable restored h =
    let (parts, made, c) = build_user_prompt-parts w task step disk env lists readable restored h in
    let (rest, e, ends) =
      with_parts-EndsWithInputs disk step.input parts (with_own_task step.task task) c in
    (
      with_own_task step.task task <> rest,
      rest,
      made ∙ ap ok e,
      with_own_task-Tasked step.task task rest,
      ends,
    )
