-- ===== src/Executor/Local/Told.antt =====
-- What the lines of a child say, and a process that has been told it, apart from the readers of
-- src/executor/local.rs.
use kuromaku.Prelude.{String, ◌≡◌, refl, sym, ap, ◌∙◌, Option, none, some, List, [], ◌∷◌, ◌++◌}
use package.text.Mathlib.TextLemmas.{append_assoc, append-nil, nil-append}
use kuromaku.Prelude.Text.{◌<>◌}
use kuromaku.Messaging.Router.{Fragment, text, tool_use, result}
use kuromaku.Executor.Stream.{Json, parse_line}
use kuromaku.Executor.Local.Readers.{append_to, write_fragment, write_fragments}
use kuromaku.Executor.Local.Model.{OutputFormat, raw, claude_stream_json, RunningProcess}

-- The texts of the fragments, one after the other.
abbrev pub texts : List Fragment → String
texts [] = ""
texts (text s ∷ fs) = s <> texts fs
texts (tool_use name ∷ fs) = texts fs
texts (result s ∷ fs) = texts fs

-- A later value, or an earlier one.
abbrev pub later : Option String → Option String → Option String
later none earlier = earlier
later (some s) earlier = some s

abbrev pub last_result : List Fragment → Option String
last_result [] = none
last_result (text s ∷ fs) = last_result fs
last_result (tool_use name ∷ fs) = last_result fs
last_result (result s ∷ fs) = later (last_result fs) (some s)

-- The lines, each with its end.
abbrev pub with_ends : List String → String
with_ends [] = ""
with_ends (line ∷ ls) = line <> "\n" <> with_ends ls

abbrev pub fragments : (String → Option Json) → List String → List Fragment
fragments from_str [] = []
fragments from_str (line ∷ ls) = parse_line from_str line ++ fragments from_str ls

module _ (from_str : String → Option Json) where
  -- What the lines say to a reader of the artifact.
  abbrev pub said : OutputFormat → List String → String
  said raw ls = with_ends ls
  said claude_stream_json ls = texts (fragments from_str ls)

  abbrev pub answered : OutputFormat → List String → Option String
  answered raw ls = none
  answered claude_stream_json ls = last_result (fragments from_str ls)

-- A process that a reader has told more.
abbrev pub told : String → Option String → RunningProcess → RunningProcess
told s r p = record p {
  stdout_buf = p.stdout_buf <> s;
  file = append_to p.file s;
  result_override = later r p.result_override;
}

abbrev pub heard : String → RunningProcess → RunningProcess
heard s p = record p { stderr_buf = p.stderr_buf <> s }

-- A process whose reader of the one or of the other has no line left.
abbrev pub no_stdout : RunningProcess → RunningProcess
no_stdout p = record p { stdout_left = [] }

abbrev pub no_stderr : RunningProcess → RunningProcess
no_stderr p = record p { stderr_left = [] }

append_to-nil : (o : Option String) → append_to o "" ≡ o
append_to-nil none = refl
append_to-nil (some s) = ap some (append-nil s)

append_to_twice :
    (o : Option String) (s t : String) → append_to (append_to o s) t ≡ append_to o (s <> t)
append_to_twice none s t = refl
append_to_twice (some w) s t = ap some (append_assoc w s t)

later_twice : (a b c : Option String) → later a (later b c) ≡ later (later a b) c
later_twice none b c = refl
later_twice (some s) b c = refl

pub later-none : (o : Option String) → later o none ≡ o
later-none none = refl
later-none (some s) = refl

later-some :
    (o : Option String) (s : String) (c : Option String)
    → later o (some s) ≡ later (later o (some s)) c
later-some none s c = refl
later-some (some t) s c = refl

pub told_nothing : (p : RunningProcess) → told "" none p ≡ p
told_nothing p = rw (append-nil p.stdout_buf, append_to-nil p.file) refl

pub told_twice :
    (s t : String) (a b : Option String) (p : RunningProcess)
    → told t b (told s a p) ≡ told (s <> t) (later b a) p
told_twice s t a b p =
    rw
      (append_assoc p.stdout_buf s t, append_to_twice p.file s t, later_twice b a p.result_override)
      refl

pub heard_nothing : (p : RunningProcess) → heard "" p ≡ p
heard_nothing p = rw (append-nil p.stderr_buf) refl

pub heard_twice : (s t : String) (p : RunningProcess) → heard t (heard s p) ≡ heard (s <> t) p
heard_twice s t p = rw (append_assoc p.stderr_buf s t) refl

pub texts-append : (fs gs : List Fragment) → texts (fs ++ gs) ≡ texts fs <> texts gs
texts-append [] gs = sym (nil-append (texts gs))
texts-append (text s ∷ fs) gs =
    ap (λ t. s <> t) (texts-append fs gs) ∙ sym (append_assoc s (texts fs) (texts gs))
texts-append (tool_use name ∷ fs) gs = texts-append fs gs
texts-append (result s ∷ fs) gs = texts-append fs gs

pub last_result-append :
    (fs gs : List Fragment) → last_result (fs ++ gs) ≡ later (last_result gs) (last_result fs)
last_result-append [] gs = sym (later-none (last_result gs))
last_result-append (text s ∷ fs) gs = last_result-append fs gs
last_result-append (tool_use name ∷ fs) gs = last_result-append fs gs
last_result-append (result s ∷ fs) gs =
    ap (λ o. later o (some s)) (last_result-append fs gs)
    ∙ sym (later_twice (last_result gs) (last_result fs) (some s))

pub write_fragments-told :
    (fs : List Fragment) (p : RunningProcess)
    → write_fragments fs p ≡ told (texts fs) (last_result fs) p
unfolding write_fragments write_fragment
write_fragments-told [] p = sym (told_nothing p)
write_fragments-told (text s ∷ fs) p =
    write_fragments-told fs (told s none p)
    ∙ told_twice s (texts fs) none (last_result fs) p
    ∙ ap (λ r. told (s <> texts fs) r p) (later-none (last_result fs))
write_fragments-told (tool_use name ∷ fs) p = write_fragments-told fs p
write_fragments-told (result s ∷ fs) p =
    write_fragments-told fs (record p { result_override = some s })
    ∙ ap
        (λ r. record p {
          stdout_buf = p.stdout_buf <> texts fs;
          file = append_to p.file (texts fs);
          result_override = r;
        })
        (later-some (last_result fs) s p.result_override)
