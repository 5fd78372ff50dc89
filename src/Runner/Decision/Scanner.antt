-- ===== src/Runner/Decision/Scanner.antt =====
-- A scanner without indices, and that the loop of `top_level_json_objects` computes the same blocks.
use kuromaku.Prelude.{
  ℕ, zero, suc, ◌-◌, ◌≡◌, refl, sym, ap, ◌∙◌, Bool, true, false, none, some, List, [], ◌∷◌, ◌++◌,
  append-nil, append_assoc, length, length-append, ◌==◌, if◌then◌else◌, arith,
}
use kuromaku.Runner.Decision.{
  Bytes, open_brace, close_brace, quote, backslash, take, drop, slice, Scan, scan_byte, scan_inside,
  scan, top_level_json_objects,
}

-- Where the scanner stands; the depth counts the open braces but the outermost.
pub data Mode : Type 0 where
  outside : Mode
  code : ℕ → Mode
  text : ℕ → Mode
  escape : ℕ → Mode

abbrev up : ℕ → Mode
up zero = outside
up (suc d) = code d

abbrev pub next : Mode → ℕ → Mode
next outside b = if b == open_brace then code 0 else outside
next (code d) b =
    if b == quote
    then text d
    else if b == open_brace
    then code (suc d)
    else if b == close_brace
    then up d
    else code d
next (text d) b = if b == backslash then escape d else if b == quote then code d else text d
next (escape d) b = text d

abbrev pub closes : Mode → ℕ → Bool
closes (code zero) b = b == close_brace
closes _ b = false

abbrev pub collect : Mode → Bytes → ℕ → Bytes
collect outside acc b = []
collect _ acc b = acc ++ b ∷ []

-- The blocks from here on; `acc` is what the open block holds so far.
unfoldable pub objects : Mode → Bytes → Bytes → List Bytes
objects m acc [] = []
objects m acc (b ∷ bs) =
    let rest = objects (next m b) (collect (next m b) acc b) bs in
    if closes m b then (acc ++ b ∷ []) ∷ rest else rest

-- The loop's variables in a mode.
abbrev at : Mode → ℕ → List Bytes → Scan
at outside first out = record {
  start = none;
  depth = 0;
  in_string = false;
  escaped = false;
  out = out;
}
at (code d) first out = record {
  start = some first;
  depth = suc d;
  in_string = false;
  escaped = false;
  out = out;
}
at (text d) first out = record {
  start = some first;
  depth = suc d;
  in_string = true;
  escaped = false;
  out = out;
}
at (escape d) first out = record {
  start = some first;
  depth = suc d;
  in_string = true;
  escaped = true;
  out = out;
}

abbrev began : Mode → ℕ → ℕ → ℕ
began outside idx first = idx
began _ idx first = first

abbrev emit : Bytes → Mode → ℕ → ℕ → ℕ → List Bytes → List Bytes
emit raw m first idx b out = if closes m b then out ++ slice raw first idx ∷ [] else out

scan_byte-at :
    (raw : Bytes) (m : Mode) (first idx b : ℕ) (out : List Bytes)
    → scan_byte raw idx b (at m first out)
      ≡ at (next m b) (began m idx first) (emit raw m first idx b out)
unfolding scan_byte scan_inside
scan_byte-at raw outside first idx b out = ground arith
scan_byte-at raw (code zero) first idx b out = ground arith
scan_byte-at raw (code (suc d)) first idx b out = ground arith
scan_byte-at raw (text d) first idx b out = ground arith
scan_byte-at raw (escape d) first idx b out = ground arith

module _ {ℓ} {A : Type ℓ} where
  drop-length : (xs ys : List A) → drop (length xs) (xs ++ ys) ≡ ys
  unfolding drop
  drop-length [] ys = refl
  drop-length (x ∷ xs) ys = drop-length xs ys

  take-length : (xs ys : List A) → take (length xs) (xs ++ ys) ≡ xs
  unfolding take
  take-length [] ys = refl
  take-length (x ∷ xs) ys = ap (◌∷◌ x) (take-length xs ys)

slice-block :
    (head acc : Bytes) (b : ℕ) (bs : Bytes)
    → slice ((head ++ acc) ++ b ∷ bs) (length head) (length (head ++ acc)) ≡ acc ++ b ∷ []
unfolding slice
slice-block head acc b bs =
    let count : suc (length (head ++ acc)) - length head ≡ length (acc ++ b ∷ []) =
      omega (arith, length-append head acc, length-append acc (b ∷ [])) in
    let whole : (head ++ acc) ++ b ∷ bs ≡ head ++ ((acc ++ b ∷ []) ++ bs) =
      append_assoc head acc (b ∷ bs) ∙ ap (◌++◌ head) (sym (append_assoc acc (b ∷ []) bs)) in
    rw (count, whole, drop-length head ((acc ++ b ∷ []) ++ bs)) (take-length (acc ++ b ∷ []) bs)

-- The open block began behind `head`; outside there is none.
abbrev From : Mode → ℕ → Bytes → Bytes → Type 0
From outside first head acc = acc ≡ []
From _ first head acc = first ≡ length head

record Located (m : Mode) (first : ℕ) (pre acc : Bytes) : Type 0 where
  head : Bytes
  split : pre ≡ head ++ acc
  from : From m first head acc

-- A byte inside a block is appended to it.
Located-grow :
    (m : Mode) (first : ℕ) (pre acc : Bytes) (b : ℕ)
    → (head : Bytes) → pre ≡ head ++ acc
    → pre ++ b ∷ [] ≡ head ++ (acc ++ b ∷ [])
Located-grow m first pre acc b head split = rw split (append_assoc head acc (b ∷ []))

Located-outside : (first : ℕ) (pre : Bytes) → Located outside first pre []
Located-outside first pre = record { head = pre; split = sym (append-nil pre); from = refl }

Located-inside :
    (m : Mode) (first : ℕ) (pre acc : Bytes) (b : ℕ) (head : Bytes)
    → pre ≡ head ++ acc
    → first ≡ length head
    → Located m first (pre ++ b ∷ []) (collect m acc b)
Located-inside outside first pre acc b head split from = Located-outside first (pre ++ b ∷ [])
Located-inside (code d) first pre acc b head split from = record {
  head = head;
  split = Located-grow (code d) first pre acc b head split;
  from = from;
}
Located-inside (text d) first pre acc b head split from = record {
  head = head;
  split = Located-grow (text d) first pre acc b head split;
  from = from;
}
Located-inside (escape d) first pre acc b head split from = record {
  head = head;
  split = Located-grow (escape d) first pre acc b head split;
  from = from;
}

Located-next :
    (m : Mode) (first : ℕ) (pre acc : Bytes) (b : ℕ)
    → Located m first pre acc
    → Located (next m b) (began m (length pre) first) (pre ++ b ∷ []) (collect (next m b) acc b)
Located-next outside first pre acc b l =
    Located-inside (next outside b) (length pre) pre acc b pre (rw l.from (sym (append-nil pre)))
      refl
Located-next (code d) first pre acc b l =
    Located-inside (next (code d) b) first pre acc b l.head l.split l.from
Located-next (text d) first pre acc b l =
    Located-inside (next (text d) b) first pre acc b l.head l.split l.from
Located-next (escape d) first pre acc b l =
    Located-inside (text d) first pre acc b l.head l.split l.from

-- A block that closes is the slice that the loop takes.
emit-block :
    (raw : Bytes) (m : Mode) (first : ℕ) (pre acc : Bytes) (b : ℕ) (bs : Bytes) (out : List Bytes)
    → raw ≡ pre ++ b ∷ bs
    → Located m first pre acc
    → emit raw m first (length pre) b out
      ≡ (if closes m b then out ++ (acc ++ b ∷ []) ∷ [] else out)
emit-block raw (code zero) first pre acc b bs out whole l =
    let sliced : slice raw first (length pre) ≡ acc ++ b ∷ [] =
      rw (whole, l.split, l.from) (slice-block l.head acc b bs) in
    rw sliced
emit-block raw outside first pre acc b bs out whole l = refl
emit-block raw (code (suc d)) first pre acc b bs out whole l = refl
emit-block raw (text d) first pre acc b bs out whole l = refl
emit-block raw (escape d) first pre acc b bs out whole l = refl

emitted :
    (done : Bool) (out : List Bytes) (block : Bytes) (rest : List Bytes)
    → (if done then out ++ block ∷ [] else out) ++ rest
      ≡ out ++ (if done then block ∷ rest else rest)
emitted true out block rest = append_assoc out (block ∷ []) rest
emitted false out block rest = refl

scan-objects :
    (raw : Bytes) (bytes : Bytes) (m : Mode) (first : ℕ) (pre acc : Bytes) (out : List Bytes)
    → raw ≡ pre ++ bytes
    → Located m first pre acc
    → (scan raw (length pre) bytes (at m first out)).out ≡ out ++ objects m acc bytes
unfolding scan objects
scan-objects raw [] outside first pre acc out whole l = sym (append-nil out)
scan-objects raw [] (code d) first pre acc out whole l = sym (append-nil out)
scan-objects raw [] (text d) first pre acc out whole l = sym (append-nil out)
scan-objects raw [] (escape d) first pre acc out whole l = sym (append-nil out)
scan-objects raw (b ∷ bs) m first pre acc out whole l =
    let out' = if closes m b then out ++ (acc ++ b ∷ []) ∷ [] else out in
    let ih =
      scan-objects raw bs (next m b) (began m (length pre) first) (pre ++ b ∷ [])
        (collect (next m b) acc b) out' (whole ∙ sym (append_assoc pre (b ∷ []) bs))
        (Located-next m first pre acc b l) in
    let longer : length (pre ++ b ∷ []) ≡ suc (length pre) =
      omega (arith, length-append pre (b ∷ [])) in
    let stepped : scan_byte raw (length pre) b (at m first out)
        ≡ at (next m b) (began m (length pre) first) out' =
      scan_byte-at raw m first (length pre) b out
      ∙ ap (at (next m b) (began m (length pre) first))
          (emit-block raw m first pre acc b bs out whole l) in
    ap (λ s. (scan raw (suc (length pre)) bs s).out) stepped
    ∙ ap (λ n. (scan raw n bs (at (next m b) (began m (length pre) first) out')).out) (sym longer)
    ∙ ih
    ∙ emitted (closes m b) out (acc ++ b ∷ []) (objects (next m b) (collect (next m b) acc b) bs)

-- `top_level_json_objects`, which keeps indices into the reply, a depth and two flags, returns the
-- blocks that the scanner by modes collects byte by byte.
pub top_level-objects : (raw : Bytes) → top_level_json_objects raw ≡ objects outside [] raw
unfolding top_level_json_objects
top_level-objects raw = scan-objects raw raw outside 0 [] [] [] refl (Located-outside 0 [])
