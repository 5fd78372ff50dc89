-- ===== src/Runner/Decision/Utf8.antt =====
-- The bytes of a Rust `String`.
use Prim.Native.Char.{code}
use kuromaku.Prelude.{ℕ, ◌+◌, ◌/◌, ◌%◌, String, [], ◌∷◌, ◌++◌, ltb, if◌then◌else◌}
use kuromaku.Runner.Decision.{Bytes}

-- The UTF-8 form of one code point.
unfoldable pub encode : ℕ → Bytes
encode c =
    if ltb c 0x80
    then c ∷ []
    else if ltb c 0x800
    then (0xC0 + c / 0x40) ∷ (0x80 + c % 0x40) ∷ []
    else if ltb c 0x10000
    then (0xE0 + c / 0x1000) ∷ (0x80 + c / 0x40 % 0x40) ∷ (0x80 + c % 0x40) ∷ []
    else (0xF0 + c / 0x40000)
      ∷ (0x80 + c / 0x1000 % 0x40)
      ∷ (0x80 + c / 0x40 % 0x40)
      ∷ (0x80 + c % 0x40)
      ∷ []

unfoldable pub utf8 : String → Bytes
unfolding encode
utf8 String.[] = []
utf8 (String.◌∷◌ c s) = encode (code c) ++ utf8 s
