-- ===== src/Core/GraphFlow/Laws.antt =====
-- Reading back what was written, for the entries of a `next:` list and for the version.
use kuromaku.Prelude.{String, ◌≡◌, refl, Option, none, some, List, [], ◌∷◌}
use kuromaku.Prelude.Result.{ok}
use kuromaku.Core.GraphFlow.{
  SelectEntry, SelectReason, single, list, strings, string_values, reason_value, deserialize_entry,
  serialize_entry,
}

strings-string_values : (v : List String) → strings (string_values v) ≡ ok v
unfolding strings string_values
strings-string_values [] = refl
strings-string_values (s ∷ ss) = rw (strings-string_values ss)

reason-round_trip :
    (t : String) (r : Option SelectReason)
    → deserialize_entry (reason_value t r) ≡ ok (record { target = t; reason = r })
unfolding deserialize_entry
reason-round_trip t none = refl
reason-round_trip t (some (single s)) = refl
reason-round_trip t (some (list v)) = rw (strings-string_values v)

-- An entry that is written is read back as the same entry, whatever its target and reasons are.
pub deserialize-serialize : (e : SelectEntry) → deserialize_entry (serialize_entry e) ≡ ok e
unfolding serialize_entry
deserialize-serialize e = reason-round_trip e.target e.reason
