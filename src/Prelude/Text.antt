-- ===== src/Prelude/Text.antt =====
-- Methods of String.prototype that the program calls with a fixed text, by recursion on characters.
use Prim.Native.Char.{Char, code}
use Prim.Native.Nat.{ℕ}
use Prim.Native.String.{String}
use Prim.Native.String
use mathlib.Core.Bool.{Bool, true, false, ◌&&◌, ◌||◌}
use mathlib.Core.List.{List, [], ◌∷◌}
use nest_rest_backend_templa.Prelude.Tests.{if◌then◌else◌}
use nest_rest_backend_templa.Prelude.Equality.{◌==◌, nat_eq}

-- text.startsWith(start)
abbrev pub starts_with : (text start : String) → Bool
starts_with text String.[] = true
starts_with String.[] (String.◌∷◌ d start) = false
starts_with (String.◌∷◌ c text) (String.◌∷◌ d start) = code c == code d && starts_with text start

-- text.slice(start.length) of a text that starts so
abbrev pub drop_start : (text start : String) → String
drop_start text String.[] = text
drop_start String.[] (String.◌∷◌ d start) = ""
drop_start (String.◌∷◌ c text) (String.◌∷◌ d start) = drop_start text start

-- text.includes(separator), of a separator of one character
unfoldable pub has_char : (separator : ℕ) → String → Bool
has_char separator String.[] = false
has_char separator (String.◌∷◌ c text) = code c == separator || has_char separator text

abbrev pub add_to_first : Char → List String → List String
add_to_first c [] = String.◌∷◌ c "" ∷ []
add_to_first c (part ∷ parts) = String.◌∷◌ c part ∷ parts

-- text.split(separator), of a separator of one character
unfoldable pub split : (separator : ℕ) → String → List String
split separator String.[] = "" ∷ []
split separator (String.◌∷◌ c text) =
    let parts = split separator text in
    if code c == separator then "" ∷ parts else add_to_first c parts

-- parts.slice(0, -1).join(separator), of a separator of one character
unfoldable pub join_but_last : (separator : Char) → List String → String
join_but_last separator [] = ""
join_but_last separator (part ∷ []) = ""
join_but_last separator (part ∷ last ∷ []) = part
join_but_last separator (part ∷ next ∷ more ∷ parts) =
    String.◌++◌ part (String.◌∷◌ separator (join_but_last separator (next ∷ more ∷ parts)))

-- parts.at(-1)
unfoldable pub last_part : List String → String
last_part [] = ""
last_part (part ∷ []) = part
last_part (part ∷ next ∷ parts) = last_part (next ∷ parts)
