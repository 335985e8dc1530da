-- ===== src/Go/Strings.antt =====
-- strings: `Split` at a separator of one character, `ReplaceAll` of a character by nothing.
use Prim.Native.Char.{Char, code}
use kvm_service.Prelude.{ℕ, String, List, [], ◌∷◌, ◌==◌, nat_eq, if◌then◌else◌}

-- A character in front of the first piece.
abbrev pub onto_first : Char → List String → List String
onto_first c [] = String.◌∷◌ c String.[] ∷ []
onto_first c (p ∷ ps) = String.◌∷◌ c p ∷ ps

-- `strings.Split(s, sep)`; there is one piece more than there are separators.
unfoldable pub split : ℕ → String → List String
split sep String.[] = String.[] ∷ []
split sep (String.◌∷◌ c s) =
    let pieces = split sep s in if code c == sep then String.[] ∷ pieces else onto_first c pieces

-- `strings.ReplaceAll(s, c, "")`
unfoldable pub remove_all : ℕ → String → String
remove_all ch String.[] = String.[]
remove_all ch (String.◌∷◌ c s) =
    let rest = remove_all ch s in if code c == ch then rest else String.◌∷◌ c rest

-- The last element of a nonempty slice, `s[len(s)-1]`.
abbrev pub last_piece : List String → String
last_piece [] = ""
last_piece (p ∷ []) = p
last_piece (p ∷ q ∷ ps) = last_piece (q ∷ ps)

-- `strings.Split(s, sep)[0]`
abbrev pub first_piece : List String → String
first_piece [] = ""
first_piece (p ∷ ps) = p
