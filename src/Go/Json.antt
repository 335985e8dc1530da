-- ===== src/Go/Json.antt =====
-- encoding/json at the type []uint16, in which the label maps are stored. A nil slice is none.
-- The reader is one pass over the text; it takes white space between tokens, and an element null
-- as 0, as the package does. Every other value, and a number past 65535, is an error.
pub mod RoundTrip
use Prim.Native.Char.{Char, code}
use Prim.Native.String.{[] as empty, ◌∷◌ as push}
use kvm_service.Prelude.{
  ℕ, ◌+◌, ◌-◌, ◌*◌, ◌^◌, Bool, true, false, ◌&&◌, ◌||◌, Option, none, some, String, List, [], ◌∷◌,
  ◌++◌, ltb, ◌==◌, nat_eq, if◌then◌else◌,
}
use kvm_service.Go.Strconv.{format_onto, is_digit}

-- The elements after the bracket, up to the closing one.
elements : ℕ → List ℕ → String
unfolding format_onto
elements x [] = format_onto (x + 1) x "]"
elements x (y ∷ ys) = format_onto (x + 1) x (push "," (elements y ys))

-- `json.Marshal`
unfoldable pub marshal_ids : Option (List ℕ) → String
unfolding elements
marshal_ids none = "null"
marshal_ids (some []) = "[]"
marshal_ids (some (x ∷ xs)) = push "[" (elements x xs)

pub data Mode : Type 0 where
  -- before the value; after `[`; after a comma; after an element; after the value
  start opened element after closed : Mode
  -- after the value null
  closed_null : Mode
  -- in a number: after a leading 0, and with the value read so far
  leading_zero : Mode
  number : ℕ → Mode
  -- in null, with the letters left, as the value or as an element
  letters : ℕ → Bool → Mode

is_space : ℕ → Bool
is_space c = c == 0x20 || c == 0x09 || c == 0x0a || c == 0x0d

-- What may follow an element.
separate : List ℕ → ℕ → Option (Mode × List ℕ)
unfolding is_space
separate ids c =
    if is_space c
    then some (after, ids)
    else if c == b','
    then some (element, ids)
    else if c == b']'
    then some (closed, ids)
    else none

-- What begins an element.
begin : List ℕ → ℕ → Option (Mode × List ℕ)
begin ids c =
    if c == b'0'
    then some (leading_zero, ids)
    else if is_digit c
    then some (number (c - b'0'), ids)
    else if c == b'n'
    then some (letters 3 false, ids)
    else none

-- The letters of null behind the first, by how many are left.
letter : ℕ → ℕ
letter left = if left == 3 then b'u' else b'l'

step : Mode → List ℕ → ℕ → Option (Mode × List ℕ)
unfolding is_space separate begin letter
step start ids c =
    if is_space c
    then some (start, ids)
    else if c == b'['
    then some (opened, ids)
    else if c == b'n'
    then some (letters 3 true, ids)
    else none
step opened ids c =
    if is_space c then some (opened, ids) else if c == b']' then some (closed, ids) else begin ids c
step element ids c = if is_space c then some (element, ids) else begin ids c
step after ids c = separate ids c
step closed ids c = if is_space c then some (closed, ids) else none
step closed_null ids c = if is_space c then some (closed_null, ids) else none
step leading_zero ids c = separate (ids ++ 0 ∷ []) c
step (number v) ids c =
    if is_digit c
    then if ltb (v * 10 + (c - b'0')) (2 ^ 16)
      then some (number (v * 10 + (c - b'0')), ids)
      else none
    else separate (ids ++ v ∷ []) c
step (letters left top) ids c =
    if c == letter left
    then if left == 1
      then if top then some (closed_null, ids) else some (after, ids ++ 0 ∷ [])
      else some (letters (left - 1) top, ids)
    else none

finish : Mode → List ℕ → Option (Option (List ℕ))
finish closed ids = some (some ids)
finish closed_null ids = some none
finish _ ids = none

read_from : Mode → List ℕ → String → Option (Option (List ℕ))
unfolding step finish
read_from mode ids (String.[]) = finish mode ids
read_from mode ids (String.◌∷◌ c s) = elim (step mode ids (code c)) [
  | none ↦ none
  | some (mode', ids') ↦ read_from mode' ids' s
]

-- `json.Unmarshal` into a []uint16; none is an error.
unfoldable pub unmarshal_ids : String → Option (Option (List ℕ))
unfolding read_from
unmarshal_ids = read_from start []
