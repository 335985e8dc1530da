-- ===== src/Go/Strconv.antt =====
-- strconv: the decimal text of an unsigned number, and the reading of a signed one.
pub mod Digits
pub mod RoundTrip
use Prim.Native.Char.{Char, code}
use Prim.Native.String.{[], ◌∷◌}
use kvm_service.Prelude.{
  ℕ, zero, suc, ◌+◌, ◌-◌, ◌*◌, ◌/◌, ◌%◌, ◌^◌, Bool, true, false, ◌&&◌, not, Option, none, some,
  String, ltb, leb, ◌==◌, nat_eq, if◌then◌else◌,
}

-- The digit of a number below ten.
unfoldable pub digit : ℕ → Char
digit zero = "0"
digit (suc zero) = "1"
digit (suc (suc zero)) = "2"
digit (suc (suc (suc zero))) = "3"
digit (suc (suc (suc (suc zero)))) = "4"
digit (suc (suc (suc (suc (suc zero))))) = "5"
digit (suc (suc (suc (suc (suc (suc zero)))))) = "6"
digit (suc (suc (suc (suc (suc (suc (suc zero))))))) = "7"
digit (suc (suc (suc (suc (suc (suc (suc (suc zero)))))))) = "8"
digit _ = "9"

abbrev pub is_digit : ℕ → Bool
is_digit c = leb b'0' c && leb c b'9'

-- The decimal text of a number in front of a text. One round writes one digit; a number has no
-- more digits than its own value plus one.
unfoldable pub format_onto : ℕ → ℕ → String → String
unfolding digit
format_onto zero n rest = rest
format_onto (suc f) n rest =
    let longer = format_onto f (n / 10) (digit (n % 10) ∷ rest) in
    if ltb n 10 then digit (n % 10) ∷ rest else longer

-- `strconv.Itoa(int(n))` and `strconv.FormatUint(uint64(n), 10)`
unfoldable pub format_uint : ℕ → String
unfolding format_onto
format_uint n = format_onto (n + 1) n []

-- `negsuc n` is -(n + 1).
pub data ℤ : Type 0 where
  pos : ℕ → ℤ
  negsuc : ℕ → ℤ

-- The loop of `strconv.ParseUint`: the value of a text of digits, after those already read; none at
-- any other character. At a value that does not fit a uint64 it ends at once, with the greatest one
-- that does, and reads no further.
unfoldable pub read_digits : ℕ → String → Option ℕ
read_digits acc [] = some acc
read_digits acc (c ∷ s) =
    let next = acc * 10 + (code c - b'0') in
    let later = read_digits next s in
    if not (is_digit (code c)) then none else if ltb next (2 ^ 64) then later else some (2 ^ 64 - 1)

-- A text of one digit or more.
read_unsigned : String → Option ℕ
unfolding read_digits
read_unsigned [] = none
read_unsigned (c ∷ s) = read_digits 0 (c ∷ s)

abbrev negate : ℕ → ℤ
negate zero = pos 0
negate (suc n) = negsuc n

-- What does not fit an int64 is replaced by the nearest value that does.
abbrev clamp : Bool → ℕ → ℤ
clamp true n = negate (if ltb (2 ^ 63) n then 2 ^ 63 else n)
clamp false n = pos (if ltb n (2 ^ 63) then n else 2 ^ 63 - 1)

signed : Bool → Option ℕ → ℤ
signed minus none = pos 0
signed minus (some n) = clamp minus n

-- The number that `strconv.Atoi` returns beside its error, which the program drops: 0 on a text
-- that is no number.
unfoldable pub atoi : String → ℤ
unfolding read_unsigned signed
atoi [] = pos 0
atoi (c ∷ s) =
    if code c == b'-'
    then signed true (read_unsigned s)
    else if code c == b'+'
    then signed false (read_unsigned s)
    else signed false (read_unsigned (c ∷ s))

-- `uint16(n)` of an int
abbrev pub to_uint16 : ℤ → ℕ
to_uint16 (pos n) = n % 2 ^ 16
to_uint16 (negsuc n) = 2 ^ 16 - 1 - n % 2 ^ 16
