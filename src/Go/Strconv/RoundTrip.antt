-- ===== src/Go/Strconv/RoundTrip.antt =====
-- What `format_uint` writes, `atoi` reads.
use Prim.Native.Char.{Char, code}
use Prim.Native.String.{[], ◌∷◌}
use native.Mathlib.Decide.{dec_lt}
use kvm_service.Prelude.{
  ℕ, zero, suc, ◌+◌, ◌-◌, ◌*◌, ◌/◌, ◌%◌, ◌^◌, ◌<◌, ◌≡◌, refl, sym, ◌∙◌, ap, true, false, String,
  lt→ltb, ◌==◌, nat_eq, arith,
}
use kvm_service.Go.Strconv.{
  pos, digit, is_digit, format_onto, format_uint, read_digits, read_unsigned, signed, atoi,
}
use kvm_service.Go.Strconv.Digits.{code-digit, is_digit-digit, format_onto-small, format_onto-large}

read_digits-step :
    (acc : ℕ) (c : Char) (s : String)
    → is_digit (code c) ≡ true
    → acc * 10 + (code c - b'0') < 2 ^ 64
    → read_digits acc (c ∷ s) ≡ read_digits (acc * 10 + (code c - b'0')) s
unfolding read_digits
read_digits-step acc c s e fits = rw (e, lt→ltb _ (2 ^ 64) fits) refl

read_digits-digit :
    (acc d : ℕ) (s : String)
    → d < 10
    → acc * 10 + d < 2 ^ 64
    → read_digits acc (digit d ∷ s) ≡ read_digits (acc * 10 + d) s
read_digits-digit acc d s h fits =
    let value : acc * 10 + (code (digit d) - b'0') ≡ acc * 10 + d =
      rw (code-digit d h) (omega arith) in
    read_digits-step acc (digit d) s (rw (code-digit d h) (is_digit-digit d h)) (rw value fits)
    ∙ ap (λ x. read_digits x s) value

-- Reading the digits of a number from nothing gives the number.
read_digits-format_onto :
    (f n : ℕ) (rest : String)
    → n < f
    → n < 2 ^ 64
    → read_digits 0 (format_onto f n rest) ≡ read_digits n rest
read_digits-format_onto zero n rest h fits = absurd (omega arith)
read_digits-format_onto (suc f) n rest h fits = elim (dec_lt n 10) [
  | yes small ↦
      rw (format_onto-small f n rest small) (
        read_digits-digit 0 n rest small (omega arith) ∙ ap (λ x. read_digits x rest) (omega arith))
  | no big ↦
      let whole : n / 10 * 10 + n % 10 ≡ n = omega arith in
      rw (format_onto-large f n rest (omega arith)) (
        read_digits-format_onto f (n / 10) (digit (n % 10) ∷ rest) (omega arith) (omega arith)
        ∙ read_digits-digit (n / 10) (n % 10) rest (omega arith) (omega arith)
        ∙ ap (λ x. read_digits x rest) whole)
]

-- A text that begins with a digit.
pub record BeginsWithDigit (s : String) : Type 0 where
  pub first : ℕ
  pub below : first < 10
  pub rest : String
  pub text : s ≡ digit first ∷ rest

format_onto-BeginsWithDigit :
    (f n : ℕ) (rest : String) → n < f → BeginsWithDigit (format_onto f n rest)
format_onto-BeginsWithDigit zero n rest h = absurd (omega arith)
format_onto-BeginsWithDigit (suc f) n rest h = elim (dec_lt n 10) [
  | yes small ↦ record {
    first = n;
    below = small;
    rest = rest;
    text = format_onto-small f n rest small;
  }
  | no big ↦
      let b = format_onto-BeginsWithDigit f (n / 10) (digit (n % 10) ∷ rest) (omega arith) in
      record {
        first = b.first;
        below = b.below;
        rest = b.rest;
        text = format_onto-large f n rest (omega arith) ∙ b.text;
      }
]

-- A text that begins with a digit has no sign.
atoi-digit :
    (d : ℕ) (s : String) → d < 10 → atoi (digit d ∷ s) ≡ signed false (read_digits 0 (digit d ∷ s))
unfolding atoi read_unsigned
atoi-digit d s h =
    let minus : (d + b'0' == b'-') ≡ false = ground arith in
    let plus : (d + b'0' == b'+') ≡ false = ground arith in rw (code-digit d h, minus, plus)

pub atoi-format_uint : (n : ℕ) → n < 2 ^ 63 → atoi (format_uint n) ≡ pos n
unfolding format_uint read_digits signed
atoi-format_uint n h =
    let b = format_onto-BeginsWithDigit (n + 1) n [] (omega arith) in
    ap atoi b.text
    ∙ atoi-digit b.first b.rest b.below
    ∙ ap (λ s. signed false (read_digits 0 s)) (sym b.text)
    ∙ ap (signed false) (read_digits-format_onto (n + 1) n [] (omega arith) (omega arith))
    ∙ (rw (lt→ltb n (2 ^ 63) h))
