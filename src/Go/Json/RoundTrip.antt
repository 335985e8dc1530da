-- ===== src/Go/Json/RoundTrip.antt =====
-- What `marshal_ids` writes, `unmarshal_ids` reads.
use Prim.Native.Char.{Char, code}
use Prim.Native.Nat.add
use Prim.Native.String.{◌∷◌ as push}
use kvm_service.Prelude.{
  ℕ, zero, suc, ◌+◌, ◌-◌, ◌*◌, ◌/◌, ◌%◌, ◌^◌, ◌<◌, ◌≡◌, refl, ◌∙◌, ap, some, none, String, List, [],
  ◌∷◌, ◌++◌, All, lt→ltb, nat_eq, arith,
}
use native.Mathlib.Decide.{dec_lt}
use mathlib.Core.List.{append_assoc}
use kvm_service.Go.Strconv.{digit, format_onto}
use kvm_service.Go.Strconv.Digits.{code-digit, is_digit-digit, format_onto-small, format_onto-large}
use kvm_service.Go.Json.{
  Mode, start, opened, element, leading_zero, number, elements, marshal_ids, step, read_from,
  unmarshal_ids,
}

-- A mode in which a nonzero digit begins a number.
abbrev Begins : Mode → Type 0
Begins m = (ids : List ℕ) (d : ℕ) → 0 < d → d < 10 → step m ids (d + b'0') ≡ some (number d, ids)

opened-Begins : Begins opened
unfolding step
opened-Begins ids d h k = ground arith

element-Begins : Begins element
unfolding step
element-Begins ids d h k = ground arith

-- One more digit.
step-number :
    (v d : ℕ) (ids : List ℕ)
    → d < 10
    → v * 10 + d < 2 ^ 16
    → step (number v) ids (d + b'0') ≡ some (number (v * 10 + d), ids)
unfolding step
step-number v d ids h k =
    ground (arith, is_digit-digit d h, lt→ltb (v * 10 + (d + 48 - 48)) (2 ^ 16) (omega arith))

read_from-step :
    (m : Mode) (ids : List ℕ) (c : Char) (s : String) {m' : Mode} {ids' : List ℕ}
    → step m ids (code c) ≡ some (m', ids')
    → read_from m ids (push c s) ≡ read_from m' ids' s
unfolding read_from
read_from-step m ids c s e = rw (e, read_from)

-- Reading a nonzero number leaves the number in the mode.
read_from-format_onto :
    (m : Mode) (ids : List ℕ) (f n : ℕ) (rest : String)
    → Begins m
    → 0 < n
    → n < f
    → n < 2 ^ 16
    → read_from m ids (format_onto f n rest) ≡ read_from (number n) ids rest
read_from-format_onto m ids zero n rest b pos h k = absurd (omega arith)
read_from-format_onto m ids (suc f) n rest b pos h k = elim (dec_lt n 10) [
  | yes small ↦
      rw (format_onto-small f n rest small)
        (read_from-step m ids (digit n) rest (rw (code-digit n small) (b ids n pos small)))
  | no big ↦
      let d = n % 10 in
      let next : step (number (n / 10)) ids (d + b'0') ≡ some (number (n / 10 * 10 + d), ids) =
        step-number (n / 10) d ids (omega arith) (omega arith) in
      let whole : n / 10 * 10 + d ≡ n = omega arith in
      rw (format_onto-large f n rest (omega arith)) (
        read_from-format_onto m ids f (n / 10) (push (digit d) rest) b (omega arith) (omega arith)
          (omega arith)
        ∙ read_from-step (number (n / 10)) ids (digit d) rest
            (rw (code-digit d (omega arith)) (next ∙ ap (λ v. some (number v, ids)) whole)))
]

-- The mode behind the digits of a number.
abbrev ending : ℕ → Mode
ending zero = leading_zero
ending (suc n) = number (suc n)

-- A mode in which the digit 0 begins a number.
abbrev BeginsZero : Mode → Type 0
BeginsZero m = (ids : List ℕ) → step m ids b'0' ≡ some (leading_zero, ids)

read_from-number :
    (m : Mode) (ids : List ℕ) (n : ℕ) (rest : String)
    → Begins m
    → BeginsZero m
    → n < 2 ^ 16
    → read_from m ids (format_onto (n + 1) n rest) ≡ read_from (ending n) ids rest
read_from-number m ids zero rest b z k =
    rw (add.zero 1, format_onto-small 0 0 rest (omega arith))
      (read_from-step m ids (digit 0) rest (rw (code-digit 0 (omega arith)) (z ids)))
read_from-number m ids (suc n) rest b z k =
    read_from-format_onto m ids (suc n + 1) (suc n) rest b (omega arith) (omega arith) k

read_from-comma :
    (n : ℕ) (ids : List ℕ) (s : String)
    → read_from (ending n) ids (push "," s) ≡ read_from element (ids ++ n ∷ []) s
unfolding read_from step
read_from-comma zero ids s = refl
read_from-comma (suc n) ids s = refl

read_from-bracket :
    (n : ℕ) (ids : List ℕ) → read_from (ending n) ids "]" ≡ some (some (ids ++ n ∷ []))
unfolding read_from step
read_from-bracket zero ids = refl
read_from-bracket (suc n) ids = refl

read_from-elements :
    (m : Mode) (ids : List ℕ) (x : ℕ) (xs : List ℕ)
    → Begins m
    → BeginsZero m
    → All (λ n. n < 2 ^ 16) (x ∷ xs)
    → read_from m ids (elements x xs) ≡ some (some (ids ++ x ∷ xs))
unfolding elements step
read_from-elements m ids x [] b z (h, _) =
    read_from-number m ids x "]" b z h ∙ read_from-bracket x ids
read_from-elements m ids x (y ∷ ys) b z (h, t) =
    read_from-number m ids x (push "," (elements y ys)) b z h
    ∙ read_from-comma x ids (elements y ys)
    ∙ read_from-elements element (ids ++ x ∷ []) y ys element-Begins element-BeginsZero t
    ∙ ap (λ l. some (some l)) (append_assoc ids (x ∷ []) (y ∷ ys))
  where
    element-BeginsZero : BeginsZero element
    element-BeginsZero ids' = refl

opened-BeginsZero : BeginsZero opened
unfolding step
opened-BeginsZero ids = refl

-- The reader gives back a list of uint16 values that the writer wrote.
pub unmarshal_ids-marshal_ids :
    (ids : List ℕ)
    → All (λ n. n < 2 ^ 16) ids
    → unmarshal_ids (marshal_ids (some ids)) ≡ some (some ids)
unfolding unmarshal_ids marshal_ids
unmarshal_ids-marshal_ids [] h = refl
unmarshal_ids-marshal_ids (x ∷ xs) h =
    read_from-step start [] "[" (elements x xs) refl
    ∙ read_from-elements opened [] x xs opened-Begins opened-BeginsZero h

-- So is a nil slice.
pub unmarshal_ids-null : unmarshal_ids (marshal_ids none) ≡ some none
unfolding unmarshal_ids marshal_ids
unmarshal_ids-null = refl
