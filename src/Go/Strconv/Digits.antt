-- ===== src/Go/Strconv/Digits.antt =====
-- The digits that `format_onto` writes.
use Prim.Native.Char.{Char, code}
use Prim.Native.String.{◌∷◌}
use kvm_service.Prelude.{
  ℕ, zero, suc, ◌+◌, ◌/◌, ◌%◌, ◌≤◌, ◌<◌, ◌≡◌, ◌≢◌, refl, sym, ◌∙◌, subst, true, String, ltb, ltb→lt,
  Bool-cases, inl, inr, lt→ltb, le→not-ltb, arith,
}
use kvm_service.Go.Strconv.{digit, is_digit, format_onto, format_uint}

pub code-digit : (d : ℕ) → d < 10 → code (digit d) ≡ d + b'0'
unfolding digit
code-digit zero h = refl
code-digit (suc zero) h = refl
code-digit (suc (suc zero)) h = refl
code-digit (suc (suc (suc zero))) h = refl
code-digit (suc (suc (suc (suc zero)))) h = refl
code-digit (suc (suc (suc (suc (suc zero))))) h = refl
code-digit (suc (suc (suc (suc (suc (suc zero)))))) h = refl
code-digit (suc (suc (suc (suc (suc (suc (suc zero))))))) h = refl
code-digit (suc (suc (suc (suc (suc (suc (suc (suc zero)))))))) h = refl
code-digit (suc (suc (suc (suc (suc (suc (suc (suc (suc zero))))))))) h = refl
code-digit (suc (suc (suc (suc (suc (suc (suc (suc (suc (suc n)))))))))) h = absurd (omega arith)

pub is_digit-digit : (d : ℕ) → d < 10 → is_digit (d + b'0') ≡ true
is_digit-digit d h = ground arith

pub format_onto-small :
    (f n : ℕ) (rest : String) → n < 10 → format_onto (suc f) n rest ≡ digit n ∷ rest
unfolding format_onto
format_onto-small f n rest h = let same : n % 10 ≡ n = omega arith in rw (lt→ltb n 10 h) (rw same)

pub format_onto-large :
    (f n : ℕ) (rest : String)
    → 10 ≤ n
    → format_onto (suc f) n rest ≡ format_onto f (n / 10) (digit (n % 10) ∷ rest)
unfolding format_onto
format_onto-large f n rest h = rw (le→not-ltb n 10 h)

-- The text of a number has a digit.
format_onto-nonempty : (f n : ℕ) (c : Char) (rest : String) → format_onto f n (c ∷ rest) ≢ ""
unfolding format_onto
format_onto-nonempty zero n c rest h = cc
format_onto-nonempty (suc f) n c rest h = elim (Bool-cases (ltb n 10)) [
  | inl e ↦ let q : (digit (n % 10) ∷ (c ∷ rest)) ≡ "" = rw e at h in cc
  | inr e ↦ format_onto-nonempty f (n / 10) (digit (n % 10)) (c ∷ rest) (rw e at h)
]

pub format_uint-nonempty : (n : ℕ) → format_uint n ≢ ""
unfolding format_uint
format_uint-nonempty n h =
    let more : n + 1 ≡ suc n = omega arith in
    let e : format_onto (suc n) n "" ≡ "" = subst (λ f. format_onto f n "" ≡ "") more h in
    elim (Bool-cases (ltb n 10)) [
      | inl small ↦
          let q : (digit n ∷ "") ≡ "" = sym (format_onto-small n n "" (ltb→lt n 10 small)) ∙ e in cc
      | inr large ↦
          format_onto-nonempty n (n / 10) (digit (n % 10)) ""
            (sym (format_onto-large n n "" (ground arith)) ∙ e)
    ]
