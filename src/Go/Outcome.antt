-- ===== src/Go/Outcome.antt =====
-- What a Go function does to the state: it returns, `log.Fatal` ends the process, or it panics.
-- What was written before the end stays written, so the state comes back in every case.
pub mod Rules
use kvm_service.Prelude.{◌≡◌, refl, ◌⊎◌, inl, inr, String, List, [], ◌∷◌}

pub data Exit : Type 0 where
  -- `log.Fatal` with its message
  fatal : Exit
  -- a nil dereference or an index out of range
  panicked : Exit
  -- a send on a channel that is nil, or that nobody receives from
  blocked : Exit
  -- the loop has not ended within the rounds that the model runs
  running : Exit

pub data Outcome {ℓ κ} (S : Type ℓ) (A : Type κ) : Type (ℓ ⊔ κ) where
  done : A → S → Outcome S A
  exit : Exit → S → Outcome S A

-- A call that may fail with a Go `error`, whose text is kept.
pub data Result {ℓ} (A : Type ℓ) : Type ℓ where
  err : String → Result A
  ok : A → Result A

pub Result-cases {ℓ} :
    {A : Type ℓ} (r : Result A) → ((a : A) × (r ≡ ok a)) ⊎ ((m : String) × (r ≡ err m))
Result-cases (ok a) = inl (a, refl)
Result-cases (err m) = inr (m, refl)

abbrev pub Prog {ℓ κ} : Type ℓ → Type κ → Type (ℓ ⊔ κ)
Prog S A = S → Outcome S A

module _ {ℓ κ} {S : Type ℓ} {A : Type κ} where
  pub Outcome-cases :
      (m : Outcome S A)
      → ((a : A) × (s : S) × (m ≡ done a s)) ⊎ ((e : Exit) × (s : S) × (m ≡ exit e s))
  Outcome-cases (done a s) = inl (a, s, refl)
  Outcome-cases (exit e s) = inr (e, s, refl)

  abbrev pub pure : A → Prog S A
  pure a s = done a s

  abbrev pub stop : Exit → Prog S A
  stop e s = exit e s

  -- The state in which a run ended.
  abbrev pub final : Outcome S A → S
  final (done a s) = s
  final (exit e s) = s

  -- An outcome that satisfies a predicate on results, when it is a return.
  abbrev pub Returns {μ} : (A → S → Type μ) → Outcome S A → Type μ
  Returns P (done a s) = P a s
  Returns P (exit e s) = Unit

  -- An outcome that is a return and satisfies the predicate.
  abbrev pub Ensures : (A → S → Type 0) → Outcome S A → Type 0
  Ensures P (done a s) = P a s
  Ensures P (exit e s) = ⊥

module _ {ℓ κ μ} {S : Type ℓ} {A : Type κ} {B : Type μ} where
  infixl 5 ◌>>=◌ ◌>>◌
  abbrev pub continue : Outcome S A → (A → Prog S B) → Outcome S B
  continue (done a s) f = f a s
  continue (exit e s) f = exit e s

  abbrev pub ◌>>=◌ : Prog S A → (A → Prog S B) → Prog S B
  ◌>>=◌ m f s = continue (m s) f

  abbrev pub ◌>>◌ : Prog S A → Prog S B → Prog S B
  ◌>>◌ m n s = continue (m s) (λ _. n)

module _ {ℓ} {S : Type ℓ} where
  abbrev pub gets {κ} : {A : Type κ} → (S → A) → Prog S A
  gets f s = done (f s) s

  abbrev pub modify : (S → S) → Prog S (Unit {0})
  modify f s = done tt (f s)

  -- `if err != nil { log.Fatal(err) }`
  abbrev pub fatal_on {κ} : {A : Type κ} → Result A → Prog S A
  fatal_on (ok a) s = done a s
  fatal_on (err m) s = exit fatal s

  -- A `for` over a slice whose body changes the state.
  abbrev pub for_each {κ} : {A : Type κ} → List A → (A → Prog S (Unit {0})) → Prog S (Unit {0})
  for_each [] body s = done tt s
  for_each (x ∷ xs) body s = continue (body x s) (λ _. for_each xs body)
