-- ===== src/Go/Outcome/Rules.antt =====
-- Rules for what holds of a run when it returns, and of a run that is known to return.
use kvm_service.Prelude.{
  All, List, [], ◌∷◌, ◌++◌, Bool, true, false, ◌≡◌, refl, inl, inr, if◌then◌else◌,
}
use kvm_service.Go.Outcome.{
  Outcome, Outcome-cases, Prog, done, exit, Result, ok, err, Returns, Ensures, continue, fatal_on,
  for_each,
}

module _ {ℓ κ μ} {S : Type ℓ} {A : Type κ} {B : Type μ} where
  pub Returns-continue {ν ξ} :
      (P : A → S → Type ν) (Q : B → S → Type ξ) (m : Outcome S A) (f : A → Prog S B)
      → Returns P m
      → ((a : A) (s : S) → P a s → Returns Q (f a s))
      → Returns Q (continue m f)
  Returns-continue P Q (done a s) f h k = k a s h
  Returns-continue P Q (exit e s) f h k = tt

  -- What the second part brings about whatever the first one did.
  pub Returns-after {ν} :
      (Q : B → S → Type ν) (m : Outcome S A) (f : A → Prog S B)
      → ((a : A) (s : S) → Returns Q (f a s))
      → Returns Q (continue m f)
  Returns-after Q (done a s) f k = k a s
  Returns-after Q (exit e s) f k = tt

  pub Ensures-continue :
      (P : A → S → Type 0) (Q : B → S → Type 0) (m : Outcome S A) (f : A → Prog S B)
      → Ensures P m
      → ((a : A) (s : S) → P a s → Ensures Q (f a s))
      → Ensures Q (continue m f)
  Ensures-continue P Q (done a s) f h k = k a s h
  Ensures-continue P Q (exit e s) f h k = absurd h

module _ {ℓ κ} {S : Type ℓ} {A : Type κ} where
  pub Returns-fatal_on {ν} :
      (P : A → S → Type ν) (r : Result A) (s : S) → ((a : A) → P a s) → Returns P (fatal_on r s)
  Returns-fatal_on P (ok a) s h = h a
  Returns-fatal_on P (err m) s h = tt

  pub Returns-weaken {ν ξ} :
      (P : A → S → Type ν) (Q : A → S → Type ξ) (m : Outcome S A)
      → Returns P m
      → ((a : A) (s : S) → P a s → Q a s)
      → Returns Q m
  Returns-weaken P Q (done a s) h k = k a s h
  Returns-weaken P Q (exit e s) h k = tt

  pub Ensures-weaken :
      (P Q : A → S → Type 0) (m : Outcome S A)
      → Ensures P m
      → ((a : A) (s : S) → P a s → Q a s)
      → Ensures Q m
  Ensures-weaken P Q (done a s) h k = k a s h
  Ensures-weaken P Q (exit e s) h k = absurd h

  pub Returns-if {ν} :
      (P : A → S → Type ν) (b : Bool) (m n : Outcome S A)
      → (b ≡ true → Returns P m)
      → (b ≡ false → Returns P n)
      → Returns P (if b then m else n)
  Returns-if P true m n f g = f refl
  Returns-if P false m n f g = g refl

module _ {ℓ κ} {S : Type ℓ} {A : Type κ} where
  -- A loop keeps what its body keeps.
  pub Returns-for_each {ν} :
      (P : S → Type ν) (xs : List A) (body : A → Prog S (Unit {0})) (s : S)
      → ((x : A) (s' : S) → P s' → Returns (λ _ t. P t) (body x s'))
      → P s
      → Returns (λ _ t. P t) (for_each xs body s)
  Returns-for_each P [] body s h p = p
  Returns-for_each P (x ∷ xs) body s h p =
      Returns-continue (λ _ t. P t) (λ _ t. P t) (body x s) (λ _. for_each xs body) (h x s p)
        (λ _ t q. Returns-for_each P xs body t h q)

  -- A loop whose body establishes Q of its element and keeps it of the others.
  pub Returns-for_all {ν ξ π} :
      (P : S → Type ν) (G : A → Type π) (Q : A → S → Type ξ) (xs : List A)
      (body : A → Prog S (Unit {0})) (s : S)
      → ((x : A) (s' : S)
          → G x
          → P s'
          → Returns (λ _ t. P t × Q x t × ((y : A) → Q y s' → Q y t)) (body x s'))
      → All G xs
      → P s
      → Returns (λ _ t. P t × All (λ x. Q x t) xs × ((y : A) → Q y s → Q y t)) (for_each xs body s)
  Returns-for_all P G Q [] body s h g p = (p, tt, λ y q. q)
  Returns-for_all P G Q (x ∷ xs) body s h (g, gs) p =
      Returns-continue _ _ (body x s) (λ _. for_each xs body) (h x s g p)
        (λ _ s' (p', q, keep).
          Returns-weaken _ _ (for_each xs body s') (Returns-for_all P G Q xs body s' h gs p')
            (λ _ t (p'', qs, keep'). (p'', (keep' x q, qs), λ y r. keep' y (keep y r))))

module _ {ℓ κ} {S : Type ℓ} {A : Type κ} where
  -- A loop returns when its body does so from every state that the rounds before may leave.
  pub Ensures-for_each {π} :
      (P : S → Type 0) (G : A → Type π) (xs : List A) (body : A → Prog S (Unit {0})) (s : S)
      → ((x : A) (s' : S) → G x → P s' → Ensures (λ _ t. P t) (body x s'))
      → All G xs
      → P s
      → Ensures (λ _ t. P t) (for_each xs body s)
  Ensures-for_each P G [] body s h g p = p
  Ensures-for_each P G (x ∷ xs) body s h (g, gs) p =
      Ensures-continue (λ _ t. P t) (λ _ t. P t) (body x s) (λ _. for_each xs body) (h x s g p)
        (λ _ t q. Ensures-for_each P G xs body t h gs q)

  -- What holds when a run returns holds of a run that does.
  pub Ensures-Returns :
      (P Q : A → S → Type 0) (m : Outcome S A) → Returns P m → Ensures Q m → Ensures P m
  Ensures-Returns P Q (done a s) p q = p
  Ensures-Returns P Q (exit e s) p q = absurd q

  pub Returns-Ensures : (P : A → S → Type 0) (m : Outcome S A) → Ensures P m → Returns P m
  Returns-Ensures P (done a s) h = h
  Returns-Ensures P (exit e s) h = absurd h

  -- A loop over one list behind another.
  pub for_each-append :
      (xs ys : List A) (body : A → Prog S (Unit {0})) (s : S)
      → for_each (xs ++ ys) body s ≡ continue (for_each xs body s) (λ _. for_each ys body)
  for_each-append [] ys body s = refl
  for_each-append (x ∷ xs) ys body s = elim (Outcome-cases (body x s)) [
    | inl (a, t, h) ↦ rw h (for_each-append xs ys body t)
    | inr (e, t, h) ↦ rw h
  ]

  -- What two predicates say of a return.
  pub Returns-both {ν ξ} :
      (P : A → S → Type ν) (Q : A → S → Type ξ) (m : Outcome S A)
      → Returns P m
      → Returns Q m
      → Returns (λ a s. P a s × Q a s) m
  Returns-both P Q (done a s) p q = (p, q)
  Returns-both P Q (exit e s) p q = tt

  -- A run that is known to return, and what holds when it does.
  pub Ensures-both :
      (P Q : A → S → Type 0) (m : Outcome S A)
      → Ensures P m
      → Returns Q m
      → Ensures (λ a s. P a s × Q a s) m
  Ensures-both P Q (done a s) p q = (p, q)
  Ensures-both P Q (exit e s) p q = absurd p

  pub Ensures-if :
      (P : A → S → Type 0) (b : Bool) (m n : Outcome S A)
      → (b ≡ true → Ensures P m)
      → (b ≡ false → Ensures P n)
      → Ensures P (if b then m else n)
  Ensures-if P true m n f g = f refl
  Ensures-if P false m n f g = g refl
