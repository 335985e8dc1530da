-- ===== src/Go/Slice/Kept.antt =====
-- The loop that removes an identity keeps what holds of 0 and of every element of the array.
use kvm_service.Prelude.{
  ℕ, zero, suc, ◌+◌, ◌-◌, List, [], ◌∷◌, Option, none, some, ◌≡◌, ◌==◌, nat_eq, ltb, All, get_or,
  set, take, length, Bool-cases, inl, inr, subst,
}
use kvm_service.Go.Slice.{Window, swap_last, remove_from, remove_identity}

module _ (P : ℕ → Type 0) (at_zero : P 0) where
  All-get_or : (xs : List ℕ) (i : ℕ) → All P xs → P (get_or xs i 0)
  All-get_or [] i all = at_zero
  All-get_or (x ∷ xs) zero (here, all) = here
  All-get_or (x ∷ xs) (suc i) (here, all) = All-get_or xs i all

  All-set : (xs : List ℕ) (i v : ℕ) → P v → All P xs → All P (set xs i v)
  All-set [] i v p all = tt
  All-set (x ∷ xs) zero v p (here, all) = (p, all)
  All-set (x ∷ xs) (suc i) v p (here, all) = (here, All-set xs i v p all)

  pub All-take : (n : ℕ) (xs : List ℕ) → All P xs → All P (take n xs)
  All-take zero xs all = tt
  All-take (suc n) [] all = tt
  All-take (suc n) (x ∷ xs) (here, all) = (here, All-take n xs all)

  -- Where the loop ends, the predicate holds of its array.
  abbrev Keeps : Option Window → Type 0
  Keeps none = Unit
  Keeps (some w) = All P w.array

  remove_from-Keeps :
      (identity rounds i : ℕ) (w : Window) → All P w.array → Keeps (remove_from identity rounds i w)
  unfolding remove_from swap_last
  remove_from-Keeps identity zero i w all = all
  remove_from-Keeps identity (suc rounds) i w all =
      elim (Bool-cases (get_or w.array i 0 == identity)) [
        | inr other ↦ rw (other, remove_from) (remove_from-Keeps identity rounds (i + 1) w all)
        | inl found ↦ elim (Bool-cases (ltb i w.len)) [
          | inr outside ↦ rw (found, outside, remove_from) tt
          | inl inside ↦
              rw (found, inside, remove_from)
                (remove_from-Keeps identity rounds (i + 1) _ (
                  All-set _ (w.len - 1) 0 at_zero
                    (All-set w.array i _ (All-get_or w.array (w.len - 1) all) all)))
        ]
      ]

  pub remove_identity-All :
      (identity : ℕ) (arr : List ℕ) (w : Window)
      → All P arr
      → remove_identity identity arr ≡ some w
      → All P w.array
  unfolding remove_identity
  remove_identity-All identity arr w all h =
      subst Keeps h
        (remove_from-Keeps identity (length arr) 0 (record { array = arr; len = length arr }) all)
