-- ===== src/Go/Slice/Zero.antt =====
-- The loop that removes an identity, for identity 0: the 0 that the body writes behind the slice is
-- met by a later round, at an index that the shortened slice no longer has.
use kvm_service.Prelude.{
  ℕ, zero, suc, ◌+◌, ◌-◌, ◌<◌, ◌≤◌, ◌≡◌, refl, ◌≢◌, false, none, List, ltb, ltb→lt, nat_eq,
  ==_of_ne, ==_cases, Bool-cases, ◌∙◌, inl, inr, sym, length, get_or, set, length-set,
  get_or-set_self, get_or-set_other, subst, arith,
}
use kvm_service.Go.Slice.{Window, swap_last, swap_last-inside, remove_from, remove_identity}

-- A round at a 0 inside of the slice.
remove_from-found :
    (rounds i : ℕ) (w : Window)
    → get_or w.array i 0 ≡ 0
    → i < w.len
    → remove_from 0 (suc rounds) i w
      ≡ remove_from 0 rounds (i + 1) (record {
        array = set (set w.array i (get_or w.array (w.len - 1) 0)) (w.len - 1) 0;
        len = w.len - 1;
      })
unfolding remove_from
remove_from-found rounds i w here inside = rw (here, swap_last-inside i w inside, remove_from) refl

remove_from-other :
    (rounds i : ℕ) (w : Window)
    → get_or w.array i 0 ≢ 0
    → remove_from 0 (suc rounds) i w ≡ remove_from 0 rounds (i + 1) w
unfolding remove_from
remove_from-other rounds i w other = rw (==_of_ne _ 0 other, remove_from) refl

remove_from-outside :
    (rounds i : ℕ) (w : Window)
    → get_or w.array i 0 ≡ 0
    → ltb i w.len ≡ false
    → remove_from 0 (suc rounds) i w ≡ none
unfolding remove_from swap_last
remove_from-outside rounds i w here outside = rw (here, outside, remove_from) refl

-- A 0 behind the slice that a round is still to reach.
remove_from-behind :
    (rounds i j : ℕ) (w : Window)
    → w.len ≤ j
    → i ≤ j
    → j < i + rounds
    → get_or w.array j 0 ≡ 0
    → remove_from 0 rounds i w ≡ none
remove_from-behind zero i j w short later reached there = absurd (omega arith)
remove_from-behind (suc rounds) i j w short later reached there =
    elim (==_cases (get_or w.array i 0) 0) [
      | inr other ↦
          let apart : i ≢ j = λ e. other (subst (λ k. get_or w.array k 0 ≡ 0) (sym e) there) in
          remove_from-other rounds i w other
          ∙ remove_from-behind rounds (i + 1) j w short (omega arith) (omega arith) there
      | inl here ↦ elim (Bool-cases (ltb i w.len)) [
        | inr outside ↦ remove_from-outside rounds i w here outside
        | inl inside ↦
            let below = ltb→lt i w.len inside in
            remove_from-found rounds i w here below
            ∙ remove_from-behind rounds (i + 1) j _ (omega arith) (omega arith) (omega arith) (
                get_or-set_other (set w.array i (get_or w.array (w.len - 1) 0)) (w.len - 1) j 0 0
                  (λ e. absurd (omega arith))
                ∙ (get_or-set_other w.array i j 0 _ (λ e. absurd (omega arith)) ∙ there))
      ]
    ]

remove_from-zero :
    (rounds i p : ℕ) (w : Window)
    → w.len ≡ i + rounds
    → w.len ≤ length w.array
    → i ≤ p
    → p + 1 < i + rounds
    → get_or w.array p 0 ≡ 0
    → remove_from 0 rounds i w ≡ none
remove_from-zero zero i p w whole fits later before found = absurd (omega arith)
remove_from-zero (suc rounds) i p w whole fits later before found =
    elim (==_cases (get_or w.array i 0) 0) [
      | inr other ↦
          let apart : i ≢ p = λ e. other (subst (λ k. get_or w.array k 0 ≡ 0) (sym e) found) in
          remove_from-other rounds i w other
          ∙ remove_from-zero rounds (i + 1) p w (omega arith) fits (omega arith) (omega arith) found
      | inl here ↦
          remove_from-found rounds i w here (omega arith)
          ∙ remove_from-behind rounds (i + 1) (w.len - 1) _ (omega arith) (omega arith)
              (omega arith)
              (get_or-set_self (set w.array i (get_or w.array (w.len - 1) 0)) (w.len - 1) 0 0
                (rw length-set (omega arith)))
    ]

-- A 0 that is not the last element makes the removal of 0 panic.
pub remove_identity-zero :
    (arr : List ℕ) (p : ℕ) → p + 1 < length arr → get_or arr p 0 ≡ 0 → remove_identity 0 arr ≡ none
unfolding remove_identity
remove_identity-zero arr p before found =
    remove_from-zero (length arr) 0 p (record { array = arr; len = length arr }) (omega arith)
      (omega arith) (omega arith) (omega arith) found
