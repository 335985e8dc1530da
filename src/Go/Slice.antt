-- ===== src/Go/Slice.antt =====
-- The loop by which both daemons remove an identity from a slice of identities. `range` fixes the
-- number of rounds at the start, while the body swaps in the last element, writes 0 behind it and
-- shortens the slice; the array under it keeps its size.
pub mod Removal
pub mod Zero
pub mod Kept
use kvm_service.Prelude.{
  ℕ, zero, suc, ◌+◌, ◌-◌, ◌<◌, ◌≤◌, ◌≡◌, refl, ◌≢◌, true, false, Option, none, some, List, ltb,
  ◌==◌, nat_eq, ==_of_ne, ==_refl, ==_cases, Bool-cases, lt→ltb, ◌∙◌, ap, ◌&&◌, not, take, contains,
  contains-get_or, position, length-take, get_or-take, Bool-eq_of_iff, and_left, and_right,
  not-false, ne_of_==, subst, inl, inr, sym, if◌then◌else◌, length, get_or, set, length-set,
  get_or-set_self, get_or-set_other, arith,
}

-- One slice header over an array: the array and the slice's length.
pub record Window : Type 0 where
  pub array : List ℕ
  pub len : ℕ

-- The body at a matching element; none is Go's index panic.
unfoldable pub swap_last : ℕ → Window → Option Window
swap_last i w = elim (ltb i w.len) [
  | true ↦ some (record {
    array = set (set w.array i (get_or w.array (w.len - 1) 0)) (w.len - 1) 0;
    len = w.len - 1;
  })
  | false ↦ none
]

-- The rounds from an index on.
unfoldable pub remove_from : ℕ → ℕ → ℕ → Window → Option Window
unfolding swap_last
remove_from identity zero i w = some w
remove_from identity (suc rounds) i w = elim (get_or w.array i 0 == identity) [
  | false ↦ remove_from identity rounds (i + 1) w
  | true ↦ elim (swap_last i w) [ none ↦ none | some w' ↦ remove_from identity rounds (i + 1) w' ]
]

-- `for index, value := range arr { if identity == value { … } }`
unfoldable pub remove_identity : ℕ → List ℕ → Option Window
unfolding remove_from
remove_identity identity arr =
    remove_from identity (length arr) 0 (record { array = arr; len = length arr })

pub swap_last-inside :
    (i : ℕ) (w : Window)
    → i < w.len
    → swap_last i w
      ≡ some (record {
        array = set (set w.array i (get_or w.array (w.len - 1) 0)) (w.len - 1) 0;
        len = w.len - 1;
      })
unfolding swap_last
swap_last-inside i w h = rw (lt→ltb i w.len h, swap_last)

-- Where no element matches, the loop changes nothing.
pub remove_from-absent :
    (identity rounds i : ℕ) (w : Window)
    → ((k : ℕ) → i ≤ k → k < i + rounds → get_or w.array k 0 ≢ identity)
    → remove_from identity rounds i w ≡ some w
unfolding remove_from
remove_from-absent identity zero i w h = refl
remove_from-absent identity (suc rounds) i w h =
    rw (==_of_ne (get_or w.array i 0) identity (h i (omega arith) (omega arith)), remove_from)
      (remove_from-absent identity rounds (i + 1) w (λ k a b. h k (omega arith) (omega arith)))

-- The array after the removal of the element at a position.
abbrev pub swapped : List ℕ → ℕ → List ℕ
swapped arr p = set (set arr p (get_or arr (length arr - 1) 0)) (length arr - 1) 0

pub get_or-swapped :
    (arr : List ℕ) (p j : ℕ)
    → p < length arr
    → j < length arr
    → get_or (swapped arr p) j 0 ≡ (
        if j == length arr - 1
        then 0
        else if j == p
        then get_or arr (length arr - 1) 0
        else get_or arr j 0)
get_or-swapped arr p j inside below =
    let last = length arr - 1 in
    let v = get_or arr last 0 in
    elim (==_cases j last) [
      | inl at_last ↦ rw (
        at_last,
        ==_refl last,
        get_or-set_self (set arr p v) last 0 0 (rw length-set (omega arith)),
      )
      | inr before ↦
          rw
            (
              get_or-set_other (set arr p v) last j 0 0 (λ e. before (sym e)),
              ==_of_ne j last before,
            )
            (elim (==_cases j p) [
              | inl here ↦ rw (here, ==_refl p, get_or-set_self arr p 0 v inside)
              | inr there ↦
                  rw (get_or-set_other arr p j 0 v (λ e. there (sym e)), ==_of_ne j p there)
            ])
    ]
