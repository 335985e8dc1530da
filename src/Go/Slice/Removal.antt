-- ===== src/Go/Slice/Removal.antt =====
-- What the loop leaves when the identity stands at one position.
use kvm_service.Prelude.{
  ℕ, zero, suc, ◌+◌, ◌-◌, ◌<◌, ◌≤◌, ◌≡◌, ◌≢◌, true, false, some, List, ◌==◌, nat_eq, ==_of_ne,
  ==_refl, ==_cases, Bool-cases, ◌∙◌, ap, ◌&&◌, not, take, contains, contains-get_or, position,
  length-take, get_or-take, Bool-eq_of_iff, and_left, and_right, not-false, ne_of_==, subst, inl,
  inr, sym, if◌then◌else◌, length, get_or, set, length-set, arith,
}
use kvm_service.Go.Slice.{
  remove_from, remove_identity, swapped, get_or-swapped, remove_from-absent, swap_last-inside,
}

-- The removal of an identity that stands at one position only, and is not 0.
module _ (identity : ℕ) (arr : List ℕ) (p : ℕ) (nonzero : identity ≢ 0) (inside : p < length arr)
    (found : get_or arr p 0 ≡ identity)
    (once : (k : ℕ) → k < length arr → k ≢ p → get_or arr k 0 ≢ identity) where
  -- Behind the position nothing matches any more.
  swapped-absent : (k : ℕ) → p < k → k < length arr → get_or (swapped arr p) k 0 ≢ identity
  swapped-absent k above below =
      rw (get_or-swapped arr p k inside below)
        (ground (arith, once k below (λ e. absurd (omega arith))))

  remove_from-match :
      (rounds : ℕ)
      → p + suc rounds ≡ length arr
      → remove_from identity (suc rounds) p (record { array = arr; len = length arr })
        ≡ some (record { array = swapped arr p; len = length arr - 1 })
  unfolding remove_from
  remove_from-match rounds end =
      rw (found, ==_refl identity, remove_from)
        (rw (swap_last-inside p (record { array = arr; len = length arr }) inside, remove_from)
          (remove_from-absent identity rounds (p + 1) _
            (λ k a b. swapped-absent k (omega arith) (omega arith))))

  remove_from-found :
      (rounds i : ℕ)
      → i ≤ p
      → i + rounds ≡ length arr
      → remove_from identity rounds i (record { array = arr; len = length arr })
        ≡ some (record { array = swapped arr p; len = length arr - 1 })
  unfolding remove_from
  remove_from-found zero i low end = absurd (omega arith)
  remove_from-found (suc rounds) i low end = elim (==_cases i p) [
    | inl here ↦
        subst
          (λ j.
            remove_from identity (suc rounds) j (record { array = arr; len = length arr })
            ≡ some (record { array = swapped arr p; len = length arr - 1 }))
          (sym here) (remove_from-match rounds (omega arith))
    | inr before ↦
        rw (==_of_ne (get_or arr i 0) identity (once i (omega arith) before), remove_from)
          (remove_from-found rounds (i + 1) (omega arith) (omega arith))
  ]

  -- The last element takes the identity's place, 0 the last place, and the slice is one shorter.
  pub remove_identity-found :
      remove_identity identity arr ≡ some (record { array = swapped arr p; len = length arr - 1 })
  unfolding remove_identity
  remove_identity-found = remove_from-found (length arr) 0 (omega arith) (omega arith)

  get_or-kept :
      (k : ℕ)
      → k < length arr - 1
      → get_or (take (length arr - 1) (swapped arr p)) k 0
        ≡ (if k == p then get_or arr (length arr - 1) 0 else get_or arr k 0)
  get_or-kept k h =
      get_or-take (length arr - 1) (swapped arr p) k 0 h
      ∙ get_or-swapped arr p k inside (omega arith)
      ∙ (rw (==_of_ne k (length arr - 1) (λ e. absurd (omega arith))))

  length-kept : length (take (length arr - 1) (swapped arr p)) ≡ length arr - 1
  length-kept =
      length-take (length arr - 1) (swapped arr p)
        (rw (length-set (set arr p (get_or arr (length arr - 1) 0)), length-set arr) (omega arith))

  kept_sound :
      (v k : ℕ)
      → k < length arr - 1
      → get_or (take (length arr - 1) (swapped arr p)) k 0 ≡ v
      → (contains arr v ≡ true) × (v ≢ identity)
  kept_sound v k h e = elim (==_cases k p) [
    | inl here ↦
        let q : get_or arr (length arr - 1) 0 ≡ v =
          sym (get_or-kept k h ∙ (rw (here, ==_refl p))) ∙ e in
        (
          rw (← q) (contains-get_or arr (length arr - 1) 0 (omega arith)),
          rw (← q) (once (length arr - 1) (omega arith) (λ u. absurd (omega arith))),
        )
    | inr there ↦
        let q : get_or arr k 0 ≡ v = sym (get_or-kept k h ∙ (rw (==_of_ne k p there))) ∙ e in
        (rw (← q) (contains-get_or arr k 0 (omega arith)), rw (← q) (once k (omega arith) there))
  ]

  kept_complete :
      (v k : ℕ)
      → k < length arr
      → get_or arr k 0 ≡ v
      → v ≢ identity
      → contains (take (length arr - 1) (swapped arr p)) v ≡ true
  kept_complete v k below e other =
      let apart : k ≢ p = λ u. other (sym e ∙ ap (λ n. get_or arr n 0) u ∙ found) in
      elim (==_cases k (length arr - 1)) [
        | inl last ↦
            let q : get_or (take (length arr - 1) (swapped arr p)) p 0 ≡ v =
              get_or-kept p (omega arith) ∙ (rw (==_refl p, ← last, e)) in
            rw (← q) (contains-get_or _ p 0 (rw length-kept (omega arith)))
        | inr inner ↦
            let q : get_or (take (length arr - 1) (swapped arr p)) k 0 ≡ v =
              get_or-kept k (omega arith) ∙ (rw (==_of_ne k p apart, e)) in
            rw (← q) (contains-get_or _ k 0 (rw length-kept (omega arith)))
      ]

  -- The shorter slice holds the other elements and no more.
  pub contains-kept :
      (v : ℕ)
      → contains (take (length arr - 1) (swapped arr p)) v ≡ (contains arr v && not (v == identity))
  contains-kept v = Bool-eq_of_iff _ _ to from
    where
      to :
          contains (take (length arr - 1) (swapped arr p)) v ≡ true
          → (contains arr v && not (v == identity)) ≡ true
      to h =
          let (k, below, e) = position (take (length arr - 1) (swapped arr p)) v 0 h in
          let (inn, other) = kept_sound v k (rw length-kept at below) e in
          rw (inn, ==_of_ne v identity other)

      from :
          (contains arr v && not (v == identity)) ≡ true
          → contains (take (length arr - 1) (swapped arr p)) v ≡ true
      from h =
          let (k, below, e) =
            position arr v 0 (and_left (contains arr v) (not (v == identity)) h) in
          kept_complete v k below e
            (ne_of_== v identity (not-false _ (and_right (contains arr v) (not (v == identity)) h)))

  pub length-swapped : length (swapped arr p) ≡ length arr
  length-swapped =
      length-set (set arr p (get_or arr (length arr - 1) 0)) (length arr - 1) 0
      ∙ length-set arr p (get_or arr (length arr - 1) 0)

  -- The array at its old length ends with 0, and holds the identity no more.
  pub contains-swapped_zero : contains (swapped arr p) 0 ≡ true
  contains-swapped_zero =
      let last = length arr - 1 in
      let q : get_or (swapped arr p) last 0 ≡ 0 =
        get_or-swapped arr p last inside (omega arith) ∙ (rw (==_refl last)) in
      rw q at (contains-get_or (swapped arr p) last 0 (rw length-swapped (omega arith)))

  pub contains-swapped_self : contains (swapped arr p) identity ≡ false
  contains-swapped_self = elim (Bool-cases (contains (swapped arr p) identity)) [
    | inl held ↦
        let (k, below, e) = position (swapped arr p) identity 0 held in
        absurd (get_or-swapped_ne k (rw length-swapped at below) e)
    | inr gone ↦ gone
  ]
    where
      get_or-swapped_ne : (k : ℕ) → k < length arr → get_or (swapped arr p) k 0 ≢ identity
      get_or-swapped_ne k below =
          rw (get_or-swapped arr p k inside below)
            (ground (arith, once k below, once (length arr - 1) (omega arith)))

pub remove_identity-absent :
    (identity : ℕ) (arr : List ℕ)
    → ((k : ℕ) → k < length arr → get_or arr k 0 ≢ identity)
    → remove_identity identity arr ≡ some (record { array = arr; len = length arr })
unfolding remove_identity
remove_identity-absent identity arr h =
    remove_from-absent identity (length arr) 0 _ (λ k a b. h k (omega arith))
