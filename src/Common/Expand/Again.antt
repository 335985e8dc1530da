-- ===== src/Common/Expand/Again.antt =====
-- Expanding at commas a second time changes nothing, and what an expansion leaves.
use Prim.Native.Char.{Char, code}
use mathlib.Core.Bool.{false≢true}
use kvm_service.Prelude.{
  subst, ℕ, String, List, [], ◌∷◌, true, false, ◌≡◌, ◌≢◌, refl, sym, ◌∙◌, ap, ◌==◌, nat_eq,
  string_eq, All, All-append, ==_refl, Bool-cases, inl, inr,
}
use kvm_service.Go.Strings.{onto_first, split, remove_all}
use kvm_service.Common.Expand.{
  Item, Object, obj_comma_can_be_expanded, obj_comma_expand, copies, expand_items,
  obj_comma_expand_first_dup_others,
}

-- The character does not stand in the text.
abbrev pub HasNo : ℕ → String → Type 0
HasNo ch String.[] = Unit
HasNo ch (String.◌∷◌ c s) = ((code c == ch) ≡ false) × HasNo ch s

remove_all-HasNo : (ch : ℕ) (s : String) → HasNo ch (remove_all ch s)
unfolding remove_all
remove_all-HasNo ch String.[] = tt
remove_all-HasNo ch (String.◌∷◌ c s) = elim (Bool-cases (code c == ch)) [
  | inl same ↦ rw same (remove_all-HasNo ch s)
  | inr other ↦ rw other (other, remove_all-HasNo ch s)
]

remove_all-HasNo_other : (ch sep : ℕ) (s : String) → HasNo sep s → HasNo sep (remove_all ch s)
unfolding remove_all
remove_all-HasNo_other ch sep String.[] h = tt
remove_all-HasNo_other ch sep (String.◌∷◌ c s) (here, h) = elim (Bool-cases (code c == ch)) [
  | inl same ↦ rw same (remove_all-HasNo_other ch sep s h)
  | inr other ↦ rw other (here, remove_all-HasNo_other ch sep s h)
]

onto_first-HasNo :
    (sep : ℕ) (c : Char) (ps : List String)
    → (code c == sep) ≡ false
    → All (HasNo sep) ps
    → All (HasNo sep) (onto_first c ps)
onto_first-HasNo sep c [] other all = ((other, tt), tt)
onto_first-HasNo sep c (p ∷ ps) other (here, all) = ((other, here), all)

-- No piece has the separator.
split-HasNo : (sep : ℕ) (s : String) → All (HasNo sep) (split sep s)
unfolding split
split-HasNo sep String.[] = (tt, tt)
split-HasNo sep (String.◌∷◌ c s) = elim (Bool-cases (code c == sep)) [
  | inl same ↦ rw same (tt, split-HasNo sep s)
  | inr other ↦ rw other (onto_first-HasNo sep c (split sep s) other (split-HasNo sep s))
]

-- A text without the separator is one piece.
split-whole : (sep : ℕ) (s : String) → HasNo sep s → split sep s ≡ s ∷ []
unfolding split
split-whole sep String.[] h = refl
split-whole sep (String.◌∷◌ c s) (here, h) = rw (here, split-whole sep s h)

onto_first-nonempty : (c : Char) (ps : List String) → onto_first c ps ≢ []
onto_first-nonempty c [] e = cc
onto_first-nonempty c (p ∷ ps) e = cc

split-nonempty : (sep : ℕ) (s : String) → split sep s ≢ []
unfolding split
split-nonempty sep String.[] e = cc
split-nonempty sep (String.◌∷◌ c s) e = elim (Bool-cases (code c == sep)) [
  | inl same ↦ let q : (String.[] ∷ split sep s) ≡ [] = rw same at e in cc
  | inr other ↦ onto_first-nonempty c (split sep s) (rw other at e)
]

module _ {F : Type 0} where
  -- The first field has no comma and no space.
  abbrev pub IsClean : Item F → Type 0
  IsClean x = HasNo b',' x.field0 × HasNo b' ' x.field0

  abbrev pub items_of : Object F → List (Item F)
  items_of (Object.items xs) = xs
  items_of _ = []

  copies-IsClean : (v : Item F) (ps : List String) → All (HasNo b',') ps → All IsClean (copies v ps)
  unfolding copies
  copies-IsClean v [] all = tt
  copies-IsClean v (p ∷ ps) (here, all) =
      ((remove_all-HasNo_other b' ' b',' p here, remove_all-HasNo b' ' p), copies-IsClean v ps all)

  expand_items-IsClean : (old : List (Item F)) → All IsClean (expand_items old)
  unfolding expand_items obj_comma_expand
  expand_items-IsClean [] = tt
  expand_items-IsClean (v ∷ old) =
      All-append IsClean (copies v (split b',' v.field0)) (expand_items old)
        (copies-IsClean v _ (split-HasNo b',' v.field0)) (expand_items-IsClean old)

  -- Clean items are not expanded.
  clean_kept :
      (xs : List (Item F)) → All IsClean xs → obj_comma_can_be_expanded (Object.items xs) ≡ false
  unfolding obj_comma_can_be_expanded
  clean_kept [] all = refl
  clean_kept (x ∷ xs) ((no_comma, no_space), all) =
      rw (split-whole b',' x.field0 no_comma, ==_refl x.field0)

  kept :
      (xs : List (Item F))
      → obj_comma_can_be_expanded (Object.items xs) ≡ false
      → obj_comma_expand_first_dup_others (Object.items xs) ≡ Object.items xs
  unfolding obj_comma_expand_first_dup_others
  kept xs h = rw (h, obj_comma_expand_first_dup_others)

  expanded :
      (xs : List (Item F))
      → obj_comma_can_be_expanded (Object.items xs) ≡ true
      → obj_comma_expand_first_dup_others (Object.items xs) ≡ Object.items (expand_items xs)
  unfolding obj_comma_expand_first_dup_others
  expanded xs h = rw (h, obj_comma_expand_first_dup_others)

  -- Whatever it is given, expanding at commas twice is expanding once; what can be expanded is
  -- expanded to items whose first field has no comma and no space.
  pub obj_comma_expand_first_dup_others-again :
      (o : Object F)
      → (obj_comma_expand_first_dup_others (obj_comma_expand_first_dup_others o)
          ≡ obj_comma_expand_first_dup_others o)
        × (obj_comma_can_be_expanded o ≡ true
            → All IsClean (items_of (obj_comma_expand_first_dup_others o)))
  unfolding obj_comma_can_be_expanded obj_comma_expand_first_dup_others
  obj_comma_expand_first_dup_others-again Object.not_pointer = (refl, λ h. tt)
  obj_comma_expand_first_dup_others-again Object.not_slice = (refl, λ h. tt)
  obj_comma_expand_first_dup_others-again Object.not_items = (refl, λ h. tt)
  obj_comma_expand_first_dup_others-again (Object.items xs) =
      elim (Bool-cases (obj_comma_can_be_expanded (Object.items xs))) [
        | inr h ↦
            (ap obj_comma_expand_first_dup_others (kept xs h), λ e. absurd (false≢true (sym h ∙ e)))
        | inl h ↦
            let clean = expand_items-IsClean xs in
            (
              ap obj_comma_expand_first_dup_others (expanded xs h)
                  ∙ kept (expand_items xs) (clean_kept (expand_items xs) clean)
                  ∙ sym (expanded xs h),
              λ e. subst (λ o. All IsClean (items_of o)) (sym (expanded xs h)) clean,
            )
      ]
