-- ===== src/Prelude/Texts.antt =====
-- Texts: concatenation, prefixes, and how the two interact.
use Prim.Native.Char.{code}
use Prim.Native.String.{String}
use mathlib.Core.Path.{◌≡◌, refl, sym, ap, ◌∙◌}
use mathlib.Core.Logic.{◌≢◌, inl, inr}
use mathlib.Core.Bool.{Bool, true, false}
use native.Mathlib.Omega.{arith}
use text.Mathlib.TextLemmas.{
  append_cancel_left, append_assoc, append-nil, cons-append, head-eq_of_cons-eq, tail-eq_of_cons-eq,
}
use kvm_service.Prelude.Tests.{
  ◌==◌, string_eq, nat_eq, Bool-eq_of_iff, Bool-cases, ne_of_==, ==_of_ne, if◌then◌else◌,
}
pub use Prim.Native.String.{◌++◌ as ◌<>◌}
pub use text.Mathlib.Text.{starts_with}
pub use text.Mathlib.TextEquality.{starts_with_iff}

-- A common first part does not matter to a test for a prefix.
pub starts_with-<> : (p s t : String) → starts_with (p <> s) (p <> t) ≡ starts_with s t
starts_with-<> p s t =
    Bool-eq_of_iff _ _
      (λ h.
        let (u, e) = (starts_with_iff (p <> s) (p <> t)).0 h in
        (starts_with_iff s t).1 (u, append_cancel_left p _ s (sym (append_assoc p t u) ∙ e)))
      (λ h.
        let (u, e) = (starts_with_iff s t).0 h in
        (starts_with_iff (p <> s) (p <> t)).1 (u, append_assoc p t u ∙ ap (λ w. p <> w) e))

pub starts_with_refl : (s : String) → starts_with s s ≡ true
starts_with_refl s = (starts_with_iff s s).1 ("", append-nil s)

-- Texts with prefixes of one length that differ: neither starts with the other's.
pub starts_with_long : (p s : String) → starts_with (p <> s) p ≡ true
starts_with_long p s = (starts_with_iff (p <> s) p).1 (s, refl)

-- A prefix of a prefix is a prefix.
pub starts_with-first : (p s t : String) → starts_with t (p <> s) ≡ true → starts_with t p ≡ true
starts_with-first p s t h =
    let (u, e) = (starts_with_iff t (p <> s)).0 h in
    (starts_with_iff t p).1 (s <> u, sym (append_assoc p s u) ∙ e)

-- Two texts that differ at some place.
unfoldable pub apart : String → String → Bool
apart (String.◌∷◌ c s) (String.◌∷◌ d t) = if code c == code d then apart s t else true
apart _ _ = false

pub apart-ne : (a b x y : String) → apart a b ≡ true → (a <> x) ≢ (b <> y)
unfolding apart
apart-ne (String.◌∷◌ c s) (String.◌∷◌ d t) x y h e =
    let q : String.◌∷◌ c (s <> x) ≡ String.◌∷◌ d (t <> y) =
      sym (cons-append c s x) ∙ e ∙ cons-append d t y in
    let same : c ≡ d = head-eq_of_cons-eq q in
    elim (Bool-cases (code c == code d)) [
      | inl eq ↦ apart-ne s t x y (ground arith) (tail-eq_of_cons-eq q)
      | inr ne ↦ ne_of_== (code c) (code d) ne (ap code same)
    ]
apart-ne String.[] b x y h e = cc
apart-ne (String.◌∷◌ c s) String.[] x y h e = cc

pub ==-apart : (a b x y : String) → apart a b ≡ true → ((a <> x) == (b <> y)) ≡ false
==-apart a b x y h = ==_of_ne (a <> x) (b <> y) (apart-ne a b x y h)

-- No key under one prefix starts with a key under another.
pub starts_with-apart :
    (a b x y : String) → apart a b ≡ true → starts_with (a <> x) (b <> y) ≡ false
starts_with-apart a b x y h = elim (Bool-cases (starts_with (a <> x) (b <> y))) [
  | inl t ↦
      let (u, e) = (starts_with_iff (a <> x) (b <> y)).0 t in
      absurd (apart-ne a b x (y <> u) h (sym e ∙ append_assoc b y u))
  | inr f ↦ f
]
