-- ===== src/GenScript/Lines.antt =====
-- The script, split at its line ends, is its contents.
use Prim.Native.Char.{code}
use native.Mathlib.Decide.{dec_lt}
use text.Mathlib.TextLemmas.{nil-append, cons-append, append_assoc, append-nil}
use kvm_service.Prelude.{
  ℕ, zero, suc, ◌+◌, ◌/◌, ◌%◌, String, List, [], ◌∷◌, ◌++◌, Bool, true, ◌&&◌, not, ◌≡◌, refl, sym,
  ◌∙◌, ap, ◌<>◌, ◌==◌, nat_eq, ==_of_ne, not-false, and_left, and_right, arith,
}
use kvm_service.Go.Strconv.{format_onto, format_uint}
use kvm_service.Go.Strconv.Digits.{code-digit, format_onto-small, format_onto-large}
use kvm_service.Go.Strings.{split}
use kvm_service.GenScript.{
  GenScriptParams, GenScript, add_content, add_contents, script_contents,
  generate_ew_installation_script,
}

-- No character of the text is a line end.
abbrev pub is_one_line : String → Bool
is_one_line String.[] = true
is_one_line (String.◌∷◌ c s) = not (code c == b'\n') && is_one_line s

abbrev all_one_line : List String → Bool
all_one_line [] = true
all_one_line (l ∷ ls) = is_one_line l && all_one_line ls

is_one_line-<> : (s t : String) → is_one_line (s <> t) ≡ (is_one_line s && is_one_line t)
is_one_line-<> String.[] t = rw nil-append
is_one_line-<> (String.◌∷◌ c s) t = rw cons-append (ground (arith, is_one_line-<> s t))

is_one_line-format_onto :
    (f n : ℕ) (rest : String) → is_one_line rest ≡ true → is_one_line (format_onto f n rest) ≡ true
is_one_line-format_onto zero n rest h = unfold format_onto in h
is_one_line-format_onto (suc f) n rest h = elim (dec_lt n 10) [
  | yes small ↦
      rw (format_onto-small f n rest small, code-digit n small)
        (rw (==_of_ne (n + b'0') b'\n' (λ e. absurd (omega arith))) h)
  | no big ↦ rw (format_onto-large f n rest (omega arith)) (
      is_one_line-format_onto f (n / 10) _ (
        rw (code-digit (n % 10) (omega arith))
          (rw (==_of_ne (n % 10 + b'0') b'\n' (λ e. absurd (omega arith))) h)))
]

-- The texts, each with a line end.
lines_text : List String → String
lines_text [] = ""
lines_text (l ∷ ls) = l <> ("\n" <> lines_text ls)

add_contents-text :
    (ls : List String) (g : GenScript)
    → (add_contents ls g).script_data ≡ (g.script_data <> lines_text ls)
unfolding add_contents lines_text
add_contents-text [] g = sym (append-nil g.script_data)
add_contents-text (l ∷ ls) g =
    add_contents-text ls (add_content l g)
    ∙ append_assoc g.script_data (l <> "\n") (lines_text ls)
    ∙ ap (λ t. g.script_data <> t) (append_assoc l "\n" (lines_text ls))

-- A line end ends a piece.
split-line :
    (s rest : String)
    → is_one_line s ≡ true
    → split b'\n' (s <> ("\n" <> rest)) ≡ s ∷ split b'\n' rest
unfolding split
split-line String.[] rest h =
    rw (nil-append ("\n" <> rest), cons-append "\n" "" rest, nil-append rest)
split-line (String.◌∷◌ c s) rest h =
    let other = not-false (code c == b'\n') (and_left (not (code c == b'\n')) (is_one_line s) h) in
    rw (cons-append c s ("\n" <> rest))
      (rw (other, split-line s rest (and_right (not (code c == b'\n')) (is_one_line s) h)))

split-lines_text :
    (ls : List String) → all_one_line ls ≡ true → split b'\n' (lines_text ls) ≡ ls ++ "" ∷ []
unfolding lines_text
split-lines_text [] h = unfold split in refl
split-lines_text (l ∷ ls) h =
    split-line l (lines_text ls) (and_left _ _ h)
    ∙ ap (λ ps. l ∷ ps) (split-lines_text ls (and_right _ _ h))

script_contents-one_line :
    (p : GenScriptParams) (identity : String)
    → is_one_line p.ip_address ≡ true
    → is_one_line identity ≡ true
    → all_one_line (script_contents p identity) ≡ true
unfolding script_contents format_uint
script_contents-one_line p identity ip id = rw (
  is_one_line-<> "CLUSTER_PORT=" (format_onto (p.port + 1) p.port ""),
  is_one_line-format_onto (p.port + 1) p.port "" refl,
  is_one_line-<> "CLUSTER_IP=" p.ip_address,
  ip,
  is_one_line-<> "WORKLOAD_IDENTITY=" identity,
  id,
)

-- Where neither the address nor the identity holds a line end, the new script, split at its line
-- ends, is its contents and an empty last piece, whatever script was generated before.
pub split-generate :
    (external_workload identity : String) (g : GenScript)
    → is_one_line g.p.ip_address ≡ true
    → is_one_line identity ≡ true
    → split b'\n' (generate_ew_installation_script external_workload identity g).0
      ≡ script_contents g.p identity ++ "" ∷ []
unfolding generate_ew_installation_script
split-generate external_workload identity g ip id =
    ap (split b'\n') (
      add_contents-text (script_contents g.p identity) (record g { script_data = "" })
      ∙ nil-append _)
    ∙ split-lines_text (script_contents g.p identity) (script_contents-one_line g.p identity ip id)
