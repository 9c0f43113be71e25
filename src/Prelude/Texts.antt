-- ===== src/Prelude/Texts.antt =====
-- Text as a list of code points, with the searches that the Rust string methods make.
use Prim.Native.Nat.{ℕ, zero, suc, ◌≤◌}
use Prim.Native.Char.{code}
use Prim.Native.String.{String}
use mathlib.Core.Path.{◌≡◌, refl}
use mathlib.Core.Bool.{Bool, true, false, ◌&&◌}
use mathlib.Core.List.{List, [], ◌∷◌, ◌++◌}
use mathlib.Core.Option.{Option, none, some}
use native.Mathlib.Omega.{arith}
use identity_rs.Prelude.Tests.{nat_beq, if◌then◌else◌, Bool-cases}
use mathlib.Core.Logic.{inl, inr}
use identity_rs.Prelude.Lists.{position, length}

abbrev pub Text : Type 0
Text = List ℕ

abbrev pub text : String → Text
text String.[] = []
text (String.◌∷◌ c s) = code c ∷ text s

-- `str::starts_with`
abbrev pub starts_with : Text → Text → Bool
starts_with [] s = true
starts_with (c ∷ p) [] = false
starts_with (c ∷ p) (d ∷ s) = nat_beq c d && starts_with p s

-- `str::strip_prefix` of one character
abbrev pub strip_char : ℕ → Text → Option Text
strip_char c [] = none
strip_char c (d ∷ s) = if nat_beq d c then some s else none

-- `str::find` and `str::rfind` of one character
abbrev pub find_char : ℕ → Text → Option ℕ
find_char c s = position (λ d. nat_beq d c) s

abbrev pub rfind_char : ℕ → Text → Option ℕ
rfind_char c [] = none
rfind_char c (d ∷ s) = elim (rfind_char c s) [
  | some i ↦ some (suc i)
  | none ↦ if nat_beq d c then some 0 else none
]

-- No character of the text is `c`.
abbrev pub Lacks : ℕ → Text → Type 0
Lacks c [] = Unit
Lacks c (d ∷ s) = (nat_beq d c ≡ false) × Lacks c s

pub rfind_char-Lacks : (c : ℕ) (s : Text) → Lacks c s → rfind_char c s ≡ none
rfind_char-Lacks c [] h = refl
rfind_char-Lacks c (d ∷ s) h = rw (rfind_char-Lacks c s h.1, h.0) refl

pub rfind_char-append :
    (c : ℕ) (s t : Text) → Lacks c t → rfind_char c (s ++ c ∷ t) ≡ some (length s)
rfind_char-append c [] t h =
    let self : nat_beq c c ≡ true = ground arith in rw (rfind_char-Lacks c t h, self) refl
rfind_char-append c (d ∷ s) t h = rw (rfind_char-append c s t h) refl

pub starts_with-append : (p s t : Text) → starts_with p s ≡ true → starts_with p (s ++ t) ≡ true
starts_with-append [] s t h = refl
starts_with-append (c ∷ p) [] t h = absurd (ground arith)
starts_with-append (c ∷ p) (d ∷ s) t h = ground (arith, starts_with-append p s t)

-- A search past a text that lacks the character.
pub find_char-append_here :
    (c : ℕ) (s t : Text) → Lacks c s → find_char c (s ++ c ∷ t) ≡ some (length s)
find_char-append_here c [] t h = ground arith
find_char-append_here c (d ∷ s) t h = rw (h.0, find_char-append_here c s t h.1) refl

pub find_char-append_after :
    (c i : ℕ) (s t : Text) → Lacks c s → find_char c (s ++ t) ≡ some i → length s ≤ i
find_char-append_after c i [] t h q = omega arith
find_char-append_after c zero (d ∷ s) t h q = absurd (ground arith)
find_char-append_after c (suc i) (d ∷ s) t h q = ground (arith, find_char-append_after c i s t h.1)

pub Lacks-find_char : (c : ℕ) (s : Text) → find_char c s ≡ none → Lacks c s
Lacks-find_char c [] h = tt
Lacks-find_char c (d ∷ s) h = elim (Bool-cases (nat_beq d c)) [
  | inl here ↦ absurd (ground arith)
  | inr there ↦ (there, Lacks-find_char c s (ground arith))
]
