-- ===== src/Credential/Status/Decimal.antt =====
-- `u32::from_str` and `u32::to_string` of the standard library.
use identity_rs.Prelude.{
  ℕ, zero, suc, ◌+◌, ◌*◌, ◌-◌, ◌/◌, ◌%◌, ◌≤◌, ◌<◌, ◌≡◌, ◌∙◌, sym, ap, refl, Bool, true, ◌&&◌,
  Option, none, some, [], ◌∷◌, if◌then◌else◌, leb, ltb, nat_beq, Text, arith, Bool-cases, inl, inr,
}

abbrev pub u32_mod : ℕ
u32_mod = 4294967296

abbrev is_digit : ℕ → Bool
is_digit c = leb b'0' c && leb c b'9'

-- the digits after those that make `acc`; an overflow or another character is an error
unfoldable pub read_digits : ℕ → Text → Option ℕ
read_digits acc [] = some acc
read_digits acc (c ∷ s) =
    let rest = read_digits (acc * 10 + (c - b'0')) s in
    if is_digit c && ltb (acc * 10 + (c - b'0')) u32_mod then rest else none

unfoldable pub from_str : Text → Option ℕ
from_str [] = none
from_str (c ∷ []) = if nat_beq c b'+' then none else read_digits 0 (c ∷ [])
from_str (c ∷ d ∷ s) = if nat_beq c b'+' then read_digits 0 (d ∷ s) else read_digits 0 (c ∷ d ∷ s)

-- digits in front of `s`, the last digit first; ten of them are enough for `u32`
unfoldable pub print_digits : ℕ → ℕ → Text → Text
print_digits zero n s = s
print_digits (suc fuel) n s =
    let more = print_digits fuel (n / 10) ((b'0' + n % 10) ∷ s) in
    if nat_beq (n / 10) 0 then (b'0' + n % 10) ∷ s else more

unfoldable pub to_string : ℕ → Text
to_string n = print_digits 10 n []

abbrev pow10 : ℕ → ℕ
pow10 zero = 1
pow10 (suc k) = 10 * pow10 k

read_digits-step :
    (acc d : ℕ) (s : Text)
    → d < 10
    → acc * 10 + d < u32_mod
    → read_digits acc ((b'0' + d) ∷ s) ≡ read_digits (acc * 10 + d) s
unfolding read_digits
read_digits-step acc d s h k =
    let digit : b'0' + d - b'0' ≡ d = omega arith in
    let test : (is_digit (b'0' + d) && ltb (acc * 10 + d) u32_mod) ≡ true = ground arith in
    rw (digit, test) refl

read_digits-print_digits :
    (fuel n : ℕ) (s : Text)
    → n < pow10 fuel
    → n < u32_mod
    → read_digits 0 (print_digits fuel n s) ≡ read_digits n s
unfolding print_digits
read_digits-print_digits zero n s h k = let e : n ≡ 0 = omega arith in rw e refl
read_digits-print_digits (suc fuel) n s h k = elim (Bool-cases (nat_beq (n / 10) 0)) [
  | inl last ↦
      let e : 0 * 10 + n % 10 ≡ n = ground arith in
      rw last
        (read_digits-step 0 (n % 10) s (omega arith) (omega arith) ∙ ap (λ a. read_digits a s) e)
  | inr more ↦
      let e : n / 10 * 10 + n % 10 ≡ n = omega arith in
      rw more (
        read_digits-print_digits fuel (n / 10) ((b'0' + n % 10) ∷ s) (omega arith) (omega arith)
        ∙ read_digits-step (n / 10) (n % 10) s (omega arith) (omega arith)
        ∙ ap (λ a. read_digits a s) e)
]

print_digits-head :
    (fuel n : ℕ) (s : Text)
    → (c : ℕ) × (t : Text) × (print_digits (suc fuel) n s ≡ c ∷ t) × (b'0' ≤ c)
unfolding print_digits
print_digits-head zero n s = elim (Bool-cases (nat_beq (n / 10) 0)) [
  | inl last ↦ (b'0' + n % 10, s, rw last refl, omega arith)
  | inr more ↦ (b'0' + n % 10, s, rw more refl, omega arith)
]
print_digits-head (suc fuel) n s = elim (Bool-cases (nat_beq (n / 10) 0)) [
  | inl last ↦ (b'0' + n % 10, s, rw last refl, omega arith)
  | inr more ↦ rw more (print_digits-head fuel (n / 10) ((b'0' + n % 10) ∷ s))
]

from_str-digit : (c : ℕ) (t : Text) → b'0' ≤ c → from_str (c ∷ t) ≡ read_digits 0 (c ∷ t)
unfolding from_str
from_str-digit c [] h = ground arith
from_str-digit c (d ∷ t) h = ground arith

pub from_str-to_string : (n : ℕ) → n < u32_mod → from_str (to_string n) ≡ some n
unfolding to_string read_digits
from_str-to_string n h =
    let (c, t, e, digit) = print_digits-head 9 n [] in
    ap from_str e
    ∙ from_str-digit c t digit
    ∙ ap (read_digits 0) (sym e)
    ∙ read_digits-print_digits 10 n [] (omega arith) h

read_digits-lt : (acc n : ℕ) (s : Text) → acc < u32_mod → read_digits acc s ≡ some n → n < u32_mod
unfolding read_digits
read_digits-lt acc n [] h e = ground arith
read_digits-lt acc n (c ∷ s) h e = ground (arith, read_digits-lt (acc * 10 + (c - b'0')) n s)

pub from_str-lt : (s : Text) (n : ℕ) → from_str s ≡ some n → n < u32_mod
unfolding from_str
from_str-lt [] n e = cc
from_str-lt (c ∷ []) n e = ground (arith, read_digits-lt 0 n (c ∷ []))
from_str-lt (c ∷ d ∷ s) n e =
    ground (arith, read_digits-lt 0 n (d ∷ s), read_digits-lt 0 n (c ∷ d ∷ s))
