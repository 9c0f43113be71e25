-- ===== src/Iota/Did/Segments.antt =====
-- The segments of a method id: one without a colon, two with one, and three or more.
use identity_rs.Iota.Did.{default_network, with_head, split, count, head_of, tail_of, network, tag}
use identity_rs.Prelude.{
  ℕ, suc, ◌+◌, ◌≤◌, ◌≡◌, ◌⊎◌, inl, inr, refl, ap, true, List, [], ◌∷◌, ◌++◌, nat_eq, list_eq, ltb,
  nat_beq, length, take, drop, ok, Text, rfind_char-append, find_char-append_here, Lacks,
  Bool-cases, arith,
}

length-with_head :
    (ch : ℕ) (words : List Text) → 1 ≤ length words → length (with_head ch words) ≡ length words
length-with_head ch [] h = absurd (omega arith)
length-with_head ch (w ∷ ws) h = refl

length-split : (c : ℕ) (s : Text) → 1 ≤ length (split c s)
length-split c [] = omega arith
length-split c (ch ∷ s) = elim (Bool-cases (nat_beq ch c)) [
  | inl same ↦ rw same (omega (arith, length-split c s))
  | inr apart ↦
      rw apart (rw (length-with_head ch (split c s) (length-split c s)) (length-split c s))
]

pub split-Lacks : (c : ℕ) (s : Text) → Lacks c s → split c s ≡ s ∷ []
split-Lacks c [] h = refl
split-Lacks c (ch ∷ s) h = rw (h.0, split-Lacks c s h.1) refl

pub split-append : (c : ℕ) (a b : Text) → Lacks c a → split c (a ++ c ∷ b) ≡ a ∷ split c b
split-append c [] b h = let self : nat_beq c c ≡ true = ground arith in rw self refl
split-append c (ch ∷ a) b h = rw (h.0, split-append c a b h.1) refl

-- A text lacks the character, or is cut at the first one.
cut-cases :
    (c : ℕ) (s : Text) → Lacks c s ⊎ ((a : Text) × (b : Text) × Lacks c a × (s ≡ a ++ c ∷ b))
cut-cases c [] = inl tt
cut-cases c (ch ∷ s) = elim (Bool-cases (nat_beq ch c)) [
  | inl same ↦ inr ([], s, tt, ap (λ d. d ∷ s) ((nat_eq.beq_iff ch c).0 same))
  | inr apart ↦ elim (cut-cases c s) [
    | inl lacks ↦ inl (apart, lacks)
    | inr (a, b, lacks, e) ↦ inr (ch ∷ a, b, (apart, lacks), ap (λ t. ch ∷ t) e)
  ]
]

abbrev pub Two : Text → Type 0
Two s = (a : Text) × (b : Text) × Lacks b':' a × Lacks b':' b × (s ≡ a ++ b':' ∷ b)

pub split-cases : (s : Text) → Lacks b':' s ⊎ (Two s ⊎ (ltb 2 (length (split b':' s)) ≡ true))
split-cases s = elim (cut-cases b':' s) [
  | inl lacks ↦ inl lacks
  | inr (a, b, lacks, e) ↦ elim (cut-cases b':' b) [
    | inl none_left ↦ inr (inl (a, b, lacks, none_left, e))
    | inr (b', d, lacks', e') ↦ inr (
        inr (
          rw (e, split-append b':' a b lacks)
            (rw (e', split-append b':' b' d lacks') (ground (arith, length-split b':' d)))))
  ]
]

pub network_one : (s : Text) → Lacks b':' s → network s ≡ ok default_network
unfolding network count
network_one s h = rw (split-Lacks b':' s h) refl

pub tag_one : (s : Text) → Lacks b':' s → tag s ≡ ok s
unfolding tag count
tag_one s h = rw (split-Lacks b':' s h) refl

pub count_two : (a b : Text) → Lacks b':' a → Lacks b':' b → count (a ++ b':' ∷ b) ≡ 2
unfolding count
count_two a b ha hb = rw (split-append b':' a b ha, split-Lacks b':' b hb) refl

take-length : (a t : Text) → take (length a) (a ++ t) ≡ a
take-length [] t = refl
take-length (x ∷ a) t = ap (λ w. x ∷ w) (take-length a t)

drop-length : (a t : Text) (c : ℕ) → drop (length a + 1) (a ++ c ∷ t) ≡ t
drop-length [] t c = refl
drop-length (x ∷ a) t c =
    let next : suc (length a) + 1 ≡ suc (length a + 1) = omega arith in rw next (drop-length a t c)

pub network_two : (a b : Text) → Lacks b':' a → Lacks b':' b → network (a ++ b':' ∷ b) ≡ ok a
unfolding network head_of
network_two a b ha hb =
    rw (count_two a b ha hb, head_of, find_char-append_here b':' a b ha, take-length a (b':' ∷ b))
      refl

pub tag_two : (a b : Text) → Lacks b':' a → Lacks b':' b → tag (a ++ b':' ∷ b) ≡ ok b
unfolding tag tail_of
tag_two a b ha hb =
    rw (count_two a b ha hb, tail_of, rfind_char-append b':' a b hb, drop-length a b b':') refl
