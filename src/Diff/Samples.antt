-- ===== src/Diff/Samples.antt =====
-- For the tests: equality by structure, and a document's parts where DIDs are their texts and URLs have
-- at most a fragment.
use mathlib.Core.HLevel.{Discrete}
use native.Mathlib.Decide.{ℕ_discrete}
use identity_rs.Core.OneOrSet.{OneOrSet}
use identity_rs.Did.Method.{MethodType, MethodData}
use identity_rs.Did.Url.{DidUrl}
use identity_rs.Did.Samples.{as_str}
use identity_rs.Diff.Documents.Program.{Libraries, AreLawful}
use identity_rs.Diff.Parsed.{parsed, parsed-IsLawful}
use identity_rs.Diff.Texts.{primitive, primitive-IsLawful}
use identity_rs.Diff.Interface.{Diff, IsLawful}
use identity_rs.Prelude.{
  ℕ, ◌≡◌, refl, ◌↔◌, Bool, true, false, Option, none, some, [], ◌∷◌, HasEq, ◌==◌, nat_eq, list_eq,
  if◌then◌else◌, Outcome, ok, Text,
}

abbrev pub is_yes : {A : Type 0} → Dec A → Bool
is_yes (yes _) = true
is_yes (no _) = false

pub is_yes_iff : {A : Type 0} (d : Dec A) → (is_yes d ≡ true) ↔ A
is_yes_iff (yes a) = (λ _. a, λ _. refl)
is_yes_iff (no differs) = (λ h. cc, λ a. absurd (differs a))

abbrev pub by_structure : {A : Type 0} → Discrete A → HasEq A
by_structure compare = record {
  same? = λ a b. is_yes (compare a b);
  beq_iff = λ a b. is_yes_iff (compare a b);
}

instance abbrev pub controller_eq : HasEq (Option (OneOrSet Text))
controller_eq = by_structure (hlevel ℕ_discrete)

instance abbrev pub type_eq : HasEq MethodType
type_eq = by_structure hlevel

instance abbrev pub data_eq : HasEq MethodData
data_eq = by_structure (hlevel ℕ_discrete)

instance abbrev pub types_eq : HasEq (OneOrSet Text)
types_eq = by_structure (hlevel ℕ_discrete)

-- the text of a URL up to a `#`, and from it on
abbrev split_hash : Text → Text × Option Text
split_hash [] = ([], none)
split_hash (c ∷ cs) =
    let (before, after) = split_hash cs in
    if c == b'#' then ([], some (c ∷ cs)) else (c ∷ before, after)

abbrev pub parse_url : Text → Outcome ℕ (DidUrl Text)
parse_url text =
    let (did, fragment) = split_hash text in
    ok (record { did = did; url = record { path = none; query = none; fragment = fragment } })

abbrev pub parse_text : Text → Outcome ℕ Text
parse_text text = ok text

abbrev pub did : Diff Text (Option Text)
did = parsed as_str parse_text

abbrev pub libs : Libraries Text ℕ ℕ ℕ (Option ℕ) (Option ℕ) (Option ℕ) ℕ
libs = record {
  as_str = as_str;
  parse_url = parse_url;
  parse_alias = parse_text;
  parse_did = parse_text;
  method_properties = primitive 0;
  method_default = 0;
  service_properties = primitive 0;
  service_default = 0;
  properties = primitive 0;
}

pub did-IsLawful : IsLawful did
did-IsLawful = parsed-IsLawful as_str parse_text (λ a. refl)

pub libs-AreLawful : AreLawful libs
libs-AreLawful = record {
  dids = λ a. refl;
  method_properties = primitive-IsLawful 0;
  service_properties = primitive-IsLawful 0;
  properties = primitive-IsLawful 0;
}
