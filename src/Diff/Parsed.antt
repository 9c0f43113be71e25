-- ===== src/Diff/Parsed.antt =====
-- The `Diff` implementations that go through the text of a value, which are alike: CoreDID in
-- identity_did/src/did/did.rs, DIDUrl in did_url.rs, Url and Timestamp in identity_core/src/common,
-- IotaDID in identity_iota_core/src/diff/diff_iota_did.rs. `Display` and the parse are arguments.
use identity_rs.Diff.Interface.{
  Res, Diff, merge_error, conversion_error, IsLawful, IsLawfulOn, PartialEq, Separates,
}
use identity_rs.Diff.Texts.{
  string_diff, string_merge, string_from_diff, string_into_diff, string-IsLawful,
}
use identity_rs.Prelude.{
  ◌≡◌, ◌∙◌, ap, sym, refl, true, arith, Option, Outcome, ok, ◌>>=◌, map_err, Text, list_eq, nat_eq,
}

module _ {A E : Type 0} (to_string : A → Text) (parse : Text → Outcome E A) where
  unfoldable pub parsed_diff : A → A → Res (Option Text)
  parsed_diff this other = string_diff (to_string this) (to_string other)

  unfoldable pub parsed_merge : A → Option Text → Res A
  parsed_merge this diff =
      string_merge (to_string this) diff >>= λ this'. map_err (λ _. merge_error) (parse this')

  unfoldable pub parsed_from_diff : Option Text → Res A
  parsed_from_diff diff =
      string_from_diff diff >>= λ this. map_err (λ _. conversion_error) (parse this)

  unfoldable pub parsed_into_diff : A → Res (Option Text)
  parsed_into_diff this = string_into_diff (to_string this)

  abbrev pub parsed : Diff A (Option Text)
  parsed = record {
    diff = parsed_diff;
    merge = parsed_merge;
    from_diff = parsed_from_diff;
    into_diff = parsed_into_diff;
  }

  -- The parse reads the value back from its text.
  abbrev pub Reads : A → Type 0
  Reads a = parse (to_string a) ≡ ok a

  pub parsed-IsLawfulOn : IsLawfulOn parsed Reads
  unfolding parsed_diff parsed_merge parsed_from_diff parsed_into_diff
  parsed-IsLawfulOn = record {
    merges = λ a b _ reads.
        let (d, made, merged) = string-IsLawful.merges (to_string a) (to_string b) in
        (d, made, rw (merged, reads) refl);
    returns = λ a reads.
        let (d, made, back) = string-IsLawful.returns (to_string a) in
        (d, made, rw (back, reads) refl);
  }

  -- Values that are read back and print alike are equal.
  pub Reads-Separates :
      (p : PartialEq A)
      → ((a b : A) → p.same? a b ≡ true → to_string a ≡ to_string b)
      → Separates p Reads
  Reads-Separates p alike a b reads reads' same =
      let e : ◌≡◌ {A = Outcome E A} (ok a) (ok b) =
        sym reads ∙ ap parse (alike a b same) ∙ reads' in
      ground arith

  pub parsed-IsLawful : ((a : A) → Reads a) → IsLawful parsed
  parsed-IsLawful reads = record {
    merges = λ a b. parsed-IsLawfulOn.merges a b (reads a) (reads b);
    returns = λ a. parsed-IsLawfulOn.returns a (reads a);
  }
