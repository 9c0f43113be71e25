-- ===== src/Diff/Sameness.antt =====
-- `PartialEq` of DID URLs (identity_did/src/did/did_url.rs), and the derived one of the types that hold
-- them: verification methods, references, services. Values whose URLs a parse reads back are the same
-- only if they are equal.
use identity_rs.Core.OneOrSet.{OneOrSet}
use identity_rs.Did.Building.{has_fragment}
use identity_rs.Did.Method.{
  MethodType, MethodData, VerificationMethod, MethodRef, embed, refer, ref_id,
}
use identity_rs.Did.Service.{Service}
use identity_rs.Did.Url
use identity_rs.Did.Url.{DidUrl, UrlKey, key_beq, key_beq_iff, did_url_to_string, to_string}
use identity_rs.Diff.Interface.{Diff, IsLawfulOn, PartialEq, Separates, list_same, vec_same}
use identity_rs.Diff.Parsed.{parsed, parsed-IsLawfulOn, Reads, Reads-Separates}
use identity_rs.Prelude.{
  Option, ◌≡◌, refl, ap, Bool, true, false, ◌&&◌, [], ◌∷◌, ◌++◌, HasEq, ◌==◌, Outcome, Text, All,
  arith,
}

module _ {D : Type 0} ⦃e : HasEq D⦄ where
  instance abbrev pub url_same : PartialEq (DidUrl D)
  url_same = record { same? = λ a b. key_beq (Url.key a) (Url.key b) }

  module _ {U : Type 0} ⦃type_eq : HasEq MethodType⦄ ⦃data_eq : HasEq MethodData⦄
      ⦃u_eq : HasEq U⦄ where
    instance abbrev pub method_same : PartialEq (VerificationMethod D U)
    method_same = record {
      same? = λ a b.
          url_same.same? a.id b.id
          && (a.controller == b.controller
              && (a.type_ == b.type_ && (a.content == b.content && a.properties == b.properties)));
    }

    abbrev pub ref_same? : MethodRef D U → MethodRef D U → Bool
    ref_same? (embed a) (embed b) = method_same.same? a b
    ref_same? (refer a) (refer b) = url_same.same? a b
    ref_same? _ _ = false

    instance abbrev pub ref_same : PartialEq (MethodRef D U)
    ref_same = record { same? = ref_same? }

  module _ {V P : Type 0} ⦃types_eq : HasEq (OneOrSet Text)⦄ ⦃v_eq : HasEq V⦄ ⦃p_eq : HasEq P⦄ where
    instance abbrev pub service_same : PartialEq (Service D V P)
    service_same = record {
      same? = λ a b.
          url_same.same? a.id b.id
          && (a.type_ == b.type_
              && (a.service_endpoint == b.service_endpoint && a.properties == b.properties));
    }

pub and_parts : (a b : Bool) → (a && b) ≡ true → (a ≡ true) × (b ≡ true)
and_parts true b h = (refl, h)
and_parts false b h = absurd (ground arith)

pub vec_same-Separates :
    {A : Type 0} (p : PartialEq A) (P : A → Type 0) → Separates p P → Separates (vec_same p) (All P)
vec_same-Separates p P equal [] [] v v' h = refl
vec_same-Separates p P equal [] (y ∷ ys) v v' h = absurd (ground arith)
vec_same-Separates p P equal (x ∷ xs) [] v v' h = absurd (ground arith)
vec_same-Separates p P equal (x ∷ xs) (y ∷ ys) v v' h =
    let (same, rest) = and_parts (p.same? x y) (list_same p xs ys) h in
    let first = equal x y v.0 v'.0 same in
    let others = vec_same-Separates p P equal xs ys v.1 v'.1 rest in rw (first, others) refl

module _ {D E : Type 0} (as_str : D → Text) (parse : Text → Outcome E (DidUrl D)) where
  -- `Diff for DIDUrl`
  abbrev pub url : Diff (DidUrl D) (Option Text)
  url = parsed (did_url_to_string as_str) parse

  abbrev pub UrlReads : DidUrl D → Type 0
  UrlReads = Reads (did_url_to_string as_str) parse

  pub url-IsLawfulOn : IsLawfulOn url UrlReads
  url-IsLawfulOn = parsed-IsLawfulOn (did_url_to_string as_str) parse

  -- A URL with a fragment that the parse reads back.
  abbrev pub IsId : DidUrl D → Type 0
  IsId id = (has_fragment id ≡ true) × UrlReads id

  module _ {U : Type 0} where
    abbrev pub IsMethod : VerificationMethod D U → Type 0
    IsMethod this = IsId this.id

    abbrev pub IsRef : MethodRef D U → Type 0
    IsRef this = IsId (ref_id this)

module _ {D E : Type 0} ⦃e : HasEq D⦄ (as_str : D → Text)
    (parse : Text → Outcome E (DidUrl D)) where
  url_prints :
      (a b : DidUrl D)
      → url_same.same? a b ≡ true
      → did_url_to_string as_str a ≡ did_url_to_string as_str b
  unfolding did_url_to_string to_string Url.key
  url_prints a b h =
      let same = (key_beq_iff (Url.key a) (Url.key b)).0 h in
      ap (λ (k : UrlKey D). as_str k.did ++ (k.path ++ (k.query ++ k.fragment))) same

  pub url_same-Separates : Separates url_same (UrlReads as_str parse)
  url_same-Separates = Reads-Separates (did_url_to_string as_str) parse url_same url_prints

  module _ {U : Type 0} ⦃type_eq : HasEq MethodType⦄ ⦃data_eq : HasEq MethodData⦄
      ⦃u_eq : HasEq U⦄ where
    pub method_same-Separates :
        Separates (method_same {D = D} {U = U}) (λ m. UrlReads as_str parse m.id)
    method_same-Separates a b reads reads' h =
        let (same, h) = and_parts _ _ h in
        let (controller, h) = and_parts _ _ h in
        let (typed, h) = and_parts _ _ h in
        let (content, properties) = and_parts _ _ h in
        let urls = url_same-Separates a.id b.id reads reads' same in
        let controllers = (e.beq_iff a.controller b.controller).0 controller in
        let types = (type_eq.beq_iff a.type_ b.type_).0 typed in
        let contents = (data_eq.beq_iff a.content b.content).0 content in
        let others = (u_eq.beq_iff a.properties b.properties).0 properties in
        λ i. record {
          id = urls i;
          controller = controllers i;
          type_ = types i;
          content = contents i;
          properties = others i;
        }

    pub ref_same-Separates :
        Separates (ref_same {D = D} {U = U}) (λ r. UrlReads as_str parse (ref_id r))
    ref_same-Separates (embed a) (embed b) reads reads' h =
        ap (λ m. embed m) (method_same-Separates a b reads reads' h)
    ref_same-Separates (refer a) (refer b) reads reads' h =
        ap (λ u. refer u) (url_same-Separates a b reads reads' h)
    ref_same-Separates (embed a) (refer b) reads reads' h = absurd (ground arith)
    ref_same-Separates (refer a) (embed b) reads reads' h = absurd (ground arith)

  module _ {V P : Type 0} ⦃types_eq : HasEq (OneOrSet Text)⦄ ⦃v_eq : HasEq V⦄ ⦃p_eq : HasEq P⦄ where
    pub service_same-Separates :
        Separates (service_same {D = D} {V = V} {P = P}) (λ s. UrlReads as_str parse s.id)
    service_same-Separates a b reads reads' h =
        let (same, h) = and_parts _ _ h in
        let (typed, h) = and_parts _ _ h in
        let (endpoint, properties) = and_parts _ _ h in
        let urls = url_same-Separates a.id b.id reads reads' same in
        let types = (types_eq.beq_iff a.type_ b.type_).0 typed in
        let endpoints = (p_eq.beq_iff a.service_endpoint b.service_endpoint).0 endpoint in
        let others = (v_eq.beq_iff a.properties b.properties).0 properties in
        λ i. record {
          id = urls i;
          type_ = types i;
          service_endpoint = endpoints i;
          properties = others i;
        }
