-- ===== src/Diff/Documents/Program.antt =====
-- The parts of a document as the program compares them: DIDs, URLs and aliases go through their text, methods,
-- references and services have the implementations of identity_did/src/diff.
use mathlib.Core.Option
use identity_rs.Core.OneOrSet.{OneOrSet, into_vec}
use identity_rs.Core.OneOrSet.Laws.{IsValid}
use identity_rs.Core.OrderedSet.Laws.{IsUnique}
use identity_rs.Did.Builder.{alias_key}
use identity_rs.Did.Document.{CoreDocument, relation}
use identity_rs.Did.Editing.Keys.{HasUniqueKeys}
use identity_rs.Did.Mapping.{did_key}
use identity_rs.Did.Method.{MethodType, MethodData, MethodRelationship}
use identity_rs.Did.Url.{DidUrl}
use identity_rs.Diff.Documents.{Parts, DiffDocument}
use identity_rs.Diff.Interface.{Diff, IsLawful}
use identity_rs.Diff.Methods.{DiffMethod, DiffMethodRef, method, method_ref}
use identity_rs.Diff.Parsed.{parsed, parsed-IsLawful, Reads}
use identity_rs.Diff.Sameness.{url, IsMethod, IsRef, url_same, method_same}
use identity_rs.Diff.Services.{DiffService, service}
use identity_rs.Diff.Services.Laws.{IsService}
use identity_rs.Prelude.{Option, none, some, List, HasEq, Outcome, Text, All, list_eq, nat_eq}

-- What libraries and the type parameters of a document give: the text of a DID, the parse of DIDs, DID
-- URLs and URLs, and the differences of properties with the default values of properties.
pub record Libraries (D T U V DT DU DV E : Type 0) : Type 0 where
  pub as_str : D → Text
  pub parse_did : Text → Outcome E D
  pub parse_url : Text → Outcome E (DidUrl D)
  pub parse_alias : Text → Outcome E Text
  pub method_properties : Diff U DU
  pub method_default : U
  pub service_properties : Diff V DV
  pub service_default : V
  pub properties : Diff T DT

-- the differences of documents with these parts
abbrev pub Delta : (DT DU DV P : Type 0) → Type 0
Delta DT DU DV P =
    DiffDocument (Option Text) (Option Text) (DiffMethod (Option Text) (Option Text) DU)
      (DiffMethodRef (Option Text) (Option Text) DU) (DiffService (Option Text) DV P) DT

abbrev pub alias_text : Text → Text
alias_text alias = alias

module _ {D : Type 0} ⦃e : HasEq D⦄ where
  abbrev pub IsValidController : Option (OneOrSet D) → Type 0
  IsValidController none = Unit
  IsValidController (some controller) = IsValid did_key controller

  -- The controllers that a merge is left with: none where there was none.
  abbrev pub merged_items : Option (OneOrSet D) → Option (OneOrSet D) → Option (List D)
  merged_items none other = none
  merged_items (some _) other = Option.map into_vec other

module _ {D T U V DT DU DV E : Type 0} (libs : Libraries D T U V DT DU DV E) where
  -- `Diff for CoreDID`
  abbrev pub did_diff : Diff D (Option Text)
  did_diff = parsed libs.as_str libs.parse_did

  -- every DID is read back from its text
  pub record AreLawful : Type 0 where
    pub dids : (d : D) → Reads libs.as_str libs.parse_did d
    pub method_properties : IsLawful libs.method_properties
    pub service_properties : IsLawful libs.service_properties
    pub properties : IsLawful libs.properties

  pub did_diff-IsLawful : AreLawful → IsLawful did_diff
  did_diff-IsLawful lawful = parsed-IsLawful libs.as_str libs.parse_did lawful.dids

  module _ {P : Type 0} ⦃e : HasEq D⦄ ⦃type_eq : HasEq MethodType⦄ ⦃data_eq : HasEq MethodData⦄
      ⦃u_eq : HasEq U⦄ ⦃types_eq : HasEq (OneOrSet Text)⦄ ⦃p_eq : HasEq P⦄ ⦃v_eq : HasEq V⦄ where
    abbrev pub parts :
        Parts D T U V P
          (Option Text)
          (Option Text)
          (DiffMethod (Option Text) (Option Text) DU)
          (DiffMethodRef (Option Text) (Option Text) DU)
          (DiffService (Option Text) DV P)
          DT
    parts = record {
      did = did_diff;
      alias = parsed alias_text libs.parse_alias;
      method =
          method (url libs.as_str libs.parse_url) did_diff libs.method_properties
            libs.method_default;
      method_ref =
          method_ref (url libs.as_str libs.parse_url) did_diff libs.method_properties
            libs.method_default;
      service =
          service (url libs.as_str libs.parse_url) libs.service_properties libs.service_default;
      properties = libs.properties;
    }

  module _ {P : Type 0} ⦃e : HasEq D⦄ where
    -- The keys of the sets are unique, controllers and types are as they are built, ids have fragments,
    -- and DID URLs and aliases are read back by their parse.
    pub record IsSound (doc : CoreDocument D T U V P) : Type 0 where
      pub keys : HasUniqueKeys doc
      pub aliases : IsUnique alias_key doc.also_known_as
      pub controller : IsValidController doc.controller
      pub read_aliases : All (Reads alias_text libs.parse_alias) doc.also_known_as
      pub methods : All (IsMethod libs.as_str libs.parse_url) doc.verification_method
      pub refs : (r : MethodRelationship) → All (IsRef libs.as_str libs.parse_url) (relation doc r)
      pub services : All (IsService libs.as_str libs.parse_url) doc.service
