-- ===== src/Core/Proof.antt =====
-- identity_core/src/crypto/proof: proof.rs, proof_options.rs and proof_value.rs.
use identity_rs.Prelude.{Bool, true, false, Option, Text}

pub data ProofPurpose : Type 0 where
  assertion_method authentication : ProofPurpose

pub data ProofValue : Type 0 where
  none : ProofValue
  jws : Text → ProofValue
  signature : Text → ProofValue
  proof : Text → ProofValue

pub record ProofOptions (Time : Type 0) : Type 0 where
  pub created : Option Time
  pub expires : Option Time
  pub challenge : Option Text
  pub domain : Option Text
  pub purpose : Option ProofPurpose

-- Without the field `hidden`, which tells the serialization to leave out the value.
pub record Proof (Time : Type 0) : Type 0 where
  pub type_ : Text
  pub value : ProofValue
  pub method : Text
  pub created : Option Time
  pub expires : Option Time
  pub challenge : Option Text
  pub domain : Option Text
  pub purpose : Option ProofPurpose

abbrev pub new_with_options : {Time : Type 0} → Text → Text → ProofOptions Time → Proof Time
new_with_options type_ method options = record {
  type_ = type_;
  value = none;
  method = method;
  created = options.created;
  expires = options.expires;
  challenge = options.challenge;
  domain = options.domain;
  purpose = options.purpose;
}

abbrev pub purpose_beq : ProofPurpose → ProofPurpose → Bool
purpose_beq assertion_method assertion_method = true
purpose_beq authentication authentication = true
purpose_beq _ _ = false
