-- ===== src/Stardust/Metadata/Packing.antt =====
-- What `unpack` accepts, and that it gives back the document that was packed.
use identity_rs.Did.Editing.Keys.{HasUniqueKeys}
use identity_rs.Did.Mapping.Roundtrip.{IsCanonical, try_map_document-map_document}
use identity_rs.Stardust.Metadata.{
  DidConversion, json, v1, WithMetadata, did_marker, version_try_from, encoding_try_from,
  add_flags_to_message, to_placeholder, from_placeholder, from_document, into_stardust_document,
  pack, unpack, pack_with_encoding, unpack_document,
}
use identity_rs.Prelude.{
  ℕ, ◌≡◌, ◌↔◌, refl, List, [], ◌∷◌, ◌++◌, HasEq, ◌==◌, nat_eq, list_eq, Outcome, ok, arith,
  Bool-cases, inl, inr, beq_refl,
}

module _ {D M T U V P J : Type 0}
    (from_json_slice : List ℕ → Outcome J (WithMetadata D M T U V P)) where
  unpack_written :
      (inner : List ℕ) (doc : WithMetadata D M T U V P)
      → from_json_slice inner ≡ ok doc
      → unpack from_json_slice (did_marker ++ 1 ∷ 0 ∷ inner) ≡ ok doc
  unfolding unpack version_try_from encoding_try_from
  unpack_written inner doc h = ground arith

  unpack_read :
      (bytes : List ℕ) (doc : WithMetadata D M T U V P)
      → unpack from_json_slice bytes ≡ ok doc
      → (inner : List ℕ) × ((bytes ≡ did_marker ++ 1 ∷ 0 ∷ inner)
          × (from_json_slice inner ≡ ok doc))
  unfolding unpack version_try_from encoding_try_from
  unpack_read [] doc h = absurd (ground arith)
  unpack_read (a ∷ []) doc h = absurd (ground arith)
  unpack_read (a ∷ b ∷ []) doc h = absurd (ground arith)
  unpack_read (a ∷ b ∷ c ∷ []) doc h = absurd (ground arith)
  unpack_read (a ∷ b ∷ c ∷ v ∷ []) doc h = absurd (ground arith)
  unpack_read (a ∷ b ∷ c ∷ v ∷ e ∷ inner) doc h = (inner, (ground arith, ground arith))

  -- Unpacking succeeds with a document exactly on the bytes `DID`, 1, 0 followed by bytes from which
  -- JSON reads that document.
  pub unpack_iff :
      (bytes : List ℕ) (doc : WithMetadata D M T U V P)
      → (unpack from_json_slice bytes ≡ ok doc) ↔ (
          (inner : List ℕ) × ((bytes ≡ did_marker ++ 1 ∷ 0 ∷ inner)
            × (from_json_slice inner ≡ ok doc)))
  unpack_iff bytes doc =
      (λ h. unpack_read bytes doc h, λ read. rw read.1.0 (unpack_written read.0 doc read.1.1))

module _ {S D : Type 0} ⦃s_eq : HasEq S⦄ (did : DidConversion S D) where
  from_placeholder-to_placeholder :
      (id one : S) → from_placeholder did id (to_placeholder did id one) ≡ ok one
  unfolding from_placeholder to_placeholder
  from_placeholder-to_placeholder id one = elim (Bool-cases (one == id)) [
    | inl same ↦ rw (same, beq_refl (did.as_str did.placeholder), (s_eq.beq_iff one id).0 same) refl
    | inr other ↦ rw (other, did.differs one, did.again one) refl
  ]

  module _ {M T U V P J : Type 0} ⦃d_eq : HasEq D⦄
      (to_json_vec : WithMetadata D M T U V P → Outcome J (List ℕ))
      (from_json_slice : List ℕ → Outcome J (WithMetadata D M T U V P))
      (json_again : (doc : WithMetadata D M T U V P) (bytes : List ℕ)
        → to_json_vec doc ≡ ok bytes
        → from_json_slice bytes ≡ ok doc) where
    into_stardust_document-from_document :
        (doc : WithMetadata S M T U V P)
        → HasUniqueKeys doc.document
        → IsCanonical doc.document.controller
        → into_stardust_document did {J = J} (from_document did doc) doc.document.id ≡ ok doc
    unfolding into_stardust_document from_document
    into_stardust_document-from_document doc unique canonical =
        let id : S = doc.document.id in
        rw
          (try_map_document-map_document (to_placeholder did id) (from_placeholder did id)
            (from_placeholder-to_placeholder id) (λ o. o) (λ o. ok o) (λ _. refl) doc.document
            unique canonical)
          refl

    -- A document that JSON can write is packed, and the bytes unpack under its DID to the same
    -- document: its own DID, which is stored as the placeholder, and those of others. The sets of
    -- the document have unique keys, its controllers are none, one, or at least two that differ, and
    -- JSON reads back what it writes.
    pub unpack_document-pack_with_encoding :
        (doc : WithMetadata S M T U V P) (bytes : List ℕ)
        → HasUniqueKeys doc.document
        → IsCanonical doc.document.controller
        → to_json_vec (from_document did doc) ≡ ok bytes
        → (pack_with_encoding did to_json_vec doc json ≡ ok (add_flags_to_message bytes v1 json))
          × (unpack_document did from_json_slice doc.document.id
                (add_flags_to_message bytes v1 json)
              ≡ ok doc)
    unfolding pack_with_encoding unpack_document pack add_flags_to_message
    unpack_document-pack_with_encoding doc bytes unique canonical written = (
      rw written refl,
      rw
          (unpack_written from_json_slice bytes (from_document did doc)
            (json_again (from_document did doc) bytes written))
          (into_stardust_document-from_document doc unique canonical),
    )
