-- ===== src/Iota/Metadata.antt =====
-- identity_iota_core/src/diff/diff_iota_document_metadata.rs. The implementations for times and
-- properties are arguments, and so are the text of a message id and its parse.
use identity_rs.Chain.Index.{MessageId}
use identity_rs.Diff.Documents.Fields.{
  field_diff, field_merge, field_from_diff, field_into_diff, default_from_diff, default_into_diff,
  field-Merges, field-Returns, default-Returns,
}
use identity_rs.Diff.Interface.{same_as_eq, Diff, Res, Merges, Returns, IsLawful, merge_error}
use identity_rs.Diff.Options.{
  DiffOption, option_diff, option_merge, option_from_diff, option_into_diff, option-IsLawful,
}
use identity_rs.Diff.Parsed.{parsed_diff, parsed_merge, parsed_into_diff, parsed-IsLawful}
use identity_rs.Diff.Texts.{string_from_diff, string_into_diff}
use identity_rs.Iota.Document.{IotaDocumentMetadata}
use identity_rs.Prelude.{
  ◌≡◌, refl, Option, some, HasEq, nat_eq, list_eq, Outcome, ok, ◌>>=◌, map_err, Text,
}

pub record DiffIotaDocumentMetadata (DT DO : Type 0) : Type 0 where
  pub created : Option (DiffOption DT)
  pub updated : Option (DiffOption DT)
  pub previous_message_id : Option (Option Text)
  pub properties : Option DO

module _ {Time O DT DO E : Type 0} ⦃time_eq : HasEq (Option Time)⦄ ⦃o_eq : HasEq O⦄
    (time : Diff Time DT) (props : Diff O DO) (default : O) (print_id : MessageId → Text)
    (parse_id : Text → Outcome E MessageId) where
  unfoldable pub metadata_diff :
      IotaDocumentMetadata Time O
      → IotaDocumentMetadata Time O
      → Res (DiffIotaDocumentMetadata DT DO)
  metadata_diff this other = do
    created' ← field_diff (option_diff time) this.created other.created
    updated' ← field_diff (option_diff time) this.updated other.updated
    previous' ←
        field_diff (parsed_diff print_id parse_id) this.previous_message_id
          other.previous_message_id
    properties' ← field_diff props.diff this.properties other.properties
    ok (record {
      created = created';
      updated = updated';
      previous_message_id = previous';
      properties = properties';
    })

  unfoldable pub metadata_merge :
      IotaDocumentMetadata Time O
      → DiffIotaDocumentMetadata DT DO
      → Res (IotaDocumentMetadata Time O)
  metadata_merge this diff = do
    created' ← field_merge (option_merge time) this.created diff.created
    updated' ← field_merge (option_merge time) this.updated diff.updated
    previous' ←
        field_merge (parsed_merge print_id parse_id) this.previous_message_id
          diff.previous_message_id
    properties' ← field_merge props.merge this.properties diff.properties
    ok (record {
      created = created';
      updated = updated';
      previous_message_id = previous';
      properties = properties';
    })

  -- a message id that is not one is an error of the merge here, too
  unfoldable pub id_from_diff : Option Text → Res MessageId
  id_from_diff diff = string_from_diff diff >>= λ text. map_err (λ _. merge_error) (parse_id text)

  unfoldable pub metadata_from_diff :
      DiffIotaDocumentMetadata DT DO → Res (IotaDocumentMetadata Time O)
  metadata_from_diff diff = do
    created' ← field_from_diff (option_from_diff time) diff.created
    updated' ← field_from_diff (option_from_diff time) diff.updated
    previous' ← field_from_diff id_from_diff diff.previous_message_id
    properties' ← default_from_diff default props.from_diff diff.properties
    ok (record {
      created = created';
      updated = updated';
      previous_message_id = previous';
      properties = properties';
    })

  unfoldable pub metadata_into_diff :
      IotaDocumentMetadata Time O → Res (DiffIotaDocumentMetadata DT DO)
  metadata_into_diff this = do
    created' ← field_into_diff (option_into_diff time) this.created
    updated' ← field_into_diff (option_into_diff time) this.updated
    previous' ← field_into_diff (parsed_into_diff print_id parse_id) this.previous_message_id
    properties' ← default_into_diff default props.into_diff this.properties
    ok (record {
      created = created';
      updated = updated';
      previous_message_id = previous';
      properties = properties';
    })

  abbrev pub metadata : Diff (IotaDocumentMetadata Time O) (DiffIotaDocumentMetadata DT DO)
  metadata = record {
    diff = metadata_diff;
    merge = metadata_merge;
    from_diff = metadata_from_diff;
    into_diff = metadata_into_diff;
  }

  module _ (time_lawful : IsLawful time) (props_lawful : IsLawful props)
      (reads : (id : MessageId) → parse_id (print_id id) ≡ ok id) where
    metadata-Merges : (this other : IotaDocumentMetadata Time O) → Merges metadata this other
    unfolding metadata_diff metadata_merge
    metadata-Merges this other =
        let times = option-IsLawful time time_lawful in
        let (d0, made0, done0) =
          field-Merges (option_diff time) (option_merge time) this.created other.created
            (time_eq.beq_iff this.created other.created).0
            (times.merges this.created other.created) in
        let (d1, made1, done1) =
          field-Merges (option_diff time) (option_merge time) this.updated other.updated
            (time_eq.beq_iff this.updated other.updated).0
            (times.merges this.updated other.updated) in
        let (d2, made2, done2) =
          field-Merges (parsed_diff print_id parse_id) (parsed_merge print_id parse_id)
            this.previous_message_id other.previous_message_id
            (nat_eq.beq_iff this.previous_message_id other.previous_message_id).0
            ((parsed-IsLawful print_id parse_id reads).merges this.previous_message_id
              other.previous_message_id) in
        let (d3, made3, done3) =
          field-Merges props.diff props.merge this.properties other.properties
            (o_eq.beq_iff this.properties other.properties).0
            (props_lawful.merges this.properties other.properties) in
        (
          record { created = d0; updated = d1; previous_message_id = d2; properties = d3 },
          rw (made0, made1, made2, made3) refl,
          rw (done0, done1, done2, done3) refl,
        )

    id-Returns :
        (id : MessageId)
        → (delta : Option Text) × (parsed_into_diff print_id parse_id id ≡ ok delta)
          × (id_from_diff delta ≡ ok id)
    unfolding parsed_into_diff string_into_diff string_from_diff id_from_diff
    id-Returns id = (some (print_id id), refl, rw (reads id) refl)

    metadata-Returns : (this : IotaDocumentMetadata Time O) → Returns metadata this
    unfolding metadata_into_diff metadata_from_diff
    metadata-Returns this =
        let times = option-IsLawful time time_lawful in
        let (d0, made0, done0) =
          field-Returns (option_into_diff time) (option_from_diff time) this.created
            (times.returns this.created) in
        let (d1, made1, done1) =
          field-Returns (option_into_diff time) (option_from_diff time) this.updated
            (times.returns this.updated) in
        let (d2, made2, done2) =
          field-Returns (parsed_into_diff print_id parse_id) id_from_diff this.previous_message_id
            (id-Returns this.previous_message_id) in
        let (d3, made3, done3) =
          default-Returns props.into_diff props.from_diff default this.properties
            (props_lawful.returns this.properties) in
        (
          record { created = d0; updated = d1; previous_message_id = d2; properties = d3 },
          rw (made0, made1, made2, made3) refl,
          rw (done0, done1, done2, done3) refl,
        )

    -- If the differences of times and properties are lawful and the parse of message ids reads what was
    -- printed, the differences of the metadata are lawful.
    pub metadata-IsLawful : IsLawful metadata
    metadata-IsLawful = record { merges = metadata-Merges; returns = metadata-Returns }
