-- ===== src/Lib.antt =====
-- Verification library for identity.rs, a Rust implementation of decentralized identifiers (DIDs) and
-- of DID documents that are published on the IOTA Tangle.
--
-- The parts of the program, and how they meet. identity_core holds the collections that all other
-- crates use: `OrderedSet`, a vector without two items of one key, and `OneOrSet`. identity_diff holds
-- the trait `Diff`: a value is compared with a new one, the difference is sent, and the receiver merges
-- it into the old one; the collections implement it. identity_did holds DID URLs, queries for them,
-- verification methods and the DID document, whose sets are `OrderedSet`s with the DID URL as the key.
-- The document verifies data that one of its methods has signed, and holds the bitmap of revoked
-- credentials in a service; identity_credential builds credentials and presentations, checks their
-- structure, and validates them against the documents of issuers and holders.
-- identity_iota_client reads the messages of a DID from the Tangle, in whatever order they come, and
-- builds of them the chain of the document's versions and of the differences after the last version.
-- identity_stardust stores a document in an output of the ledger, with its own DID left out.
--
-- The files, by part (paths from the root of the repository):
--   Prelude    the names that the others share: Boolean tests on the native numbers, lists measured by
--              them, Rust's `PartialEq` as `HasEq` where it is equality, `Result` as `Outcome`, texts
--              as code points, and the `HashMap` of the standard library as the list of its entries in
--              the order in which it is iterated (what is proved holds for each order).
--   Core       identity_core/src/common/ordered_set.rs (Core/OrderedSet), one_or_set.rs (Core/OneOrSet),
--              one_or_many.rs (Core/OneOrMany), and the proofs of identity_core/src/crypto/proof
--              (Core/Proof).
--              An operation takes the set and gives the new set with the result of the call; the trait
--              KeyComparable is the argument `key`.
--   Diff       identity_diff/src: traits.rs and error.rs (Diff/Interface), string.rs and macros.rs
--              (Diff/Texts), option.rs (Diff/Options), vec.rs (Diff/Vecs), hashmap.rs (Diff/Maps),
--              hashset.rs (Diff/Sets); and the implementations of the trait in identity_core/src/common
--              (Diff/Collections), the implementations through a text (Diff/Parsed), those of
--              identity_did/src/diff (Diff/Documents, Diff/Methods, Diff/Services), and the `PartialEq` of
--              DID URLs and of what holds them (Diff/Sameness, Diff/Documents/Sameness). A panic is an
--              error of its own.
--   Did        identity_did/src: did/did_url.rs (Did/Url), utils/did_url_query.rs and queryable.rs
--              (Did/Query), verification (Did/Method), service/service.rs (Did/Service),
--              document/core_document.rs (Did/Document, Did/Editing, Did/Mapping, Did/Verify), builder.rs
--              (Did/Builder), the builders of methods and services (Did/Building),
--              verifiable/document_signer.rs (Did/Signing), revocation/bitmap.rs with the updates of
--              core_document.rs (Did/Revocation). A DID is a
--              type with decidable equality, and its text is the argument `as_str`; an edit takes the
--              document and gives the new document with the result of the call.
--   Chain      identity_iota_client/src: tangle/message/message_index.rs (Chain/Index),
--              chain/milestone.rs (Chain/Milestone), document/resolved_iota_document.rs
--              (Chain/Documents), chain/integration_chain.rs (Chain/Integration), chain/diff_chain.rs
--              and tangle/publish.rs (Chain/Differences), chain/document_chain.rs (Chain/History).
--   Stardust   identity_stardust/src: did/stardust_did.rs and network/network_name.rs (Stardust/Did),
--              state_metadata and document/stardust_document.rs (Stardust/Metadata). The documents
--              see the DIDs by the interface DidConversion, which Stardust/Conversion fills.
--   Credential identity_credential/src: the data of credential, presentation and error.rs
--              (Credential/Data), their builders (Credential/Builder), check_structure
--              (Credential/Structure), credential/revocation_bitmap_status.rs (Credential/Status),
--              validator/credential_validator.rs (Credential/Validator), presentation_validator.rs
--              (Credential/Presentation). The validators see documents by the interface
--              ValidatorDocument, which Credential/Validator/Documents fills with the documents of
--              Did/Verify and Did/Revocation.
--   Iota       identity_iota_core/src: did/iota_did.rs and segments.rs with tangle/network.rs (Iota/Did);
--              document/iota_document.rs and its metadata (Iota/Document); the
--              documents fill the interface of the chains (Iota/Chains). The differences of documents and
--              the messages that carry them, in identity_iota_core/src/diff (Iota/Metadata,
--              Iota/Differences).
--
-- Parameters. The node that is asked for the milestone of a message is a function that gives an index,
-- nothing, or an error. The parse of a message is a function to an optional document. What the chains
-- ask of a document (its DID, its previous message id, the checks of signatures, the merge) is the
-- interface of Chain/Documents and Chain/Differences. Message ids are the numbers that their 32 bytes
-- write, so that their order is the order of the bytes, and the null id is zero. A DID of the did_url
-- crate gives its method and its method id, with the laws of CoreDid in Stardust/Did; the decoding of
-- hexadecimal text is a test, that of base58 a function; JSON is two functions, of which the second is
-- assumed to undo the first. The signature suite signs and verifies the serialized data, of which the
-- value of the proof is no part; that a verifier accepts what the signer with the matching key has
-- made is a hypothesis of the theorems on both. The roaring bitmap is a set of numbers with insert,
-- remove and contains; zlib, base64, UTF-8 and data URLs read what they have written. The clock is an
-- argument, and so is the order of times. The suite JcsEd25519 of identity_core is such a parameter,
-- too.
--
-- Choices. The feature `revocation-bitmap`, a default one, is taken as on. sort_by_milestone
-- (identity_iota_client/src/chain/milestone.rs) polls its queries at once, and returns the first error
-- that arrives; the model asks in the order of the list and has one error of the client. Verifying
-- hides the value of a proof while the data is serialized, by a flag that `hide_value` and
-- `show_value` set (identity_core/src/crypto/signature/core.rs), and leaves it hidden when the suite
-- refuses; the flag is left out of the proof, since what the suite signs does not hold the value.
--
-- The differences of documents, methods and services are functions of those of their parts;
-- Diff/Documents/Program puts the program's own parts together: DIDs, URLs and aliases through their
-- text, methods, references and services by Diff/Methods and Diff/Services. What is left as a
-- parameter are the text of DIDs, the parses, and the differences of the properties, with the laws of
-- Diff/Interface as hypotheses: the properties are `Object`s, sorted maps of JSON values whose
-- differences carry the whole value. DID URLs are compared as the program compares them, without a
-- difference between an empty part and none, and the laws are stated for URLs that the parse reads
-- back from their text: the type RelativeDidUrl admits an empty path, `some []`, which its setters
-- never store. A method without a fragment in its id is never read back, since the builder refuses it.
--
-- Loops. The loops over lists are structural recursion. The two loops that follow the index of
-- messages run on fuel; each round removes a key of the index, so that the number of keys and one more
-- is enough, which the theorems on them show, since they state what the result is for every index.
--
-- Not modelled: the flag that hides a proof, serialization, display for people and iterators; the
-- parse and the join of DID URLs and DIDs, which a library does; the signature algorithms and the
-- keys; the setters of option structs; custom properties of credentials; the account and its storage,
-- the agent and the messages of identity_comm, libjose, and the bindings.
pub mod Chain
pub mod Core
pub mod Credential
pub mod Did
pub mod Diff
pub mod Iota
pub mod Prelude
pub mod Stardust
