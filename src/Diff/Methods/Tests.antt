-- ===== src/Diff/Methods/Tests.antt =====
-- A reference to a method becomes a method, and a service changes its types. URLs and DIDs go through
-- their text.
use identity_rs.Core.OneOrSet.{OneOrSet, one, set, into_vec}
use identity_rs.Core.OrderedSet.{contains}
use identity_rs.Did.Method.{embed, refer}
use identity_rs.Did.Samples.{as_str, url, method}
use identity_rs.Did.Service.{Service}
use identity_rs.Did.Url.{get_fragment, did_url_to_string, to_string}
use identity_rs.Diff.Methods.{DiffMethodRef, ref_diff, ref_merge, ref_from_diff, ref_into_diff}
use identity_rs.Diff.Methods.Laws.{ref_merge-diff}
use identity_rs.Diff.Samples.{type_eq, data_eq, types_eq, parse_url, did, did-IsLawful}
use identity_rs.Diff.Sameness
use identity_rs.Diff.Sameness.{url_same, method_same}
use identity_rs.Diff.Services.{
  DiffService, service_diff, service_merge, service_from_diff, service_into_diff,
}
use identity_rs.Diff.Services.Laws.{service_merge-diff}
use identity_rs.Diff.Texts.{primitive, primitive-IsLawful}
use identity_rs.Prelude.{ℕ, ◌≡◌, refl, Option, [], ◌∷◌, ok, Text, text, list_eq, nat_eq}

program : Unit {0}
unfolding get_fragment contains did_url_to_string to_string
program = tt

ref_merge-diff_example :
    ((delta : DiffMethodRef (Option Text) (Option Text) (Option ℕ)) × (ref_diff
          (Sameness.url as_str parse_url)
          did
          (primitive 0)
          0
          (refer (url (text "k1")))
          (embed (method (text "k2")))
        ≡ ok delta)
      × (ref_merge
            (Sameness.url as_str parse_url)
            did
            (primitive 0)
            0
            (refer (url (text "k1")))
            delta
          ≡ ok (embed (method (text "k2")))))
    × ((delta : DiffMethodRef (Option Text) (Option Text) (Option ℕ)) × (ref_into_diff
            (Sameness.url as_str parse_url)
            did
            (primitive 0)
            0
            (embed (method (text "k2")))
          ≡ ok delta)
        × (ref_from_diff (Sameness.url as_str parse_url) did (primitive 0) 0 delta
            ≡ ok (embed (method (text "k2")))))
unfolding program
ref_merge-diff_example =
    ref_merge-diff as_str parse_url did (primitive 0) 0 did-IsLawful (primitive-IsLawful 0)
      (refer (url (text "k1"))) (embed (method (text "k2"))) (refl, refl) (refl, refl)

abbrev service : OneOrSet Text → Service Text ℕ ℕ
service types = record { id = url (text "s"); type_ = types; service_endpoint = 7; properties = 0 }

abbrev two_types : OneOrSet Text
two_types = set (text "a" ∷ text "b" ∷ [])

service_merge-diff_example :
    ((delta : DiffService (Option Text) (Option ℕ) ℕ) × (service_diff
          (Sameness.url as_str parse_url)
          (primitive 0)
          0
          (service (one (text "c")))
          (service two_types)
        ≡ ok delta)
      × (types : OneOrSet Text) × (service_merge
            (Sameness.url as_str parse_url)
            (primitive 0)
            0
            (service (one (text "c")))
            delta
          ≡ ok (service types))
      × (into_vec types ≡ into_vec two_types))
    × ((delta : DiffService (Option Text) (Option ℕ) ℕ) × (service_into_diff
            (Sameness.url as_str parse_url)
            (primitive 0)
            0
            (service two_types)
          ≡ ok delta)
        × (types : OneOrSet Text) × (service_from_diff
              (Sameness.url as_str parse_url)
              (primitive 0)
              0
              delta
            ≡ ok (service types))
        × (into_vec types ≡ into_vec two_types))
unfolding program
service_merge-diff_example =
    service_merge-diff as_str parse_url (primitive 0) 0 (primitive-IsLawful 0)
      (service (one (text "c"))) (service two_types) ((refl, refl), tt)
      ((refl, refl), (refl, (refl, tt)))
