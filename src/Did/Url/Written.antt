-- ===== src/Did/Url/Written.antt =====
-- The URLs that the setters of `RelativeDIDUrl` build.
use identity_rs.Did.Url.{RelativeDidUrl, new, set_path, set_query, set_fragment}
use identity_rs.Did.Url.Validity.{
  IsValid, new-IsValid, set_path-IsValid, set_query-IsValid, set_fragment-IsValid,
}
use identity_rs.Prelude.{◌≡◌, Option, ok, Text}

pub data Written : RelativeDidUrl → Type 0 where
  start : Written new
  path_set :
      (url url' : RelativeDidUrl) (value : Option Text)
      → set_path url value ≡ ok url'
      → Written url
      → Written url'
  query_set :
      (url url' : RelativeDidUrl) (value : Option Text)
      → set_query url value ≡ ok url'
      → Written url
      → Written url'
  fragment_set :
      (url url' : RelativeDidUrl) (value : Option Text)
      → set_fragment url value ≡ ok url'
      → Written url
      → Written url'

-- Whatever texts are given to the setters, and however often, a URL built by those that succeed is
-- well formed: its path begins with `/`, its query with `?` and its fragment with `#`, a query and a
-- fragment are not empty after it, and all other characters are ones that the part allows.
pub Written-IsValid : (url : RelativeDidUrl) → Written url → IsValid url
Written-IsValid _ start = new-IsValid
Written-IsValid _ (path_set url url' value done w) =
    set_path-IsValid url url' value (Written-IsValid url w) done
Written-IsValid _ (query_set url url' value done w) =
    set_query-IsValid url url' value (Written-IsValid url w) done
Written-IsValid _ (fragment_set url url' value done w) =
    set_fragment-IsValid url url' value (Written-IsValid url w) done
