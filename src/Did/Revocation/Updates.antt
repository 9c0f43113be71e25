-- ===== src/Did/Revocation/Updates.antt =====
-- What the revocation and its undoing do to the bitmap of a document.
use identity_rs.Core.OneOrSet.{contains_key}
use identity_rs.Did.Document.{CoreDocument}
use identity_rs.Did.Query.{query, matches}
use identity_rs.Did.Revocation.{
  update_first, revoke_all, unrevoke_all, try_from_service, update_service,
  resolve_revocation_bitmap, update_revocation_bitmap, revoke_credentials, unrevoke_credentials,
}
use identity_rs.Did.Revocation.Bitmap.{
  Bitmaps, Codec, ServiceEndpoint, Error, service_not_found, is_revoked, revoke, unrevoke,
  to_endpoint, from_endpoint-to_endpoint, bitmap_type,
}
use identity_rs.Did.Service.{Service}
use identity_rs.Prelude.{
  ℕ, ◌≡◌, refl, Bool, true, not, ◌&&◌, ◌||◌, Option, none, some, List, [], ◌∷◌, any, find, subst,
  nat_beq, Outcome, ok, err, ◌>>=◌, ok_or, Outcome-cases, bind_parts, Text, nat_eq, list_eq, arith,
  Bool-cases, inl, inr,
}

-- The first item is found and replaced: it is found again if the change keeps what is looked for.
update_first_found :
    {E A : Type 0} (found : A → Bool) (change : A → Outcome E A) (missing : E) (items : List A)
    (item item' : A)
    → find found items ≡ some item
    → change item ≡ ok item'
    → found item' ≡ true
    → (items' : List A) × (update_first found change missing items ≡ ok items')
      × (find found items' ≡ some item')
unfolding update_first
update_first_found found change missing [] item item' h c f = cc
update_first_found found change missing (x ∷ xs) item item' h c f = elim (Bool-cases (found x)) [
  | inl here ↦
      let same : x ≡ item = ground arith in (item' ∷ xs, rw (here, same, c) refl, rw f refl)
  | inr there ↦
      let (items', updated, again) =
        update_first_found found change missing xs item item' (ground arith) c f in
      (x ∷ items', rw (there, updated) refl, rw (there, again) refl)
]

update_first_err :
    {E A : Type 0} (found : A → Bool) (change : A → Outcome E A) (missing e : E) (items : List A)
    → (ok_or (find found items) missing >>= change) ≡ err e
    → update_first found change missing items ≡ err e
unfolding update_first
update_first_err found change missing e [] h = ground arith
update_first_err found change missing e (x ∷ xs) h = elim (Bool-cases (found x)) [
  | inl here ↦ let failed : change x ≡ err e = ground arith in rw (here, failed) refl
  | inr there ↦ rw (there, update_first_err found change missing e xs (ground arith)) refl
]

module _ {B : Type 0} (bitmaps : Bitmaps B) where
  contains-revoke_all :
      (bitmap : B) (indices : List ℕ) (index : ℕ)
      → is_revoked bitmaps (revoke_all bitmaps bitmap indices) index
        ≡ (any (λ i. nat_beq i index) indices || is_revoked bitmaps bitmap index)
  unfolding revoke_all is_revoked revoke
  contains-revoke_all bitmap [] index = ground arith
  contains-revoke_all bitmap (i ∷ is) index = ground (
    arith,
    contains-revoke_all (bitmaps.insert bitmap i).0 is index,
    bitmaps.contains-insert bitmap i index,
  )

  contains-unrevoke_all :
      (bitmap : B) (indices : List ℕ) (index : ℕ)
      → is_revoked bitmaps (unrevoke_all bitmaps bitmap indices) index
        ≡ (not (any (λ i. nat_beq i index) indices) && is_revoked bitmaps bitmap index)
  unfolding unrevoke_all is_revoked unrevoke
  contains-unrevoke_all bitmap [] index = ground arith
  contains-unrevoke_all bitmap (i ∷ is) index = ground (
    arith,
    contains-unrevoke_all (bitmaps.remove bitmap i).0 is index,
    bitmaps.contains-remove bitmap i index,
  )

find-true : {A : Type 0} (p : A → Bool) (xs : List A) (x : A) → find p xs ≡ some x → p x ≡ true
find-true p [] x h = cc
find-true p (y ∷ ys) x h = elim (Bool-cases (p y)) [
  | inl here ↦ let same : y ≡ x = ground arith in subst (λ z. p z ≡ true) same here
  | inr there ↦ find-true p ys x (ground arith)
]

ok_or-ok : {E A : Type 0} (o : Option A) (e : E) (a : A) → ok_or o e ≡ ok a → o ≡ some a
ok_or-ok none e a h = cc
ok_or-ok (some x) e a h = ground arith

module _ {B E D V : Type 0} (codec : Codec B E) where
  written_service :
      (f : B → B) (service : Service D V ServiceEndpoint) (bitmap : B) (endpoint : ServiceEndpoint)
      → try_from_service codec service ≡ ok bitmap
      → to_endpoint codec (f bitmap) ≡ ok endpoint
      → update_service codec f service ≡ ok (record service { service_endpoint = endpoint })
  unfolding update_service
  written_service f service bitmap endpoint read written = rw (read, written) refl

  read_again :
      (service : Service D V ServiceEndpoint) (bitmap bitmap' : B) (endpoint : ServiceEndpoint)
      → try_from_service codec service ≡ ok bitmap
      → to_endpoint codec bitmap' ≡ ok endpoint
      → try_from_service codec (record service { service_endpoint = endpoint }) ≡ ok bitmap'
  unfolding try_from_service
  read_again service bitmap bitmap' endpoint read written =
      elim (Bool-cases (contains_key (λ (t : Text). t) service.type_ bitmap_type)) [
        | inl typed ↦ rw typed (from_endpoint-to_endpoint codec bitmap' endpoint written)
        | inr wrong ↦ absurd (ground arith)
      ]

  service_fails :
      (f : B → B) (found : Outcome (Error E) (Service D V ServiceEndpoint)) (e : Error E)
      → (found >>= try_from_service codec) ≡ err e
      → (found >>= update_service codec f) ≡ err e
  unfolding update_service
  service_fails f (ok service) e failed = rw failed refl
  service_fails f (err e') e failed = ground arith

  module _ {T U : Type 0} (as_str : D → Text) where
    update_value :
        (doc : CoreDocument D T U V ServiceEndpoint) (q : Text) (f : B → B)
        (services : List (Service D V ServiceEndpoint))
        → update_first
            (λ s. matches as_str q s.id)
            (update_service codec f)
            service_not_found
            doc.service
          ≡ ok services
        → update_revocation_bitmap codec as_str doc q f ≡ (record doc { service = services }, ok tt)
    unfolding update_revocation_bitmap
    update_value doc q f services updated = rw (update_revocation_bitmap, updated) refl

    pub update_revocation_bitmap-id :
        (doc : CoreDocument D T U V ServiceEndpoint) (q : Text) (f : B → B)
        → (update_revocation_bitmap codec as_str doc q f).0.id ≡ doc.id
    unfolding update_revocation_bitmap
    update_revocation_bitmap-id doc q f =
        elim (Outcome-cases (
          update_first (λ s. matches as_str q s.id) (update_service codec f) service_not_found
            doc.service)) [
              | inl (services, updated) ↦ rw (update_revocation_bitmap, updated) refl
              | inr (e, failed) ↦ rw (update_revocation_bitmap, failed) refl
            ]

    update_resolves :
        (doc : CoreDocument D T U V ServiceEndpoint) (q : Text) (f : B → B) (bitmap : B)
        (endpoint : ServiceEndpoint)
        → resolve_revocation_bitmap codec as_str doc q ≡ ok bitmap
        → to_endpoint codec (f bitmap) ≡ ok endpoint
        → ((update_revocation_bitmap codec as_str doc q f).1 ≡ ok tt)
          × (resolve_revocation_bitmap codec as_str
                (update_revocation_bitmap codec as_str doc q f).0
                q
              ≡ ok (f bitmap))
    unfolding resolve_revocation_bitmap update_revocation_bitmap query
    update_resolves doc q f bitmap endpoint read written =
        let (service, found, read) = bind_parts (ok_or (query as_str _ doc.service q) _) _ read in
        let found' = ok_or-ok _ _ service found in
        let (services, updated, again) =
          update_first_found (λ s. matches as_str q s.id) (update_service codec f) service_not_found
            doc.service service (record service { service_endpoint = endpoint }) found'
            (written_service f service bitmap endpoint read written)
            (find-true (λ (s : Service D V ServiceEndpoint). matches as_str q s.id) doc.service
              service found') in
        (
          rw (update_value doc q f services updated) refl,
          rw (update_value doc q f services updated, again)
              (read_again service bitmap (f bitmap) endpoint read written),
        )

    update_fails :
        (doc : CoreDocument D T U V ServiceEndpoint) (q : Text) (f : B → B) (e : Error E)
        → resolve_revocation_bitmap codec as_str doc q ≡ err e
        → update_revocation_bitmap codec as_str doc q f ≡ (doc, err e)
    unfolding resolve_revocation_bitmap update_revocation_bitmap query
    update_fails doc q f e failed =
        rw
          (
            update_revocation_bitmap,
            update_first_err (λ s. matches as_str q s.id) (update_service codec f) service_not_found
                e doc.service (service_fails f _ e failed),
          )
          refl

    module _ (bitmaps : Bitmaps B) where
      -- Where a query leads to a service with a revocation bitmap, and the new bitmap can be written,
      -- revoking indices succeeds, and then the same query leads to a bitmap in which exactly these
      -- indices and those revoked before are revoked.
      pub revoke_credentials-resolve :
          (doc : CoreDocument D T U V ServiceEndpoint) (q : Text) (indices : List ℕ) (bitmap : B)
          (endpoint : ServiceEndpoint)
          → resolve_revocation_bitmap codec as_str doc q ≡ ok bitmap
          → to_endpoint codec (revoke_all bitmaps bitmap indices) ≡ ok endpoint
          → ((revoke_credentials codec as_str bitmaps doc q indices).1 ≡ ok tt)
            × (bitmap' : B) × (resolve_revocation_bitmap codec as_str
                  (revoke_credentials codec as_str bitmaps doc q indices).0
                  q
                ≡ ok bitmap')
            × ((index : ℕ)
                → is_revoked bitmaps bitmap' index
                  ≡ (any (λ i. nat_beq i index) indices || is_revoked bitmaps bitmap index))
      unfolding revoke_credentials
      revoke_credentials-resolve doc q indices bitmap endpoint read written =
          let (done, again) =
            update_resolves doc q (λ b. revoke_all bitmaps b indices) bitmap endpoint read
              written in
          (
            done,
            revoke_all bitmaps bitmap indices,
            again,
            contains-revoke_all bitmaps bitmap indices,
          )

      -- The same for the undoing: exactly the given indices are no longer revoked.
      pub unrevoke_credentials-resolve :
          (doc : CoreDocument D T U V ServiceEndpoint) (q : Text) (indices : List ℕ) (bitmap : B)
          (endpoint : ServiceEndpoint)
          → resolve_revocation_bitmap codec as_str doc q ≡ ok bitmap
          → to_endpoint codec (unrevoke_all bitmaps bitmap indices) ≡ ok endpoint
          → ((unrevoke_credentials codec as_str bitmaps doc q indices).1 ≡ ok tt)
            × (bitmap' : B) × (resolve_revocation_bitmap codec as_str
                  (unrevoke_credentials codec as_str bitmaps doc q indices).0
                  q
                ≡ ok bitmap')
            × ((index : ℕ)
                → is_revoked bitmaps bitmap' index
                  ≡ (not (any (λ i. nat_beq i index) indices) && is_revoked bitmaps bitmap index))
      unfolding unrevoke_credentials
      unrevoke_credentials-resolve doc q indices bitmap endpoint read written =
          let (done, again) =
            update_resolves doc q (λ b. unrevoke_all bitmaps b indices) bitmap endpoint read
              written in
          (
            done,
            unrevoke_all bitmaps bitmap indices,
            again,
            contains-unrevoke_all bitmaps bitmap indices,
          )
