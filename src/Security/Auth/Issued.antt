-- ===== src/Security/Auth/Issued.antt =====
-- The life of an API key: it authenticates its tenant once it is created, and no longer once it is
-- revoked.
use mathlib.Core.Path.{subst}
use enterprise_doc_rag.Common.{
  ℕ, ◌≤◌, ◌≡◌, refl, ◌≢◌, ◌⊎◌, inl, inr, String, Bool, true, false, Option, none, some, List, [],
  ◌∷◌, arith, ◌==◌, string_eq, nat_eq, Bool-cases, any, select, count_by, update_where, Member,
  scalar-Member, eq_of_count_by, count_by-pos_of_Member, count_by-update_where,
  Member_of_update_where, Member-of_select, Member-select, scalar_one, scalar-Member_of,
  Member-of_update_where_other,
}
use enterprise_doc_rag.Common.Result.{ok, err, http, scalar_one_or_none, first_returned}
use enterprise_doc_rag.Config.{Settings}
use enterprise_doc_rag.Security.Keys.{ApiKey}
use enterprise_doc_rag.Security.Auth.{
  CreateApiKeyRequest, CreateApiKeyResponse, generate_api_key, new_key, has_hash, has_prefix,
  is_revoked, touch, revoke, or_no_filters, get_current_api_key, create_api_key, revoke_api_key,
  revoke_found, require_bootstrap_admin,
}

-- Hashes and ids are unique in the table.
pub record IsKeyTable (keys : List ApiKey) : Type 0 where
  pub unique_hash : (h : String) → count_by (has_hash h) keys ≤ 1
  pub unique_id : (i : ℕ) → count_by (λ k. k.id == i) keys ≤ 1

count_by-any : {A : Type 0} (p : A → Bool) (xs : List A) → any p xs ≡ false → count_by p xs ≡ 0
count_by-any p [] h = refl
count_by-any p (x ∷ xs) h = ground (arith, count_by-any p xs)

module _ (digest : String → String) where
  -- Who authenticates: the caller is a stored key with the digest of what was sent, and it is not
  -- revoked. Every other call is answered by 401.
  pub get_current_api_key-cases :
      (raw : String) (now : ℕ) (keys : List ApiKey)
      → IsKeyTable keys
      → ((k : ApiKey) × Member k keys
          × (k.key_hash ≡ digest raw)
          × (k.revoked_at ≡ none)
          × (get_current_api_key digest raw now keys
              ≡ ok (touch now k, update_where (λ j. j.id == k.id) (touch now) keys)))
        ⊎ ((((k : ApiKey) → Member k keys → k.key_hash ≡ digest raw → k.revoked_at ≢ none))
            × (get_current_api_key digest raw now keys ≡ err (http 401)))
  unfolding get_current_api_key
  get_current_api_key-cases raw now keys t =
      elim (scalar-Member (has_hash (digest raw)) keys (t.unique_hash (digest raw))) [
        | inl (e, z) ↦ inr (
          λ k m h r. absurd (
              omega
                (arith, z, count_by-pos_of_Member (has_hash (digest raw)) k keys m (ground arith))),
          rw e,
        )
        | inr (k, e, m, h) ↦ elim (Bool-cases (is_revoked k)) [
          | inl gone ↦ inr (
            λ j n same r.
                let one : j ≡ k =
                  eq_of_count_by (has_hash (digest raw)) j k keys n m (ground arith) h
                    (t.unique_hash (digest raw)) in
                let s : is_revoked j ≡ true = rw one gone in ground arith,
            rw (e, gone),
          )
          | inr live ↦ inl (k, m, ground arith, ground arith, rw (e, live))
        ]
      ]

  -- A stored key that is not revoked authenticates whoever sends its text.
  authenticates :
      (raw : String) (now : ℕ) (keys : List ApiKey)
      → IsKeyTable keys
      → (k : ApiKey) → Member k keys
      → k.key_hash ≡ digest raw
      → k.revoked_at ≡ none
      → get_current_api_key digest raw now keys
        ≡ ok (touch now k, update_where (λ j. j.id == k.id) (touch now) keys)
  authenticates raw now keys t k m h r = elim (get_current_api_key-cases raw now keys t) [
    | inr (none_live, e) ↦ absurd (none_live k m h r)
    | inl (j, n, g, s, e) ↦
        let one : j ≡ k =
          eq_of_count_by (has_hash (digest raw)) j k keys n m (ground arith) (ground arith)
            (t.unique_hash (digest raw)) in
        subst
          (λ x.
            get_current_api_key digest raw now keys
            ≡ ok (touch now x, update_where (λ j. j.id == x.id) (touch now) keys))
          one e
  ]

  module _ (settings : Settings) (admin : String) where
    -- What a creation that returns has done.
    created :
        (request : CreateApiKeyRequest) (token : String) (new_id now : ℕ) (keys keys' : List ApiKey)
        (response : CreateApiKeyResponse)
        → create_api_key digest settings admin request token new_id now keys ≡ ok (response, keys')
        → (any (has_hash (generate_api_key digest token).key_hash) keys ≡ false)
          × (keys' ≡ new_key digest new_id now (generate_api_key digest token) request ∷ keys)
          × (response.api_key ≡ (generate_api_key digest token).full_key)
    unfolding create_api_key
    created request token new_id now keys keys' response h = ground arith

    created-IsKeyTable :
        (k : ApiKey) (keys : List ApiKey)
        → IsKeyTable keys
        → any (has_hash k.key_hash) keys ≡ false
        → count_by (λ j. j.id == k.id) keys ≡ 0
        → IsKeyTable (k ∷ keys)
    created-IsKeyTable k keys t new fresh = record {
      unique_hash = λ h. elim (Bool-cases (has_hash h k)) [
        | inl here ↦
            let e : k.key_hash ≡ h = ground arith in
            let z : count_by (has_hash h) keys ≡ 0 =
              subst (λ g. count_by (has_hash g) keys ≡ 0) e
                (count_by-any (has_hash k.key_hash) keys new) in
            rw here (omega arith)
        | inr other ↦ rw other (omega (arith, t.unique_hash h))
      ];
      unique_id = λ i. elim (Bool-cases (k.id == i)) [
        | inl here ↦
            let e : k.id ≡ i = ground arith in
            let z : count_by (λ j. j.id == i) keys ≡ 0 =
              subst (λ g. count_by (λ j. j.id == g) keys ≡ 0) e fresh in
            rw here (omega arith)
        | inr other ↦ rw other (omega (arith, t.unique_id i))
      ];
    }

    -- A key that was created authenticates: whoever sends the key of the response is the tenant
    -- that was asked for, under the filters that were asked for.
    pub create_authenticates :
        (request : CreateApiKeyRequest) (token : String) (new_id now later : ℕ)
        (keys keys' : List ApiKey) (response : CreateApiKeyResponse)
        → IsKeyTable keys
        → count_by (λ j. j.id == new_id) keys ≡ 0
        → create_api_key digest settings admin request token new_id now keys ≡ ok (response, keys')
        → (k : ApiKey) × (keys'' : List ApiKey) × (get_current_api_key digest response.api_key later
              keys'
            ≡ ok (k, keys''))
          × (k.tenant_id ≡ request.tenant_id)
          × (k.allowed_filters ≡ or_no_filters request.allowed_filters)
    unfolding generate_api_key
    create_authenticates request token new_id now later keys keys' response t fresh h =
        let generated = generate_api_key digest token in
        let k = new_key digest new_id now generated request in
        let (new, e, f) = created request token new_id now keys keys' response h in
        let t' : IsKeyTable (k ∷ keys) = created-IsKeyTable k keys t new fresh in
        (
          touch later k,
          update_where (λ j. j.id == new_id) (touch later) (k ∷ keys),
          rw (e, f) (authenticates generated.full_key later (k ∷ keys) t' k (inl refl) refl refl),
          refl,
          refl,
        )

    revoke_found-cases :
        (found : Option ApiKey) (now : ℕ) (keys keys' : List ApiKey)
        → revoke_found settings now keys found ≡ ok keys'
        → (k : ApiKey) × (found ≡ some k)
          × (keys' ≡ update_where (λ j. j.id == k.id) (revoke now) keys)
    unfolding revoke_found
    revoke_found-cases none now keys keys' h = cc
    revoke_found-cases (some k) now keys keys' h = (k, refl, cc h)

    revoked :
        (prefix : String) (now : ℕ) (keys keys' : List ApiKey)
        → revoke_api_key settings admin prefix now keys ≡ ok keys'
        → (k : ApiKey) × (scalar_one_or_none (select (has_prefix prefix) keys) ≡ ok (some k))
          × (keys' ≡ update_where (λ j. j.id == k.id) (revoke now) keys)
    unfolding revoke_api_key
    revoked prefix now keys keys' h =
        let (u, h1, e1) = first_returned _ (require_bootstrap_admin settings admin) h in
        let (found, h2, e2) =
          first_returned _ (scalar_one_or_none (select (has_prefix prefix) keys)) h1 in
        let (k, e, f) = revoke_found-cases found now keys keys' h2 in (k, rw e at e2, f)

    revoked-IsKeyTable :
        (i now : ℕ) (keys : List ApiKey)
        → IsKeyTable keys
        → IsKeyTable (update_where (λ j. j.id == i) (revoke now) keys)
    revoked-IsKeyTable i now keys t = record {
      unique_hash = λ h.
          rw (count_by-update_where (has_hash h) (λ j. j.id == i) (revoke now) keys (λ x e. refl))
            (t.unique_hash h);
      unique_id = λ n.
          rw
            (count_by-update_where (λ j. j.id == n) (λ j. j.id == i) (revoke now) keys
              (λ x e. refl))
            (t.unique_id n);
    }

    -- Once a key is revoked by its prefix, nobody authenticates with it any more.
    pub revoke_ends :
        (prefix : String) (now later : ℕ) (keys keys' : List ApiKey)
        → IsKeyTable keys
        → revoke_api_key settings admin prefix now keys ≡ ok keys'
        → (k : ApiKey) (raw : String) → Member k keys
        → k.key_prefix ≡ prefix
        → k.key_hash ≡ digest raw
        → get_current_api_key digest raw later keys' ≡ err (http 401)
    revoke_ends prefix now later keys keys' t h k raw m p g =
        let (x, e, f) = revoked prefix now keys keys' h in
        let one : k ≡ x =
          scalar_one (select (has_prefix prefix) keys) x k e
            (Member-of_select (has_prefix prefix) k keys m (ground arith)) in
        let t' : IsKeyTable (update_where (λ j. j.id == x.id) (revoke now) keys) =
          revoked-IsKeyTable x.id now keys t in
        let m' : Member (revoke now k) (update_where (λ j. j.id == x.id) (revoke now) keys) =
          Member_of_update_where (λ j. j.id == x.id) (revoke now) k keys m
            (rw one (ground arith)) in
        rw f (elim (get_current_api_key-cases raw later _ t') [
          | inr (none_live, e') ↦ e'
          | inl (j, n, same, live, e') ↦
              let both : j ≡ revoke now k =
                eq_of_count_by (has_hash (digest raw)) j (revoke now k) _ n m' (ground arith)
                  (ground arith) (t'.unique_hash (digest raw)) in
              cc
        ])

    -- A key under another prefix still authenticates its tenant.
    pub revoke_spares :
        (prefix : String) (now later : ℕ) (keys keys' : List ApiKey)
        → IsKeyTable keys
        → revoke_api_key settings admin prefix now keys ≡ ok keys'
        → (k : ApiKey) (raw : String) → Member k keys
        → k.key_prefix ≢ prefix
        → k.key_hash ≡ digest raw
        → k.revoked_at ≡ none
        → (keys'' : List ApiKey) × (get_current_api_key digest raw later keys'
            ≡ ok (touch later k, keys''))
    revoke_spares prefix now later keys keys' t h k raw m p g live =
        let (x, e, f) = revoked prefix now keys keys' h in
        let t' : IsKeyTable (update_where (λ j. j.id == x.id) (revoke now) keys) =
          revoked-IsKeyTable x.id now keys t in
        let found = scalar-Member_of (select (has_prefix prefix) keys) x e in
        let (n, q) = Member-select (has_prefix prefix) x keys found in
        let apart : (k.id == x.id) ≡ false = elim (Bool-cases (k.id == x.id)) [
          | inr other ↦ other
          | inl same ↦
              let one : k ≡ x =
                eq_of_count_by (λ j. j.id == x.id) k x keys m n same (ground arith)
                  (t.unique_id x.id) in
              absurd (p (rw one (ground arith)))
        ] in
        let m' = Member-of_update_where_other (λ j. j.id == x.id) (revoke now) k keys m apart in
        (
          update_where (λ j. j.id == k.id) (touch later)
              (update_where (λ j. j.id == x.id) (revoke now) keys),
          rw f (authenticates raw later _ t' k m' g live),
        )
