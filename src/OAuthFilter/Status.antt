-- ===== src/OAuthFilter/Status.antt =====
-- src/rest/oauth_filter.cc, src/util/access_control.cc: which status a request is answered with.
use fiware_io_tagent_cpluspl.Common.{
  ℕ, Bytes, codes, Bool, true, false, Bool-cases, ◌==◌, ==_iff, Option, none, some, inl, inr, ◌↔◌,
  ◌⊎◌, ◌≡◌, ◌≢◌, refl, is_empty, arith,
}
use fiware_io_tagent_cpluspl.OAuthFilter.{
  Request, OAuthFilter, Validation, validate_user_token, handle_no_allowed, is_public,
  service_path_or_root, is_incomplete, handle_request, get_resource, get_relative_resource,
  get_action, authorize, access_control, contains, receive_event, continue, status_of,
}

-- Nothing is missing of the headers and of the filter's configuration.
abbrev pub IsComplete : OAuthFilter → Request → Type 0
IsComplete f r =
    (is_empty r.fiware_service ≡ false)
    × (is_empty r.x_auth_token ≡ false)
    × (is_empty f.auth_endpoint_validate ≡ false)
    × (is_empty f.auth_endpoint_roles ≡ false)
    × (is_empty f.auth_endpoint_projects ≡ false)
    × (is_empty f.user ≡ false)
    × (is_empty f.password ≡ false)
    × (is_empty f.domain ≡ false)
    × (is_empty f.ac_endpoint ≡ false)

-- The access control answered with status 200 and a content that has the word.
abbrev pub Permits : Option (ℕ × Bytes) → Type 0
Permits none = true ≡ false
Permits (some (status, content)) = (status ≡ 200) × (contains (codes "Permit") content ≡ true)

is_incomplete_iff : (f : OAuthFilter) (r : Request) → (is_incomplete f r ≡ false) ↔ IsComplete f r
unfolding is_incomplete service_path_or_root
is_incomplete_iff f r = ground arith

receive_event_iff :
    (response : Option (ℕ × Bytes)) → (receive_event response ≡ true) ↔ Permits response
unfolding receive_event
receive_event_iff none = ground arith
receive_event_iff (some (status, content)) = ground arith

resource_named :
    (service subservice path : Bytes) → is_empty (get_resource service subservice path) ≡ false
unfolding get_resource
resource_named service subservice path = refl

module _ (matches : Bytes → Bytes → Bool) (f : OAuthFilter) (r : Request) (v : Validation) where
  abbrev action : Bytes
  action = get_action matches f r.method (get_relative_resource f r.resource)

  authorize_iff :
      (response : Option (ℕ × Bytes))
      → is_empty f.ac_endpoint ≡ false
      → ((continue matches f r v response
              (validate_user_token r.x_auth_token r.fiware_service (service_path_or_root r))
            ≡ 200)
          ↔ ((is_empty v.user_id ≡ false)
              × ((v.roles_size == 0) ≡ false)
              × (is_empty action ≡ false)
              × (receive_event response ≡ true)))
        × ((continue matches f r v response
                (validate_user_token r.x_auth_token r.fiware_service (service_path_or_root r))
              ≡ 200)
            ⊎ (continue matches f r v response
                  (validate_user_token r.x_auth_token r.fiware_service (service_path_or_root r))
                ≡ 401)
            ⊎ (continue matches f r v response
                  (validate_user_token r.x_auth_token r.fiware_service (service_path_or_root r))
                ≡ 403))
  unfolding continue authorize handle_no_allowed access_control
  authorize_iff response ac =
      ground
        (arith, ac, resource_named v.user_domain v.project (get_relative_resource f r.resource))

  status_of_public :
      (response : Option (ℕ × Bytes))
      → is_public f r ≡ true
      → status_of matches f r v response ≡ 200
  unfolding status_of handle_request continue
  status_of_public response e = rw (e, handle_request) refl

  status_of_incomplete :
      (response : Option (ℕ × Bytes))
      → is_public f r ≡ false
      → is_incomplete f r ≡ true
      → status_of matches f r v response ≡ 401
  unfolding status_of handle_request continue handle_no_allowed
  status_of_incomplete response e i = rw (e, i, handle_request) refl

  status_of_complete :
      (response : Option (ℕ × Bytes))
      → is_public f r ≡ false
      → is_incomplete f r ≡ false
      → status_of matches f r v response
        ≡ continue matches f r v response
            (validate_user_token r.x_auth_token r.fiware_service (service_path_or_root r))
  unfolding status_of handle_request
  status_of_complete response e i = rw (e, i, handle_request) refl

  -- The filter answers 200, 401 or 403. It answers 200 exactly for the two public resources, and when
  -- all of this holds: no header that it needs and no part of the configuration is missing (the
  -- service path may be), the validation gave a user and a tree of roles that is not empty, the method
  -- and the resource have an action, and the access control answered with status 200 and a content
  -- that has the word Permit.
  pub status_of_iff :
      (response : Option (ℕ × Bytes))
      → ((status_of matches f r v response ≡ 200) ↔ (
          (is_public f r ≡ true)
          ⊎ (IsComplete f r
              × (is_empty v.user_id ≡ false)
              × (v.roles_size ≢ 0)
              × (is_empty (get_action matches f r.method (get_relative_resource f r.resource))
                  ≡ false)
              × Permits response)))
        × ((status_of matches f r v response ≡ 200)
            ⊎ (status_of matches f r v response ≡ 401)
            ⊎ (status_of matches f r v response ≡ 403))
  status_of_iff response = elim (Bool-cases (is_public f r)) [
    | inl e ↦ ground (arith, e, status_of_public response e)
    | inr e ↦ elim (Bool-cases (is_incomplete f r)) [
      | inl i ↦ ground (arith, is_incomplete_iff f r, e, i, status_of_incomplete response e i)
      | inr i ↦
          let complete : IsComplete f r = (is_incomplete_iff f r).0 i in
          rw (status_of_complete response e i) (
            ground (
              arith,
              e,
              complete,
              authorize_iff response complete.8,
              receive_event_iff response,
              (==_iff v.roles_size 0),
            ))
    ]
  ]
