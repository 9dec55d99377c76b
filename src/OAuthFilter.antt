-- ===== src/OAuthFilter.antt =====
-- src/rest/oauth_filter.cc, src/rest/http_filter.h and src/util/access_control.cc: the filter that asks for the
-- validation of a request's token and for its authorization, and answers through a callback.
pub mod Actions
pub mod Status
pub mod Callbacks
mod Tests
use fiware_io_tagent_cpluspl.Common.{
  ℕ, zero, suc, Bytes, codes, str_eq, bytes_key, Bool, true, false, not, ◌&&◌, ◌||◌, ◌==◌, Option,
  none, some, List, [], ◌∷◌, ◌++◌, length, take, drop, is_empty, if◌then◌else◌,
}
use fiware_io_tagent_cpluspl.Common.Map.{Assoc, find}

-- What the filter reads of a pion request.
pub record Request : Type 0 where
  pub resource : Bytes
  pub method : Bytes
  pub fiware_service : Bytes
  pub fiware_servicepath : Bytes
  pub x_auth_token : Bytes
  pub trace : Bytes

-- `url_base` is iota::Process::get_url_base(). The two multimaps are in the order of their keys, and
-- give the regular expression of an action.
pub record OAuthFilter : Type 0 where
  pub url_base : Bytes
  pub auth_endpoint_validate : Bytes
  pub auth_endpoint_roles : Bytes
  pub auth_endpoint_projects : Bytes
  pub ac_endpoint : Bytes
  pub user : Bytes
  pub password : Bytes
  pub domain : Bytes
  pub pep_rules : List (Bytes × Bytes)
  pub uri_actions : List (Bytes × Bytes)
  pub filter_url : Bytes

-- One of the `role_assignments`, as authorize reads it, with "" for what is not there.
pub record Assignment : Type 0 where
  pub scope_domain_id : Bytes
  pub scope_project_id : Bytes
  pub role_id : Bytes

-- What the getters of iota::OAuth return after the validation of the token. `role_assignments` is
-- none when the tree of roles has no such child.
pub record Validation : Type 0 where
  pub user_id : Bytes
  pub user_domain : Bytes
  pub project : Bytes
  pub subservice_id : Bytes
  pub service_id : Bytes
  pub roles_size : ℕ
  pub role_assignments : Option (List Assignment)

-- What the filter does next: it posts a status for the callback of a request, has the token
-- validated for a service and a path, or asks the access control.
pub data Step : Type 0 where
  post : Bytes → ℕ → Step
  validate_user_token : Bytes → Bytes → Bytes → Step
  ask_access_control : List Bytes → Bytes → Bytes → Step

-- HTTPFilter::handle_no_allowed
unfoldable pub handle_no_allowed : Request → ℕ → Step
handle_no_allowed r status = post r.trace status

unfoldable pub is_public : OAuthFilter → Request → Bool
is_public f r =
    str_eq r.resource (f.url_base ++ codes "/about")
    || str_eq r.resource (f.url_base ++ codes "/protocols")

unfoldable pub service_path_or_root : Request → Bytes
service_path_or_root r = if is_empty r.fiware_servicepath then codes "/" else r.fiware_servicepath

-- The test that nothing is missing of the headers and the configuration.
unfoldable pub is_incomplete : OAuthFilter → Request → Bool
is_incomplete f r =
    is_empty r.fiware_service
    || (is_empty (service_path_or_root r)
        || (is_empty r.x_auth_token
            || (is_empty f.auth_endpoint_validate
                || (is_empty f.auth_endpoint_roles
                    || (is_empty f.auth_endpoint_projects
                        || (is_empty f.user
                            || (is_empty f.password
                                || (is_empty f.domain || is_empty f.ac_endpoint))))))))

-- OAuthFilter::handle_request
unfoldable pub handle_request : OAuthFilter → Request → Step
handle_request f r =
    if is_public f r
    then post r.trace 200
    else if is_incomplete f r
    then handle_no_allowed r 401
    else validate_user_token r.x_auth_token r.fiware_service (service_path_or_root r)

-- OAuthFilter::get_resource
unfoldable pub get_resource : Bytes → Bytes → Bytes → Bytes
get_resource service subservice path =
    codes "fiware:iotagent:" ++ (service ++ (codes ":" ++ (subservice ++ (codes ":" ++ path))))

-- OAuthFilter::get_relative_resource
unfoldable pub get_relative_resource : OAuthFilter → Bytes → Bytes
get_relative_resource f resource =
    if str_eq (take (length f.filter_url) resource) f.filter_url
    then drop (length f.filter_url) resource
    else resource

-- iota::actions
unfoldable pub verb_action : Bytes → Bytes
verb_action verb =
    if str_eq verb (codes "GET")
    then codes "read"
    else if str_eq verb (codes "POST")
    then codes "create"
    else if str_eq verb (codes "PUT")
    then codes "update"
    else if str_eq verb (codes "DELETE")
    then codes "delete"
    else []

-- `matches regex uri` is regex_match of Boost, which restResourceParse calls.
module _ (matches : Bytes → Bytes → Bool) where
  -- One of the two loops of get_action: it goes on while `action` is empty.
  unfoldable pub rule_loop : Bytes → List (Bytes × Bytes) → Bytes → Bytes
  rule_loop uri [] action = action
  rule_loop uri ((name, regex) ∷ rules) action =
      if is_empty action
      then rule_loop uri rules (if matches regex uri then name else action)
      else action

  -- OAuthFilter::get_action
  unfoldable pub get_action : OAuthFilter → Bytes → Bytes → Bytes
  get_action f verb uri =
      let uri_regex = verb ++ (codes " " ++ uri) in
      let by_rule = rule_loop uri_regex f.pep_rules [] in
      let by_uri =
        if is_empty by_rule then rule_loop uri_regex f.uri_actions by_rule else by_rule in
      if is_empty by_uri then verb_action verb else by_uri

  -- The loop of authorize over the role assignments.
  unfoldable pub roles_of : Validation → List Assignment → List Bytes
  roles_of v [] = []
  roles_of v (a ∷ assignments) =
      let rest = roles_of v assignments in
      if str_eq v.project (codes "/")
      then if str_eq a.scope_domain_id v.service_id then a.role_id ∷ rest else rest
      else if str_eq a.scope_project_id v.subservice_id
      then a.role_id ∷ rest
      else rest

  -- Without a child `role_assignments`, the exception leaves the roles empty.
  unfoldable pub user_subservice_roles : Validation → List Bytes
  user_subservice_roles v = elim v.role_assignments [
    | none ↦ []
    | some assignments ↦ roles_of v assignments
  ]

  -- OAuthFilter::authorize
  unfoldable pub authorize : OAuthFilter → Request → Validation → Step
  authorize f r v =
      let resource_id = get_resource v.user_domain v.project (get_relative_resource f r.resource) in
      let action = get_action f r.method (get_relative_resource f r.resource) in
      if is_empty v.user_id
        || (v.roles_size == 0
            || (is_empty resource_id || (is_empty action || is_empty f.ac_endpoint)))
      then handle_no_allowed r 401
      else ask_access_control (user_subservice_roles v) resource_id action

-- OAuthFilter::access_control
unfoldable pub access_control : Request → Bool → Step
access_control r authorized = post r.trace (if authorized then 200 else 403)

unfoldable pub starts_with : Bytes → Bytes → Bool
starts_with [] text = true
starts_with (c ∷ word) [] = false
starts_with (c ∷ word) (d ∷ text) = c == d && starts_with word text

-- content.find(word) != npos
unfoldable pub contains : Bytes → Bytes → Bool
contains word [] = is_empty word
contains word (c ∷ text) = starts_with word (c ∷ text) || contains word text

-- The authorization in AccessControl::receive_event, of a response with a status and a content.
unfoldable pub receive_event : Option (ℕ × Bytes) → Bool
receive_event none = false
receive_event (some (status, content)) =
    if status == 200 then contains (codes "Permit") content else false

-- A request from its arrival to the posted status, for what the two services answer.
unfoldable pub continue :
    (Bytes → Bytes → Bool) → OAuthFilter → Request → Validation → Option (ℕ × Bytes) → Step → ℕ
continue matches f r v response (post trace status) = status
continue matches f r v response (validate_user_token token service path) =
    elim (authorize matches f r v) [
      | post trace status ↦ status
      | validate_user_token token service path ↦ 0
      | ask_access_control roles resource action ↦
          elim (access_control r (receive_event response)) [
            | post trace status ↦ status
            | validate_user_token token service path ↦ 0
            | ask_access_control roles resource action ↦ 0
          ]
    ]
continue matches f r v response (ask_access_control roles resource action) = 0

unfoldable pub status_of :
    (Bytes → Bytes → Bool) → OAuthFilter → Request → Validation → Option (ℕ × Bytes) → ℕ
status_of matches f r v response = continue matches f r v response (handle_request f r)
