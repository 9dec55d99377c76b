-- ===== src/OAuthFilter/Tests.antt =====
-- Runs of the filter, and instances of its theorems.
use fiware_io_tagent_cpluspl.Common.{
  codes, bytes_key, str_eq, str_below, true, false, some, ◌↔◌, ◌⊎◌, [], ◌∷◌, ◌++◌, ◌≡◌, ◌≢◌, refl,
  is_empty,
}
use fiware_io_tagent_cpluspl.Common.Map.{find}
use fiware_io_tagent_cpluspl.OAuthFilter.{
  Request, OAuthFilter, Validation, is_public, get_action, get_relative_resource, verb_action,
  status_of, rule_loop, user_subservice_roles, roles_of,
}
use fiware_io_tagent_cpluspl.OAuthFilter.Status.{IsComplete, Permits, status_of_iff}
use fiware_io_tagent_cpluspl.OAuthFilter.Actions.{matching, first_named, get_action-first_named}
use fiware_io_tagent_cpluspl.OAuthFilter.Callbacks.{
  Callbacks, called, bad_function_call, set_async_filter, call_to_callback,
  call_to_callback-set_async_filter,
}

abbrev filter : OAuthFilter
filter = record {
  url_base = codes "/iot";
  auth_endpoint_validate = codes "http://k/v3/auth/tokens";
  auth_endpoint_roles = codes "http://k/v3/role_assignments";
  auth_endpoint_projects = codes "http://k/v3/projects";
  ac_endpoint = codes "http://ac/pdp";
  user = codes "pep";
  password = codes "pep";
  domain = codes "admin_domain";
  pep_rules = (codes "readDevice", codes "GET /devices") ∷ [];
  uri_actions = [];
  filter_url = codes "/iot";
}

abbrev request : Request
request = record {
  resource = codes "/iot/devices";
  method = codes "GET";
  fiware_service = codes "house";
  fiware_servicepath = [];
  x_auth_token = codes "token";
  trace = codes "t1";
}

abbrev validation : Validation
validation = record {
  user_id = codes "u";
  user_domain = codes "house";
  project = codes "/";
  subservice_id = [];
  service_id = codes "s1";
  roles_size = 1;
  role_assignments =
      some
        (record { scope_domain_id = codes "s1"; scope_project_id = []; role_id = codes "r" } ∷ []);
}

user_subservice_roles_test : user_subservice_roles str_eq validation ≡ codes "r" ∷ []
unfolding user_subservice_roles roles_of str_eq
user_subservice_roles_test = refl

get_action_test : get_action str_eq filter (codes "GET") (codes "/devices") ≡ codes "readDevice"
unfolding get_action rule_loop str_eq
get_action_test = refl

status_of_iff_example :
    ((status_of str_eq filter request validation (some (200, codes "Permit")) ≡ 200) ↔ (
      (is_public filter request ≡ true)
      ⊎ (IsComplete filter request
          × (is_empty validation.user_id ≡ false)
          × (validation.roles_size ≢ 0)
          × (is_empty (
                get_action str_eq filter request.method
                  (get_relative_resource filter request.resource))
              ≡ false)
          × Permits (some (200, codes "Permit")))))
    × ((status_of str_eq filter request validation (some (200, codes "Permit")) ≡ 200)
        ⊎ (status_of str_eq filter request validation (some (200, codes "Permit")) ≡ 401)
        ⊎ (status_of str_eq filter request validation (some (200, codes "Permit")) ≡ 403))
status_of_iff_example = status_of_iff str_eq filter request validation (some (200, codes "Permit"))

get_action-first_named_example :
    get_action str_eq filter (codes "GET") (codes "/devices")
    ≡ first_named (
        matching str_eq (codes "GET /devices") filter.pep_rules
        ++ (matching str_eq (codes "GET /devices") filter.uri_actions
            ++ (verb_action (codes "GET") ∷ [])))
get_action-first_named_example =
    get_action-first_named str_eq filter (codes "GET") (codes "/devices")

abbrev others : Callbacks
others = (codes "a", 1) ∷ (codes "c", 3) ∷ []

call_to_callback-set_async_filter_example :
    let waiting = set_async_filter (codes "b") 2 others in
    let first = call_to_callback (codes "b") 200 waiting in
    let second = call_to_callback (codes "b") 403 first.1 in
    (first.0 ≡ called 2 200)
    × (second.0 ≡ bad_function_call)
    × (find (codes "c") second.1 ≡ find (codes "c") others)
unfolding str_below str_eq find
call_to_callback-set_async_filter_example =
    call_to_callback-set_async_filter (codes "b") (codes "c") 2 200 403 others
      ((refl, tt), (tt, tt)) refl refl
