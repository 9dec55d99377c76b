-- ===== src/MediaFilter.antt =====
-- src/rest/media_filter.cc: the filter of the headers, the forbidden characters and the media types of
-- a request.
pub mod Status
mod Tests
use fiware_io_tagent_cpluspl.Common.{
  ℕ, Bytes, codes, str_eq, Bool, true, false, not, ◌&&◌, ◌||◌, ◌==◌, Option, none, some, ◌++◌,
  is_empty, if◌then◌else◌,
}
use fiware_io_tagent_cpluspl.FuncUtil.Names.{
  Checked, accepted, iota_exception, check_fiware_service_name, check_fiware_service_path_name,
  check_forbidden_characters,
}
use fiware_io_tagent_cpluspl.OAuthFilter.{contains}

-- What the filter reads of a request. A header that is absent is an empty text; `accept` and
-- `content_type` are those of which the filter asks whether they are there.
pub record Request : Type 0 where
  pub trace : Bytes
  pub resource : Bytes
  pub service : Bytes
  pub service_path : Bytes
  pub content : Bytes
  pub accept : Option Bytes
  pub content_type : Option Bytes

abbrev pub iota_forbidden_characters : Bytes
iota_forbidden_characters = codes "<>\"'=;()"

-- The resources whose headers are not checked, below the base of the URLs.
unfoldable pub is_exempt : Bytes → Request → Bool
is_exempt url_base r =
    str_eq r.resource (url_base ++ codes "/about")
    || str_eq r.resource (url_base ++ codes "/protocols")

unfoldable pub is_forbidden : Request → Bool
is_forbidden r =
    check_forbidden_characters iota_forbidden_characters r.service
    || (check_forbidden_characters iota_forbidden_characters r.service_path
        || check_forbidden_characters iota_forbidden_characters r.resource)

-- The test of the header Accept
unfoldable pub is_acceptable : Option Bytes → Bool
is_acceptable none = true
is_acceptable (some accept) = contains (codes "/json") accept || contains (codes "/*") accept

-- The test of the header Content-Type, of a request that has a content
unfoldable pub is_supported : Bytes → Option Bytes → Bool
is_supported content none = true
is_supported content (some content_type) = is_empty content || contains (codes "/json") content_type

-- What the tests after those of the names leave in `resu`.
unfoldable pub media_status : Request → ℕ
media_status r =
    let resu = if is_forbidden r then 1002 else if is_acceptable r.accept then 200 else 406 in
    if resu == 200 && not (is_supported r.content r.content_type) then 415 else resu

-- The exception of a name ends the tests with its status.
unfoldable pub after_path : Checked → Request → ℕ
after_path accepted r = media_status r
after_path (iota_exception reason status) r = status

unfoldable pub after_service : Checked → Request → ℕ
after_service accepted r = after_path (check_fiware_service_path_name r.service_path) r
after_service (iota_exception reason status) r = status

unfoldable pub status_of : Bytes → Request → ℕ
status_of url_base r =
    if is_exempt url_base r
    then media_status r
    else after_service (check_fiware_service_name r.service) r

-- MediaFilter::handle_request: it returns true, and posts the status for the callback of the request.
unfoldable pub handle_request : Bytes → Request → Bool × Bytes × ℕ
handle_request url_base r = (true, r.trace, status_of url_base r)
