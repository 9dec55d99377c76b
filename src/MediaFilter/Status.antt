-- ===== src/MediaFilter/Status.antt =====
-- src/rest/media_filter.cc: the requests that pass, and the status of the others.
use fiware_io_tagent_cpluspl.Common.{ℕ, ◌≤◌, Bytes, true, false, ◌≡◌, ◌≢◌, ◌⊎◌, length, All}
use fiware_io_tagent_cpluspl.FuncUtil.Names.{
  accepted, check_fiware_service_name, check_fiware_service_path_name, ServiceChar, IsServicePath,
}
use fiware_io_tagent_cpluspl.MediaFilter.{
  Request, is_exempt, is_forbidden, is_acceptable, is_supported,
}

abbrev pub IsServiceName : Bytes → Type 0
IsServiceName s = (1 ≤ length s) × (length s ≤ 50) × All ServiceChar s

abbrev pub IsNamed : Bytes → Request → Type 0
IsNamed url_base r =
    (is_exempt url_base r ≡ true) ⊎ (IsServiceName r.service × IsServicePath r.service_path)

abbrev pub IsClean : Request → Type 0
IsClean r =
    (is_forbidden r ≡ false)
    × (is_acceptable r.accept ≡ true)
    × (is_supported r.content r.content_type ≡ true)

-- The first test that failed of those after the names, with its status.
abbrev pub IsMediaRefused : Request → ℕ → Type 0
IsMediaRefused r status =
    ((status ≡ 1002) × (is_forbidden r ≡ true))
    ⊎ ((status ≡ 406) × (is_forbidden r ≡ false) × (is_acceptable r.accept ≡ false))
    ⊎ ((status ≡ 415)
        × (is_forbidden r ≡ false)
        × (is_acceptable r.accept ≡ true)
        × (is_supported r.content r.content_type ≡ false))

-- The first test that failed of all.
abbrev pub IsRefused : Bytes → Request → ℕ → Type 0
IsRefused url_base r status =
    ((status ≡ 1000)
      × (is_exempt url_base r ≡ false)
      × (check_fiware_service_name r.service ≢ accepted))
    ⊎ ((status ≡ 1001)
        × (is_exempt url_base r ≡ false)
        × IsServiceName r.service
        × (check_fiware_service_path_name r.service_path ≢ accepted))
    ⊎ (IsNamed url_base r × IsMediaRefused r status)
