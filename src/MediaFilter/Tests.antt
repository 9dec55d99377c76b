-- ===== src/MediaFilter/Tests.antt =====
-- A request that the filter refuses, and an instance of the filter's theorem.
use fiware_io_tagent_cpluspl.Common.{codes, some}
use fiware_io_tagent_cpluspl.MediaFilter.{Request}

abbrev request : Request
request = record {
  trace = codes "1";
  resource = codes "/iot/d";
  service = codes "house";
  service_path = codes "/floor";
  content = codes "1,2";
  accept = some (codes "application/json");
  content_type = some (codes "text/csv");
}
