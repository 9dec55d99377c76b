-- ===== src/IotUrl/Tests.antt =====
-- Runs of the constructor of URLs, and instances of its theorems.
use fiware_io_tagent_cpluspl.Common.{Bytes, codes, some, ◌≡◌, refl, arith, str_eq}
use fiware_io_tagent_cpluspl.Common.Int.{ℤ, pos}
use fiware_io_tagent_cpluspl.Common.Outcome.{returned}
use fiware_io_tagent_cpluspl.IotUrl.{
  cut, after_delimiter, shift, protocol_cut, cut_delimiter, places, port_of, host_of, default_port,
  default_path, url_of, parse, new_iot_url,
}
use fiware_io_tagent_cpluspl.IotUrl.Parts.{new_iot_url-url_text}
use fiware_io_tagent_cpluspl.IotUrl.Refusal.{IsAnswer, new_iot_url-IsAnswer}

abbrev atoi : Bytes → ℤ
atoi text = pos 8080

new_iot_url-url_text_example :
    new_iot_url atoi (codes "http://h:8080/p/q?a=/")
    ≡ returned (record {
      protocol = codes "http";
      host = codes "h";
      port = pos 8080;
      path = codes "/p/q";
      query = codes "a=/";
    })
new_iot_url-url_text_example =
    new_iot_url-url_text atoi (codes "http") (codes "h") (some (codes "8080", 8080))
      (some (codes "p/q")) (some (codes "a=/")) (ground arith) (ground arith) (ground arith)
      (ground arith) (ground arith, ground arith, refl) (ground arith)

new_iot_url-IsAnswer_example : IsAnswer (codes "h/p") (new_iot_url atoi (codes "h/p"))
new_iot_url-IsAnswer_example = new_iot_url-IsAnswer atoi (codes "h/p")

-- Without a path, a `/` in the query moves the query into the host and into the path.
new_iot_url_test :
    new_iot_url atoi (codes "http://h?a=/b")
    ≡ returned (record {
      protocol = codes "http";
      host = codes "h?a=";
      port = pos 80;
      path = codes "/b";
      query = codes "a=/b";
    })
unfolding new_iot_url parse cut_delimiter protocol_cut shift after_delimiter cut places url_of
    port_of host_of default_port default_path str_eq
new_iot_url_test = refl
