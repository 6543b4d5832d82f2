-- ===== src/Tests/Writers.antt =====
-- The theorems on the metrics and on the logging of requests, with a writer that keeps its status.
use bunny_api_proxy.Base.{
  ℕ, arith, String, ◌≡◌, refl, ap, true, false, Option, none, some, List, [], ◌∷◌, ◌==ℕ◌,
  if◌then◌else◌,
}
use bunny_api_proxy.Bunny.Http.{on_wire}
use bunny_api_proxy.Go.Writer.{ResponseWriter, Call, header, body, SendsFirst, or_200}
use bunny_api_proxy.Metrics.{normalize_path, Metrics, increased, label_of, status_label, middleware}
use bunny_api_proxy.Metrics.Paths.{normalize_path-same}
use bunny_api_proxy.Metrics.Recorded.{middleware-counts_sent, middleware-counts_panic}
use bunny_api_proxy.Logging.Http.{Library, Request, writing, http_logging}
use bunny_api_proxy.Logging.Http.Transparent.{read_content, ReadsAll, http_logging-transparent}

normalize_path-same_example :
    normalize_path "/dnszone/12/records" ≡ normalize_path "/dnszone/3456/records"
normalize_path-same_example =
    normalize_path-same "/dnszone" "12" "3456" "/records" refl refl refl refl

abbrev sent_once : Option ℕ → ℕ → Option ℕ
sent_once none status = some status
sent_once (some before) status = some before

abbrev status_writer : ResponseWriter (Option ℕ)
status_writer = record {
  write_header = λ status w. sent_once w status;
  write = λ b w. sent_once w 200;
  sent = λ w. w;
}

status_writer-SendsFirst : SendsFirst status_writer
status_writer-SendsFirst = record {
  first_header = λ status w h e. ap (λ x. sent_once x status) e;
  first_body = λ b w e. ap (λ x. sent_once x 200) e;
  later_header = λ status before w e. ap (λ x. sent_once x status) e;
  later_body = λ b before w e. ap (λ x. sent_once x 200) e;
}

abbrev status_text : ℕ → String
status_text status = if status ==ℕ 200 then "OK" else if status ==ℕ 404 then "Not Found" else ""

abbrev no_metrics : Metrics
no_metrics = record {
  requests_total = some [];
  request_duration = some [];
  auth_failures_total = some [];
}

-- A second status comes too late.
abbrev not_found_calls : List Call
not_found_calls = header 404 ∷ body "{}" ∷ header 500 ∷ []

middleware-counts_sent_example :
    let (r, m') =
      middleware status_writer status_text "GET" "/dnszone/5" not_found_calls false none
        no_metrics in
    let label =
      label_of "GET"
        (normalize_path "/dnszone/5")
        (status_label status_writer status_text (or_200 (status_writer.sent r.response_writer))) in
    (m'.requests_total ≡ increased label no_metrics.requests_total)
    × (m'.request_duration ≡ increased label no_metrics.request_duration)
middleware-counts_sent_example =
    middleware-counts_sent status_writer status_writer-SendsFirst status_text "GET" "/dnszone/5"
      not_found_calls none no_metrics refl (omega arith, (tt, (omega arith, tt)))

middleware-counts_panic_example :
    let (r, m') = middleware status_writer status_text "GET" "/dnszone/5" [] true none no_metrics in
    (status_writer.sent r.response_writer ≡ some 500)
    × (m'.requests_total
        ≡ increased
            (label_of "GET"
              (normalize_path "/dnszone/5")
              (status_label status_writer status_text 200))
            no_metrics.requests_total)
middleware-counts_panic_example =
    middleware-counts_panic status_writer status_writer-SendsFirst status_text "GET" "/dnszone/5"
      none no_metrics refl

abbrev plain_library : Library
plain_library = record {
  to_lower = λ name. name;
  decode = λ text. none;
  encode = λ value. none;
  is_utf8 = λ text. true;
}

abbrev echo : Option (Option String) → List Call
echo none = header 400 ∷ []
echo (some none) = header 400 ∷ []
echo (some (some text)) = header 200 ∷ body text ∷ []

abbrev put_txt : Request
put_txt = record {
  request_id = "a-1";
  method = "POST";
  path = "/dnszone/5/records";
  query = "";
  headers = ("AccessKey", "acme-key" ∷ []) ∷ [];
  content = some (on_wire "{\"Type\":3}");
}

echo-ReadsAll : ReadsAll (λ r. echo (read_content r.content))
echo-ReadsAll r content e = ap echo e

http_logging-transparent_example :
    (http_logging status_writer plain_library
      (λ w. [])
      true
      true
      none
      (λ r. echo (read_content r.content))
      put_txt
      none).1
    ≡ writing status_writer (echo (read_content put_txt.content)) none
http_logging-transparent_example =
    http_logging-transparent status_writer plain_library (λ w. []) true true none
      (λ r. echo (read_content r.content)) put_txt none echo-ReadsAll
