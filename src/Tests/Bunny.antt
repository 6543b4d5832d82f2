-- ===== src/Tests/Bunny.antt =====
-- The theorems on the client of bunny.net and its transports with a concrete upstream, which counts the
-- requests that it gets.
use bunny_api_proxy.Base.{
  ℕ, ◌*◌, suc, pos, ◌≡◌, refl, ap, true, false, Option, none, some, List, [], ◌∷◌,
}
use bunny_api_proxy.Go.ParseInt.{parse_int, digits_value, digits_from}
use bunny_api_proxy.Auth.Context.{background}
use bunny_api_proxy.Proxy.Types.{not_found, write_error}
use bunny_api_proxy.Proxy.Handlers.{handle_get_zone}
use bunny_api_proxy.Bunny.Http.{
  Request, HttpResponse, TransportError, Exchange, Transport, on_wire, answered_by,
}
use bunny_api_proxy.Bunny.Retry.{second, round_trip}
use bunny_api_proxy.Bunny.Retry.Attempts.{Event, attempted, recorded, recorded_wait}
use bunny_api_proxy.Bunny.Retry.Ends.{Ended, round_trip-Ended}
use bunny_api_proxy.Bunny.Retry.Bounds.{IsBounded, round_trip-IsBounded}
use bunny_api_proxy.Bunny.Retry.Bodies.{drained, EmptiedSince, round_trip-IsEmptied}
use bunny_api_proxy.Bunny.Retry.Closed.{handle_get_zone_down}
use bunny_api_proxy.Bunny.Client.{Library, Client, Done, responded, broke_off}
use bunny_api_proxy.Bunny.Client.Operations.{new_client}
use bunny_api_proxy.Bunny.Client.Calls.{to_get_zone, to_update_record, perform}
use bunny_api_proxy.Bunny.Client.Requests.{
  recorded as recorded_library, SendsOnce, perform-SendsOnce,
}
use bunny_api_proxy.Bunny.Client.Errors.{perform-expected_error}

abbrev unavailable : Exchange
unavailable =
    answered_by (record { status_code = 503; body = on_wire "{\"Message\":\"maintenance\"}" })

-- Every attempt is answered 503.
abbrev pub down_transport : Transport ℕ
down_transport req w = (unavailable, record req { body = drained req.body }, suc w)

abbrev no_cancel : ℕ → ℕ → Option TransportError × ℕ
no_cancel d w = (none, w)

abbrev pub put_record : Request
put_record = record {
  method = "PUT";
  url = "https://api.bunny.net/dnszone/5/records";
  headers = ("AccessKey", "master") ∷ [];
  body = some "{\"Type\":3}";
}

abbrev down_run : Exchange × Request × (ℕ × List Event)
down_run = round_trip (recorded down_transport) (recorded_wait no_cancel) put_record (0, [])

round_trip-Ended_example : Ended down_transport no_cancel down_run.0 down_run.1 down_run.2.1
round_trip-Ended_example = round_trip-Ended down_transport no_cancel put_record 0

round_trip-IsBounded_example : IsBounded 4 (7 * second) [] down_run.2.1
round_trip-IsBounded_example = round_trip-IsBounded down_transport no_cancel put_record 0

round_trip-IsEmptied_example :
    EmptiedSince
      (attempted put_record (record put_record { body = some "" }) unavailable ∷ [])
      down_run.2.1
round_trip-IsEmptied_example =
    round_trip-IsEmptied down_transport no_cancel put_record "{\"Type\":3}" 0 (λ r w. refl) refl

abbrev done_with : Option TransportError → Option HttpResponse → Done
done_with none (some r) = responded r
done_with (some e) r = broke_off e
done_with none none =
    broke_off (record { is_deadline_exceeded = false; is_timeout = false; message = "" })

-- A library whose HTTP client answers like this.
abbrev pub library : (Request → ℕ → Done × ℕ) → Library ℕ
library http_do = record {
  http_do = http_do;
  parses_url = λ u. true;
  encode_values = λ query. "";
  encode_domain = λ domain. domain;
  encode_name = λ name. name;
  decode_zones = λ text. none;
  decode_zone = λ text. none;
  decode_record = λ text. none;
  decode_document = λ type text. none;
  decode_message = λ text. some text;
}

abbrev down_library : Library ℕ
down_library = library λ req w.
    let (x, req', w') = round_trip down_transport no_cancel req w in (done_with x.error x.resp, w')

abbrev pub bunny : Client
bunny = record { base_url = "https://api.bunny.net"; api_key = "master" }

five-read : parse_int "5" ≡ some (pos 5)
unfolding parse_int digits_value digits_from
five-read = refl

handle_get_zone_down_example :
    (handle_get_zone (new_client down_library bunny) background "5" 0).0
    ≡ write_error 500 "internal server error"
handle_get_zone_down_example =
    handle_get_zone_down down_transport no_cancel down_library bunny background 503
      "{\"Message\":\"maintenance\"}" "5" (pos 5) 0
      (record {
        answers = λ req w. refl;
        keeps_method = λ req w. refl;
        is_5xx = refl;
        goes_on = λ d w. refl;
      })
      (λ req w r e. ap (λ (x : Exchange). done_with x.error x.resp) e) refl five-read

-- Every request is answered 404.
abbrev pub missing : HttpResponse
missing = record { status_code = 404; body = on_wire "no such zone" }

abbrev pub missing_library : Library ℕ
missing_library = library λ req w. (responded missing, suc w)

perform-SendsOnce_example :
    SendsOnce bunny
      (to_update_record (pos 5) (pos 9) "{}")
      (perform
        (recorded_library missing_library)
        bunny
        (to_update_record (pos 5) (pos 9) "{}")
        (0, [])).1.1
perform-SendsOnce_example =
    perform-SendsOnce missing_library bunny (to_update_record (pos 5) (pos 9) "{}") 0

perform-expected_error_example :
    perform missing_library bunny (to_get_zone (pos 5)) 0 ≡ (some not_found, 1)
perform-expected_error_example =
    perform-expected_error missing_library bunny (to_get_zone (pos 5)) 0 1 (responded missing)
      (λ u. refl) (λ r. refl)
