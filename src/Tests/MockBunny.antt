-- ===== src/Tests/MockBunny.antt =====
-- The theorems on the simulated bunny.net at a concrete account with one zone.
use bunny_api_proxy.Base.{pos, ◌≡◌, refl, some, List, [], ◌∷◌, arith}
use bunny_api_proxy.Go.ParseInt.{parse_int, digits_value, digits_from}
use bunny_api_proxy.Go.FormatInt.{format_int}
use bunny_api_proxy.MockBunny.Types.{Zone, State, respond, new_state, one_record, one_zone, no_body}
use bunny_api_proxy.MockBunny.Zones.{new_zone, handle_get_zone}
use bunny_api_proxy.MockBunny.Records.{
  RecordInput, short_input, new_record, handle_add_record, handle_delete_record,
}
use bunny_api_proxy.MockBunny.Server.{Request, create_zone, add_record, to_api, run}
use bunny_api_proxy.MockBunny.Valid.{IsSound, new_state-IsSound}
use bunny_api_proxy.MockBunny.Valid.Runs.{run-IsSound}
use bunny_api_proxy.MockBunny.RoundTrip.{add-delete}

abbrev www : RecordInput
www = short_input (pos 0) "www" "1.2.3.4" (pos 300)

abbrev two_requests : List Request
two_requests =
    record { now = 1; path = "/dnszone"; call = to_api "" (create_zone (some "example.org")) }
    ∷ record { now = 2; path = "/dnszone/1/records"; call = to_api "" (add_record "1" (some www)) }
    ∷ []

run-IsSound_example : IsSound (run (λ s. s) "" two_requests new_state)
run-IsSound_example = run-IsSound (λ s. s) "" two_requests new_state new_state-IsSound

abbrev first_zone : Zone
first_zone = record (new_zone (pos 1) "example.org" 1) { records = new_record (pos 1) www ∷ [] }

abbrev account : State
account = record new_state { zones = first_zone ∷ []; next_zone_id = 2; next_record_id = 2 }

account-IsSound : IsSound account
account-IsSound = record {
  ids = (tt, tt);
  issued = (omega arith, tt);
  records = (((tt, tt), (omega arith, tt)), tt);
}

one-read : parse_int "1" ≡ some (pos 1)
unfolding parse_int digits_value digits_from
one-read = refl

add-delete_example :
    ((handle_add_record "1" (some www) 5 account).0
      ≡ respond 201 (one_record (new_record (pos 2) www)))
    × ((handle_get_zone "1" (handle_add_record "1" (some www) 5 account).1).0
        ≡ respond 200 (
            one_zone (record first_zone {
              records = new_record (pos 1) www ∷ new_record (pos 2) www ∷ [];
              date_modified = 5;
            })))
    × ((handle_delete_record "1"
          (format_int (pos 2))
          6
          (handle_add_record "1" (some www) 5 account).1).0
        ≡ respond 204 no_body)
    × ((handle_get_zone "1"
          (handle_delete_record "1"
            (format_int (pos 2))
            6
            (handle_add_record "1" (some www) 5 account).1).1).0
        ≡ respond 200 (one_zone (record first_zone { date_modified = 6 })))
add-delete_example =
    add-delete "1" (pos 1) first_zone www 5 6 account account-IsSound (omega arith) one-read refl
      refl refl
