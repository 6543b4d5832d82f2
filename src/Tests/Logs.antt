-- ===== src/Tests/Logs.antt =====
-- The theorems on what is logged, at concrete requests.
use bunny_api_proxy.Base.{
  ℕ, List, Option, none, some, String, ◌==◌, ◌≡◌, refl, eq_refl, true, false, [], ◌∷◌, arith,
}
use bunny_api_proxy.Bunny.Http.{Request, TransportError}
use bunny_api_proxy.Bunny.Logging.{logging_round_trip}
use bunny_api_proxy.Bunny.Logging.Laws.{
  ReadsWhole, PassesOn, logging_round_trip-received, logging_round_trip-key_hidden,
}
use bunny_api_proxy.Logging.Masking.{Json, text, array, object, no_field, field, mask_json_value}
use bunny_api_proxy.Logging.Masking.Laws.{texts, mask_json_value-texts}
use bunny_api_proxy.Logging.Masking.Places.{node, shown_at, mask_json_value-shows}
use bunny_api_proxy.Tests.Bunny.{down_transport, put_record}

abbrev read_failed : TransportError
read_failed = record {
  is_deadline_exceeded = false;
  is_timeout = false;
  message = "unexpected EOF";
}

-- A reader whose bytes are read as they are, and then gone.
abbrev read_buffer : String → Option String × String
read_buffer content = (some content, "")

read_buffer-ReadsWhole : ReadsWhole read_buffer
read_buffer-ReadsWhole content bytes e = cc

logging_round_trip-received_example :
    PassesOn ◌==◌ read_buffer read_failed true down_transport put_record 0 []
      (logging_round_trip ◌==◌ read_buffer read_failed true down_transport put_record (0, []))
logging_round_trip-received_example =
    logging_round_trip-received ◌==◌ read_buffer read_failed true down_transport put_record 0 []
      read_buffer-ReadsWhole

abbrev with_key : String → Request
with_key key = record put_record { headers = ("AccessKey", key) ∷ [] }

logging_round_trip-key_hidden_example :
    (logging_round_trip ◌==◌ read_buffer read_failed true down_transport
      (with_key "abcd-0000-wxyz")
      (0, [])).2.1
    ≡ (logging_round_trip ◌==◌ read_buffer read_failed true down_transport
        (with_key "abcd-11111111-wxyz")
        (0, [])).2.1
logging_round_trip-key_hidden_example =
    logging_round_trip-key_hidden ◌==◌ read_buffer read_failed true down_transport put_record []
      "abcd" "-0000-" "-11111111-" "wxyz" 0 [] eq_refl read_buffer-ReadsWhole refl refl
      (omega arith) (omega arith) refl refl

abbrev token_body : Json
token_body = object (field "name" (text "acme") (field "token" (text "s3cret") no_field))

mask_json_value-shows_example :
    ((place : List ℕ)
      → node none (mask_json_value ("name" ∷ []) token_body) place
        ≡ shown_at ("name" ∷ []) (node none token_body place))
    × (mask_json_value ("name" ∷ []) (mask_json_value ("name" ∷ []) token_body)
        ≡ mask_json_value ("name" ∷ []) token_body)
mask_json_value-shows_example = mask_json_value-shows ("name" ∷ []) token_body

mask_json_value-texts_example :
    mask_json_value ("name" ∷ []) (object (field "tokens" (array (texts ("s3cret" ∷ []))) no_field))
    ≡ object (field "tokens" (array (texts ("s3cret" ∷ []))) no_field)
mask_json_value-texts_example = mask_json_value-texts ("name" ∷ []) ("s3cret" ∷ []) "tokens"

abbrev new_id : String
new_id = "f-1"
