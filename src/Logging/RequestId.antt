-- ===== src/Logging/RequestId.antt =====
-- internal/middleware/request_id.go: the id that a request carries through the log.
use Prim.Native.Char.{Char, code}
use Prim.Native.String.{len}
use bunny_api_proxy.Base.{
  String, ◌==◌, ◌≡◌, Bool, true, false, not, ◌&&◌, ◌||◌, leb, ltb, ◌==ℕ◌, if◌then◌else◌,
}

abbrev pub is_allowed : Char → Bool
is_allowed c =
    leb 97 (code c) && leb (code c) 122
    || leb 65 (code c) && leb (code c) 90
    || leb 48 (code c) && leb (code c) 57
    || code c ==ℕ 45
    || code c ==ℕ 95
    || code c ==ℕ 46

-- `for _, c := range id`
unfoldable pub all_allowed : String → Bool
all_allowed String.[] = true
all_allowed (String.◌∷◌ c id) =
    let rest = all_allowed id in if not (is_allowed c) then false else rest

unfoldable pub is_valid_request_id : String → Bool
unfolding all_allowed
is_valid_request_id id = if ltb 128 (len id) then false else all_allowed id

-- RequestID: the id of the header X-Request-ID, or `new_id`, the text of a new UUID. It is put into the
-- context and the response's header.
unfoldable pub request_id : (new_id : String) → (header : String) → String
request_id new_id id = if id == "" || not (is_valid_request_id id) then new_id else id

-- Letters, digits, `-`, `_` and `.` only.
pub data IsPlain : String → Type 0 where
  plain_end : IsPlain ""
  plain_char :
      (c : Char) (id : String) → is_allowed c ≡ true → IsPlain id → IsPlain (String.◌∷◌ c id)
