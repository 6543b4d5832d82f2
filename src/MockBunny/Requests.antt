-- ===== src/MockBunny/Requests.antt =====
-- internal/testutil/mockbunny/middleware.go: the log of the simulated bunny.net, and its Vary header.
-- Times are left out of the log.
use Prim.Native.String.{◌++◌, len, slice}
use bunny_api_proxy.Base.{
  ℕ, ◌-◌, String, ◌==◌, Bool, ◌||◌, Option, none, some, List, [], ◌∷◌, ltb, if◌then◌else◌, not,
  select,
}
use bunny_api_proxy.Bunny.Http.{Body, in_memory, read_all, drain}
use bunny_api_proxy.Go.Writer.{ResponseWriter, Call, header, body}
use bunny_api_proxy.Logging.Http.{Headers, recording, recorder, writing}

-- redactAPIKey
unfoldable pub redact_api_key : String → String
redact_api_key key =
    if ltb (len key) 12
    then "****"
    else slice key 0 4 ++ ("..." ++ slice key (len key - 4) (len key))

abbrev pub join_values : List String → String
join_values [] = ""
join_values (v ∷ []) = v
join_values (v ∷ w ∷ vs) = v ++ (", " ++ join_values (w ∷ vs))

pub data Entry : Type 0 where
  unread_body : Entry
  received : (method url : String) → (headers : List (String × String)) → (body : String) → Entry
  sent : (method url : String) → (status_code : ℕ) → (body : String) → Entry

pub record Request : Type 0 where
  pub method : String
  pub url : String
  pub headers : Headers
  -- `none` is a nil body
  pub content : Option Body

-- `to_lower` stands for the folding of `strings.EqualFold`.
module _ (to_lower : String → String) where
  abbrev pub is_secret : String → Bool
  is_secret k = to_lower k == "accesskey" || to_lower k == "authorization"

  unfoldable pub redact_headers : Headers → List (String × String)
  unfolding redact_api_key
  redact_headers [] = []
  redact_headers ((k, vs) ∷ headers) =
      (k, if is_secret k then redact_api_key (join_values vs) else join_values vs)
      ∷ redact_headers headers

  module _ {W : Type 0} (ops : ResponseWriter W) where
    abbrev pub logged :
        Request → (text : String) → (next : Request → List Call) → W → List Entry × W
    logged r text next w =
        let rec = recording ops (next r) (recorder ops w) in
        (
          received r.method r.url (redact_headers r.headers) text
              ∷ sent r.method r.url rec.status_code rec.captured
              ∷ [],
          rec.response_writer,
        )

    -- A body that cannot be read is answered here.
    abbrev pub logged_read :
        Request → Option String → (next : Request → List Call) → W → List Entry × W
    logged_read r none next w =
        (unread_body ∷ [], writing ops (header 500 ∷ body "Failed to read request body\n" ∷ []) w)
    logged_read r (some text) next w =
        logged (record r { content = some (in_memory text) }) text next w

    abbrev pub logged_content :
        Request → Option Body → (next : Request → List Call) → W → List Entry × W
    logged_content r none next w = logged r "" next w
    logged_content r (some content) next w =
        logged_read (record r { content = some (drain content) }) (read_all content) next w

    -- LoggingMiddleware; `has_logger` is false for a nil logger.
    unfoldable pub logging_middleware :
        (has_logger : Bool) → (next : Request → List Call) → Request → W → List Entry × W
    unfolding redact_headers
    logging_middleware has_logger next r w =
        if has_logger then logged_content r r.content next w else ([], writing ops (next r) w)

-- VaryAcceptEncodingMiddleware: the headers of the answer that the next handler finds. `Set` replaces
-- the values that a header has.
unfoldable pub vary_accept_encoding : (method : String) → Headers → Headers
vary_accept_encoding method headers =
    if method == "GET"
    then ("Vary", "Accept-Encoding" ∷ []) ∷ select (λ h. not (h.0 == "Vary")) headers
    else headers
