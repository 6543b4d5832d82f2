-- ===== src/Metrics.antt =====
-- internal/metrics: the counters as lists of the labels they were increased with, and the middleware
-- over any ResponseWriter. Durations are left out of the labels.
pub mod Paths
pub mod Recorded
use Prim.Native.Char.{Char, code}
use Prim.Native.String.{◌++◌}
use bunny_api_proxy.Base.{
  ℕ, String, ◌==◌, Bool, true, false, not, ◌&&◌, Option, none, some, List, [], ◌∷◌, ◌==ℕ◌,
  if◌then◌else◌,
}
use bunny_api_proxy.Go.ParseInt.{is_digit}
use bunny_api_proxy.Go.Writer.{ResponseWriter, Call, header, body}

abbrev pub is_slash : Char → Bool
is_slash c = code c ==ℕ 47

abbrev pub digit_first : String → Bool
digit_first String.[] = false
digit_first (String.◌∷◌ c s) = is_digit c

-- `ReplaceAllString` of `/(\d+)` by `/:id`; `in_number` is whether the last match is still going on.
unfoldable pub normalize_from : (in_number : Bool) → String → String
normalize_from in_number String.[] = ""
normalize_from in_number (String.◌∷◌ c s) =
    let copied = normalize_from false s in
    let matched = normalize_from true s in
    if in_number && is_digit c
    then matched
    else if is_slash c && digit_first s
    then "/:id" ++ matched
    else String.◌∷◌ c copied

unfoldable pub normalize_path : String → String
unfolding normalize_from
normalize_path path = normalize_from false path

pub record Label : Type 0 where
  pub method : String
  pub path : String
  pub status : String

-- The three pointers of the package, `none` before `Init`.
pub record Metrics : Type 0 where
  pub requests_total : Option (List Label)
  pub request_duration : Option (List Label)
  pub auth_failures_total : Option (List String)

abbrev pub increased : {A : Type 0} → A → Option (List A) → Option (List A)
increased label none = none
increased label (some labels) = some (label ∷ labels)

unfoldable pub record_request : Label → Metrics → Metrics
record_request label m = record m { requests_total = increased label m.requests_total }

unfoldable pub record_request_duration : Label → Metrics → Metrics
record_request_duration label m = record m { request_duration = increased label m.request_duration }

unfoldable pub record_auth_failure : String → Metrics → Metrics
record_auth_failure reason m = record m {
  auth_failures_total = increased reason m.auth_failures_total;
}

pub record StatusRecorder (W : Type 0) : Type 0 where
  pub response_writer : W
  pub status_code : ℕ
  pub written : Bool

abbrev pub recorder : {W : Type 0} → W → StatusRecorder W
recorder w = record { response_writer = w; status_code = 200; written = false }

abbrev pub label_of : (method path status : String) → Label
label_of method path status = record { method = method; path = path; status = status }

module _ {W : Type 0} (ops : ResponseWriter W) where
  -- statusRecorder.WriteHeader
  unfoldable pub write_header : ℕ → StatusRecorder W → StatusRecorder W
  write_header status r =
      if not r.written
      then record {
        response_writer = ops.write_header status r.response_writer;
        status_code = status;
        written = true;
      }
      else r

  -- statusRecorder.Write
  unfoldable pub write : String → StatusRecorder W → StatusRecorder W
  write b r =
      let r' = if not r.written then record r { status_code = 200; written = true } else r in
      record r' { response_writer = ops.write b r'.response_writer }

  unfoldable pub serve : List Call → StatusRecorder W → StatusRecorder W
  unfolding write_header write
  serve [] r = r
  serve (header status ∷ calls) r = serve calls (write_header status r)
  serve (body b ∷ calls) r = serve calls (write b r)

  -- The call of `recover`, and a status of its own where nothing is written.
  abbrev pub recovered : (panics : Bool) → StatusRecorder W → StatusRecorder W
  recovered panics r =
      if panics && not r.written then write_header 500 (record r { status_code = 500 }) else r

  abbrev pub status_label : (status_text : ℕ → String) → ℕ → String
  status_label status_text status =
      let text = status_text (if status ==ℕ 0 then 500 else status) in
      if text == "" then "UNKNOWN" else text

  -- Middleware: the handler writes, and then may panic. The metrics are recorded first.
  unfoldable pub middleware :
      (status_text : ℕ → String)
      → (method path : String) → List Call
      → (panics : Bool) → W
      → Metrics
      → StatusRecorder W × Metrics
  unfolding serve record_request record_request_duration normalize_path
  middleware status_text method path calls panics w m =
      let r = serve calls (recorder w) in
      let label = label_of method (normalize_path path) (status_label status_text r.status_code) in
      (recovered panics r, record_request_duration label (record_request label m))
