-- ===== src/Bunny/Http.antt =====
-- What internal/bunny sees of net/http: requests, responses and their bodies, and a RoundTripper.
use bunny_api_proxy.Base.{ℕ, String, Bool, Option, none, some, List}

-- A body that comes from the connection, one whose connection fails, one that is closed, and the
-- `io.NopCloser(bytes.NewReader(b))` of logging_transport.go, which closing does not touch.
pub data Body : Type 0 where
  on_wire in_memory : String → Body
  failing closed : Body

-- io.ReadAll; `none` is an error. A closed body answers http.ErrBodyReadAfterClose.
abbrev pub read_all : Body → Option String
read_all (on_wire text) = some text
read_all (in_memory text) = some text
read_all failing = none
read_all closed = none

-- What `io.ReadAll` leaves of a body: all that could be read is gone.
abbrev pub drain : Body → Body
drain (on_wire text) = on_wire ""
drain (in_memory text) = in_memory ""
drain failing = failing
drain closed = closed

abbrev pub close : Body → Body
close (in_memory text) = in_memory text
close (on_wire text) = closed
close failing = closed
close closed = closed

-- `body` is the part of the body that is still to be read, `none` a request without one.
pub record Request : Type 0 where
  pub method : String
  pub url : String
  pub headers : List (String × String)
  pub body : Option String

pub record HttpResponse : Type 0 where
  pub status_code : ℕ
  pub body : Body

-- An error as `isTimeoutError` tells it apart: `err == context.DeadlineExceeded`, `os.IsTimeout(err)`
-- and `err.Error()`.
pub record TransportError : Type 0 where
  pub is_deadline_exceeded : Bool
  pub is_timeout : Bool
  pub message : String

-- The two results of `RoundTrip` and of `http.Client.Do`; `none` is nil.
pub record Exchange : Type 0 where
  pub resp : Option HttpResponse
  pub error : Option TransportError

-- A RoundTripper over the state `W` of what is outside. It gets the request by its pointer and leaves
-- it with what it has not read of the body.
abbrev pub Transport : Type 0 → Type 0
Transport W = Request → W → Exchange × Request × W

abbrev pub failed : TransportError → Exchange
failed e = record { resp = none; error = some e }

abbrev pub answered_by : HttpResponse → Exchange
answered_by r = record { resp = some r; error = none }
