-- ===== src/Logging/Http/Transparent.antt =====
-- The logging middleware of internal/middleware/logging.go changes nothing but the log.
use bunny_api_proxy.Base.{
  String, ◌≡◌, refl, sym, ap, ◌∙◌, Bool, true, false, Option, none, some, List, [], ◌∷◌,
}
use bunny_api_proxy.Bunny.Http.{Body, on_wire, in_memory, failing, closed, read_all}
use bunny_api_proxy.Go.Writer.{ResponseWriter, Call, header, body}
use bunny_api_proxy.Logging.Http.{
  Headers, Library, Request, log_content, log_request, ResponseRecorder, record_header, record_body,
  recording, writing, recorder, http_logging,
}

-- What `io.ReadAll` gives of a request's body; `none` is a nil body, `some none` an error.
abbrev pub read_content : Option Body → Option (Option String)
read_content none = none
read_content (some content) = some (read_all content)

-- A handler that reads the body of its request, if at all, by `io.ReadAll`.
abbrev pub ReadsAll : (Request → List Call) → Type 0
ReadsAll next =
    (r : Request) (content : Option Body)
    → read_content content ≡ read_content r.content
    → next (record r { content = content }) ≡ next r

log_request-content :
    (lib : Library) (r : Request) (allowlist : Option (List String)) (next : Request → List Call)
    → ReadsAll next
    → next (log_request lib r allowlist).1 ≡ next r
unfolding log_request
log_request-content lib r allowlist next reads = go r.content refl
  where
    -- The text that was read from the body is put back; a body that fails does so again.
    restored :
        (content : Body)
        → r.content ≡ some content
        → next (log_content lib r allowlist (some content)).1 ≡ next r
    restored (on_wire text) e = reads r (some (in_memory text)) (sym (ap read_content e))
    restored (in_memory text) e = reads r (some (in_memory text)) (sym (ap read_content e))
    restored failing e = reads r (some failing) (sym (ap read_content e))
    restored closed e = reads r (some closed) (sym (ap read_content e))

    go :
        (content : Option Body)
        → r.content ≡ content
        → next (log_content lib r allowlist content).1 ≡ next r
    go none e = refl
    go (some content) e = restored content e

recording-writing :
    {W : Type 0} (ops : ResponseWriter W) (calls : List Call) (r : ResponseRecorder W)
    → (recording ops calls r).response_writer ≡ writing ops calls r.response_writer
unfolding recording writing record_header record_body
recording-writing ops [] r = refl
recording-writing ops (header status ∷ calls) r =
    recording-writing ops calls (record_header ops status r)
recording-writing ops (body b ∷ calls) r = recording-writing ops calls (record_body ops b r)

-- On every log level, also where it changes during a request, the client is sent exactly what the
-- handler writes without the middleware, for a handler that reads the body by `io.ReadAll`; a body
-- that the log has read, or failed to read, is read by the handler with the same result.
pub http_logging-transparent :
    {W : Type 0} (ops : ResponseWriter W) (lib : Library) (response_headers : W → Headers)
    (before_debug after_debug : Bool) (allowlist : Option (List String))
    (next : Request → List Call) (r : Request) (w : W)
    → ReadsAll next
    → (http_logging ops lib response_headers before_debug after_debug allowlist next r w).1
      ≡ writing ops (next r) w
unfolding http_logging
http_logging-transparent ops lib response_headers false after_debug allowlist next r w reads = refl
http_logging-transparent ops lib response_headers true after_debug allowlist next r w reads =
    recording-writing ops (next (log_request lib r allowlist).1) (recorder ops w)
    ∙ ap (λ calls. writing ops calls w) (log_request-content lib r allowlist next reads)
