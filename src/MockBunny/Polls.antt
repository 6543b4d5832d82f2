-- ===== src/MockBunny/Polls.antt =====
-- The lifecycle of a scan of the simulated bunny.net (internal/testutil/mockbunny/handlers.go).
use bunny_api_proxy.Base.{
  ℕ, leb, zero, suc, ◌+◌, ℤ, ==ℤ_refl, String, ◌==◌, ◌≡◌, refl, ap, ◌∙◌, true, false, some, [], ◌∷◌,
  map, find, arith,
}
use bunny_api_proxy.Go.ParseInt.{parse_int}
use bunny_api_proxy.MockBunny.Types.{
  Zone, State, Response, respond, scan_status, zone_at, with_id, with_zone,
}
use bunny_api_proxy.MockBunny.Zones.{has_domain}
use bunny_api_proxy.MockBunny.Scan.{
  scan_calls, is_triggered, scanned, scan_answer, set_scan, handle_trigger_scan,
  handle_get_scan_result,
}

-- The answer after `n` other polls.
abbrev pub poll : String → (n : ℕ) → State → Response
poll id_text zero s = (handle_get_scan_result id_text s).0
poll id_text (suc n) s = poll id_text n (handle_get_scan_result id_text s).1

abbrev counted : ℤ → (calls : ℕ) → State → State
counted id calls s = record s { scan_call_count = (id, calls) ∷ s.scan_call_count }

poll_step :
    (id_text : String) (id : ℤ) (z : Zone) (calls : ℕ) (s : State)
    → parse_int id_text ≡ some id
    → zone_at id s.zones ≡ some z
    → is_triggered id s ≡ true
    → scan_calls id s ≡ calls
    → handle_get_scan_result id_text s ≡ (scan_answer (suc calls) z, counted id (suc calls) s)
unfolding handle_get_scan_result
poll_step id_text id z calls s parsed found triggered called =
    rw (parsed, found, triggered, called, handle_get_scan_result, with_id, with_zone) refl

poll_answer :
    (id_text : String) (id : ℤ) (z : Zone) (n calls : ℕ) (s : State)
    → parse_int id_text ≡ some id
    → zone_at id s.zones ≡ some z
    → is_triggered id s ≡ true
    → scan_calls id s ≡ calls
    → poll id_text n s ≡ scan_answer (suc (calls + n)) z
poll_answer id_text id z zero calls s parsed found triggered called =
    ap (λ x. x.0) (poll_step id_text id z calls s parsed found triggered called)
    ∙ ap (λ k. scan_answer k z) (omega arith)
poll_answer id_text id z (suc n) calls s parsed found triggered called =
    ap (λ x. poll id_text n x.1) (poll_step id_text id z calls s parsed found triggered called)
    ∙ poll_answer id_text id z n (suc calls) (counted id (suc calls) s) parsed found triggered
        (rw (==ℤ_refl id) refl)
    ∙ ap (λ k. scan_answer k z) (omega arith)

-- After `handleTriggerScan` for the domain of a zone, which is not empty and of no zone before it, the
-- first poll of the zone's scan is answered in progress without records, and every later one, if
-- nothing but polls comes between, completed with all records of the zone.
pub trigger-poll :
    (id_text : String) (z : Zone) (n : ℕ) (s : State)
    → parse_int id_text ≡ some z.id
    → (z.domain == "") ≡ false
    → find (has_domain z.domain) s.zones ≡ some z
    → zone_at z.id s.zones ≡ some z
    → let s' = (handle_trigger_scan (some z.domain) s).1 in
      (poll id_text 0 s' ≡ respond 200 (scan_status 1 []))
      × (poll id_text (suc n) s' ≡ respond 200 (scan_status 2 (map scanned z.records)))
unfolding handle_trigger_scan
trigger-poll id_text z n s parsed named first found =
    let late : leb (suc (0 + suc n)) 1 ≡ false = ground arith in
    rw (named, first, handle_trigger_scan)
      (
        poll_answer id_text z.id z 0 0 (set_scan (some z) s) parsed found (rw (==ℤ_refl z.id) refl)
            (rw (==ℤ_refl z.id) refl),
        poll_answer id_text z.id z (suc n) 0 (set_scan (some z) s) parsed found
              (rw (==ℤ_refl z.id) refl) (rw (==ℤ_refl z.id) refl)
            ∙ rw late refl,
      )
