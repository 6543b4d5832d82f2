-- ===== src/MockBunny/Import.antt =====
-- The import and export of records in the BIND format by the simulated bunny.net
-- (internal/testutil/mockbunny/handlers.go). `to_upper` is strings.ToUpper.
use Prim.Native.Char.{Char, code}
use Prim.Native.String.{◌++◌}
use text.Mathlib.Text.{starts_with}
use bunny_api_proxy.Base.{
  ℕ, suc, ◌+◌, ◌^◌, ℤ, ◌==ℤ◌, pos, negsuc, String, ◌==◌, Bool, not, ◌||◌, Option, none, some, List,
  [], ◌∷◌, select, ltb, ◌==ℕ◌, if◌then◌else◌,
}
use bunny_api_proxy.Go.ParseInt.{parse_int}
use bunny_api_proxy.Go.FormatInt.{format_int}
use bunny_api_proxy.Go.Trim.{is_space, trim_space}
use bunny_api_proxy.MockBunny.Types.{
  Record, State, Response, respond, plain_error, imported, exported, zone_not_found, with_zone_id,
  with_zone,
}
use bunny_api_proxy.MockBunny.Records.{short_input, add_record, touch_zone}

abbrev pub put_first : Char → List String → List String
put_first c [] = String.◌∷◌ c "" ∷ []
put_first c (part ∷ parts) = String.◌∷◌ c part ∷ parts

unfoldable pub split_by : (Char → Bool) → String → List String
split_by p String.[] = "" ∷ []
split_by p (String.◌∷◌ c s) =
    let parts = split_by p s in if p c then "" ∷ parts else put_first c parts

-- strings.Split by a newline
abbrev pub lines : String → List String
lines = split_by (λ c. code c ==ℕ 10)

-- strings.Fields
abbrev pub fields : String → List String
fields s = select (λ part. not (part == "")) (split_by is_space s)

-- strings.TrimSuffix of a dot
unfoldable pub trim_dot : String → String
trim_dot String.[] = ""
trim_dot (String.◌∷◌ c s) =
    let rest = trim_dot s in
    if s == "" then if code c ==ℕ 46 then "" else String.◌∷◌ c "" else String.◌∷◌ c rest

-- strings.Join by a space
unfoldable pub join : String → List String → String
join part [] = part
join part (next ∷ parts) = part ++ " " ++ join next parts

abbrev pub in_int32 : ℤ → Option ℤ
in_int32 (pos n) = if ltb n (2 ^ 31) then some (pos n) else none
in_int32 (negsuc n) = if ltb n (2 ^ 31) then some (negsuc n) else none

abbrev pub bind_int32 : Option ℤ → Option ℤ
bind_int32 none = none
bind_int32 (some i) = in_int32 i

-- strconv.ParseInt(s, 10, 32)
abbrev pub parse_int32 : String → Option ℤ
parse_int32 s = bind_int32 (parse_int s)

-- `none` is -1.
abbrev pub record_type_string_to_int : String → Option ℤ
record_type_string_to_int type =
    if type == "A"
    then some (pos 0)
    else if type == "AAAA"
    then some (pos 1)
    else if type == "CNAME"
    then some (pos 2)
    else if type == "TXT"
    then some (pos 3)
    else if type == "MX"
    then some (pos 4)
    else if type == "SPF"
    then some (pos 5)
    else if type == "REDIRECT"
    then some (pos 6)
    else if type == "PULLZONE"
    then some (pos 7)
    else if type == "SRV"
    then some (pos 8)
    else if type == "CAA"
    then some (pos 9)
    else if type == "PTR"
    then some (pos 10)
    else if type == "SCRIPT"
    then some (pos 11)
    else if type == "NS"
    then some (pos 12)
    else none

-- The type, the name, the value and the TTL of a line; `none` is a failure.
abbrev pub entry_of : String → (type ttl : Option ℤ) → String → Option (ℤ × String × String × ℤ)
entry_of name (some type) (some ttl) value = some (type, name, value, ttl)
entry_of name none ttl value = none
entry_of name (some type) none value = none

abbrev pub read_parts : (String → String) → List String → Option (ℤ × String × String × ℤ)
read_parts to_upper (name ∷ ttl ∷ class ∷ type ∷ value ∷ values) =
    entry_of (trim_dot name) (record_type_string_to_int (to_upper type)) (parse_int32 ttl)
      (join value values)
read_parts to_upper _ = none

abbrev pub Progress : Type 0
Progress = (created : ℕ) × (failed : ℕ) × State

abbrev pub import_entry : ℤ → Option (ℤ × String × String × ℤ) → Progress → Progress
import_entry zone_id none (created, failed, s) = (created, suc failed, s)
import_entry zone_id (some (type, name, value, ttl)) (created, failed, s) =
    (suc created, failed, add_record zone_id (short_input type name value ttl) s)

abbrev pub import_line : (String → String) → ℤ → String → Progress → Progress
import_line to_upper zone_id line p =
    let text = trim_space line in
    if text == "" || starts_with text ";"
    then p
    else import_entry zone_id (read_parts to_upper (fields text)) p

unfoldable pub import_lines : (String → String) → ℤ → List String → Progress → Progress
import_lines to_upper zone_id [] p = p
import_lines to_upper zone_id (line ∷ rest) p =
    import_lines to_upper zone_id rest (import_line to_upper zone_id line p)

abbrev pub import_response : (now : ℕ) → ℤ → Progress → Response × State
import_response now zone_id (created, failed, s) =
    (respond 200 (imported (created + failed) created failed), touch_zone zone_id now s)

-- The body is `none` if it cannot be read.
unfoldable pub handle_import_records :
    (String → String) → String → Option String → (now : ℕ) → State → Response × State
handle_import_records to_upper id_text body now = with_zone_id id_text λ id.
    with_zone id zone_not_found λ zone s. elim body [
      | none ↦ (respond 400 (plain_error "failed to read body"), s)
      | some text ↦ import_response now id (import_lines to_upper id (lines text) (0, 0, s))
    ]

abbrev pub record_type_name : ℤ → String
record_type_name t =
    if t ==ℤ pos 0
    then "A"
    else if t ==ℤ pos 1
    then "AAAA"
    else if t ==ℤ pos 2
    then "CNAME"
    else if t ==ℤ pos 3
    then "TXT"
    else if t ==ℤ pos 4
    then "MX"
    else if t ==ℤ pos 5
    then "SPF"
    else if t ==ℤ pos 6
    then "REDIRECT"
    else if t ==ℤ pos 7
    then "PULLZONE"
    else if t ==ℤ pos 8
    then "SRV"
    else if t ==ℤ pos 9
    then "CAA"
    else if t ==ℤ pos 10
    then "PTR"
    else if t ==ℤ pos 11
    then "SCRIPT"
    else if t ==ℤ pos 12
    then "NS"
    else "UNKNOWN"

abbrev pub export_line : Record → String
export_line r =
    r.name
    ++ "\t"
    ++ format_int r.ttl
    ++ "\tIN\t"
    ++ record_type_name r.record_type
    ++ "\t"
    ++ r.value
    ++ "\n"

unfoldable pub export_lines : List Record → String
export_lines [] = ""
export_lines (r ∷ records) = export_line r ++ export_lines records

unfoldable pub handle_export_records : String → State → Response × State
handle_export_records id_text = with_zone_id id_text λ id. with_zone id zone_not_found λ zone s.
    (respond 200 (exported (";; Zone: " ++ zone.domain ++ "\n" ++ export_lines zone.records)), s)
