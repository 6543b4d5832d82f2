-- ===== src/Go/Pattern.antt =====
-- Regular expressions of the form `^ piece … /?$`, a piece being a literal or `(\d+)`. A literal
-- after `(\d+)` begins with a slash, so the longest run of digits is the only one that can match.
use Prim.Native.Char.{code}
use bunny_api_proxy.Base.{
  String, ◌==◌, Bool, true, false, ◌||◌, Option, none, some, List, [], ◌∷◌, ◌==ℕ◌, if◌then◌else◌,
}
use bunny_api_proxy.Go.ParseInt.{is_digit}

pub data Piece : Type 0 where
  lit : String → Piece
  digits : Piece

abbrev pub Pattern : Type 0
Pattern = List Piece

unfoldable pub strip_prefix : String → String → Option String
strip_prefix String.[] s = some s
strip_prefix (String.◌∷◌ c l) String.[] = none
strip_prefix (String.◌∷◌ c l) (String.◌∷◌ d s) =
    let rest = strip_prefix l s in if code c ==ℕ code d then rest else none

-- The longest run of digits at the front, and what follows it.
unfoldable pub span_digits : String → String × String
span_digits String.[] = ("", "")
span_digits (String.◌∷◌ c s) =
    let (run, rest) = span_digits s in
    if is_digit c then (String.◌∷◌ c run, rest) else ("", String.◌∷◌ c s)

abbrev pub capture : String → Option (List String) → Option (List String)
capture run none = none
capture run (some captures) = some (run ∷ captures)

-- FindStringSubmatch without its first entry.
unfoldable pub match : Pattern → String → Option (List String)
unfolding strip_prefix span_digits
match [] s = if s == "" || s == "/" then some [] else none
match (lit l ∷ ps) s = elim (strip_prefix l s) [ none ↦ none | some rest ↦ match ps rest ]
match (digits ∷ ps) s =
    let (run, rest) = span_digits s in
    let found = match ps rest in if run == "" then none else capture run found

abbrev pub is_some {ℓ} : {A : Type ℓ} → Option A → Bool
is_some none = false
is_some (some a) = true

-- MatchString
abbrev pub matches : Pattern → String → Bool
matches p s = is_some (match p s)
