-- ===== src/Go/ParseInt.antt =====
-- strconv.ParseInt(s, 10, 64); `none` is an error.
use Prim.Native.Char.{Char, code}
use bunny_api_proxy.Base.{
  ℕ, zero, suc, ◌+◌, ◌-◌, ◌*◌, ◌^◌, ℤ, pos, negsuc, Bool, ◌&&◌, String, Option, none, some, ltb,
  leb, ◌==ℕ◌, if◌then◌else◌,
}

abbrev pub is_digit : Char → Bool
is_digit c = leb 48 (code c) && leb (code c) 57

-- The value of a text of digits, after those read so far.
unfoldable pub digits_from : ℕ → String → Option ℕ
digits_from n String.[] = some n
digits_from n (String.◌∷◌ c s) =
    let rest = digits_from (n * 10 + (code c - 48)) s in if is_digit c then rest else none

-- An empty text has no value.
unfoldable pub digits_value : String → Option ℕ
unfolding digits_from
digits_value String.[] = none
digits_value (String.◌∷◌ c s) = digits_from 0 (String.◌∷◌ c s)

abbrev pub min_int64_magnitude : ℕ
min_int64_magnitude = 2 ^ 63

abbrev pub positive : ℕ → Option ℤ
positive n = if ltb n min_int64_magnitude then some (pos n) else none

abbrev pub negate : ℕ → ℤ
negate zero = pos 0
negate (suc n) = negsuc n

abbrev pub negative : ℕ → Option ℤ
negative n = if leb n min_int64_magnitude then some (negate n) else none

abbrev pub then_int : (ℕ → Option ℤ) → Option ℕ → Option ℤ
then_int f none = none
then_int f (some n) = f n

unfoldable pub parse_int : String → Option ℤ
unfolding digits_value
parse_int String.[] = none
parse_int (String.◌∷◌ c s) =
    if code c ==ℕ 43
    then then_int positive (digits_value s)
    else if code c ==ℕ 45
    then then_int negative (digits_value s)
    else then_int positive (digits_value (String.◌∷◌ c s))
