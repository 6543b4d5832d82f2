-- ===== src/Go/FormatInt.antt =====
-- strconv.FormatInt(n, 10) and strconv.Itoa, which `%d` of fmt.Sprintf prints too.
use Prim.Native.Char.{Char, char, code}
use bunny_api_proxy.Base.{
  if-elim, ℕ, zero, suc, ◌+◌, ◌-◌, ◌*◌, ◌/◌, ◌%◌, ◌<◌, ◌^◌, ◌≡◌, refl, ◌∙◌, ℤ, pos, negsuc, true,
  false, Bool-cases, inl, inr, String, Option, none, some, ltb, ◌==ℕ◌, arith,
}
use bunny_api_proxy.Go.ParseInt.{
  is_digit, digits_from, digits_value, parse_int, positive, negative, then_int,
}

-- The character at a position of a text, and the last one from there on.
abbrev pub char_at : Char → String → ℕ → Char
char_at c String.[] n = c
char_at c (String.◌∷◌ d s) zero = d
char_at c (String.◌∷◌ d s) (suc n) = char_at d s n

abbrev pub digit_char : ℕ → Char
digit_char = char_at (char 48 tt) "0123456789"

code-digit_char : (d : ℕ) → d < 10 → code (digit_char d) ≡ 48 + d
code-digit_char zero h = refl
code-digit_char (suc zero) h = refl
code-digit_char (suc (suc zero)) h = refl
code-digit_char (suc (suc (suc zero))) h = refl
code-digit_char (suc (suc (suc (suc zero)))) h = refl
code-digit_char (suc (suc (suc (suc (suc zero))))) h = refl
code-digit_char (suc (suc (suc (suc (suc (suc zero)))))) h = refl
code-digit_char (suc (suc (suc (suc (suc (suc (suc zero))))))) h = refl
code-digit_char (suc (suc (suc (suc (suc (suc (suc (suc zero)))))))) h = refl
code-digit_char (suc (suc (suc (suc (suc (suc (suc (suc (suc zero))))))))) h = refl
code-digit_char (suc (suc (suc (suc (suc (suc (suc (suc (suc (suc n)))))))))) h =
    absurd (omega arith)

-- The digits are put in front of those that are there, the last one first.
unfoldable pub write_digits : (fuel : ℕ) → ℕ → String → String
write_digits zero n written = written
write_digits (suc fuel) n written = elim (ltb n 10) [
  | true ↦ String.◌∷◌ (digit_char n) written
  | false ↦ write_digits fuel (n / 10) (String.◌∷◌ (digit_char (n % 10)) written)
]

unfoldable pub format_nat : ℕ → String
unfolding write_digits
format_nat n = write_digits (suc n) n ""

unfoldable pub format_int : ℤ → String
format_int (pos n) = format_nat n
format_int (negsuc n) = String.◌∷◌ (char 45 tt) (format_nat (suc n))

digits_from_digit :
    (m d k : ℕ) (s : String)
    → d < 10
    → m * 10 + d ≡ k
    → digits_from m (String.◌∷◌ (digit_char d) s) ≡ digits_from k s
unfolding digits_from
digits_from_digit m d k s h w =
    let e : code (digit_char d) ≡ 48 + d = code-digit_char d h in
    let t : is_digit (digit_char d) ≡ true = ground (arith, e) in
    let v : m * 10 + (code (digit_char d) - 48) ≡ k = omega (arith, e, w) in rw (t, v) refl

-- Reading from the front gives the number back, whatever is behind it.
digits_from-write_digits :
    (fuel n : ℕ) (s : String) → n < fuel → digits_from 0 (write_digits fuel n s) ≡ digits_from n s
unfolding write_digits
digits_from-write_digits zero n s h = absurd (omega arith)
digits_from-write_digits (suc fuel) n s h = elim (Bool-cases (ltb n 10)) [
  | inl e ↦ rw (e, write_digits) (digits_from_digit 0 n n s (ground (arith, e)) (omega arith))
  | inr e ↦
      rw (e, write_digits)
        (digits_from-write_digits fuel (n / 10) (String.◌∷◌ (digit_char (n % 10)) s)
            (ground (arith, e))
          ∙ digits_from_digit (n / 10) (n % 10) n s (omega arith) (omega arith))
]

abbrev IsStarted : String → Type 0
IsStarted s = (c : Char) × (t : String) × (s ≡ String.◌∷◌ c t)

write_digits-IsStarted :
    (fuel n : ℕ) (c : Char) (s : String) → IsStarted (write_digits fuel n (String.◌∷◌ c s))
unfolding write_digits
write_digits-IsStarted zero n c s = (c, s, refl)
write_digits-IsStarted (suc fuel) n c s = elim (Bool-cases (ltb n 10)) [
  | inl e ↦ rw (e, write_digits) (digit_char n, String.◌∷◌ c s, refl)
  | inr e ↦
      rw (e, write_digits)
        (write_digits-IsStarted fuel (n / 10) (digit_char (n % 10)) (String.◌∷◌ c s))
]

format_nat-IsStarted : (n : ℕ) → IsStarted (format_nat n)
unfolding format_nat write_digits
format_nat-IsStarted n = elim (Bool-cases (ltb n 10)) [
  | inl e ↦ rw (e, format_nat, write_digits) (digit_char n, "", refl)
  | inr e ↦
      rw (e, format_nat, write_digits) (write_digits-IsStarted n (n / 10) (digit_char (n % 10)) "")
]

-- Of a text that begins with a character, the value is that of its digits.
digits_value_started :
    (s : String) (n : ℕ) → IsStarted s → digits_from 0 s ≡ some n → digits_value s ≡ some n
unfolding digits_value
digits_value_started s n (c, t, e) h = rw e (rw e at h)

digits_from-format_nat : (n : ℕ) → digits_from 0 (format_nat n) ≡ some n
unfolding format_nat digits_from
digits_from-format_nat n = digits_from-write_digits (suc n) n "" (omega arith)

digits_value-format_nat : (n : ℕ) → digits_value (format_nat n) ≡ some n
digits_value-format_nat n =
    digits_value_started (format_nat n) n (format_nat-IsStarted n) (digits_from-format_nat n)

-- A text of digits has no sign in front.
parse_int_digits : (s : String) (n : ℕ) → digits_value s ≡ some n → parse_int s ≡ positive n
unfolding parse_int digits_value digits_from
parse_int_digits String.[] n h = cc
parse_int_digits (String.◌∷◌ c s) n h = elim (Bool-cases (is_digit c)) [
  | inl d ↦
      let p : (code c ==ℕ 43) ≡ false = ground (arith, d) in
      let q : (code c ==ℕ 45) ≡ false = ground (arith, d) in rw (p, q, h, parse_int) refl
  | inr d ↦ let h' : Path (Option ℕ) none (some n) = rw (d, digits_value, digits_from) at h in cc
]

abbrev pub IsInt64 : ℤ → Type 0
IsInt64 (pos n) = n < 2 ^ 63
IsInt64 (negsuc n) = n < 2 ^ 63

-- An int64 that is printed in base 10 is read back by `ParseInt`.
pub parse_int-format_int : (i : ℤ) → IsInt64 i → parse_int (format_int i) ≡ some i
unfolding parse_int format_int
parse_int-format_int (pos n) h =
    parse_int_digits (format_nat n) n (digits_value-format_nat n) ∙ ground (arith, h)
parse_int-format_int (negsuc n) h = rw (digits_value-format_nat (suc n)) (ground (arith, h))

positive-IsInt64 : (n : ℕ) (i : ℤ) → positive n ≡ some i → IsInt64 i
positive-IsInt64 n (pos m) h = ground arith
positive-IsInt64 n (negsuc m) h = ground arith

negative-IsInt64 : (n : ℕ) (i : ℤ) → negative n ≡ some i → IsInt64 i
negative-IsInt64 zero i h = ground arith
negative-IsInt64 (suc n) i h = ground arith

then_int-IsInt64 :
    (f : ℕ → Option ℤ) (o : Option ℕ) (i : ℤ)
    → ((n : ℕ) (j : ℤ) → f n ≡ some j → IsInt64 j)
    → then_int f o ≡ some i
    → IsInt64 i
then_int-IsInt64 f none i bound h = cc
then_int-IsInt64 f (some n) i bound h = bound n i h

-- What `ParseInt` returns is an int64.
pub parse_int-IsInt64 : (s : String) (i : ℤ) → parse_int s ≡ some i → IsInt64 i
unfolding parse_int
parse_int-IsInt64 String.[] i = λ h. cc
parse_int-IsInt64 (String.◌∷◌ c s) i =
    if-elim (λ o. o ≡ some i → IsInt64 i) (code c ==ℕ 43) _ _
      (λ e. then_int-IsInt64 positive (digits_value s) i positive-IsInt64)
      λ e.
        if-elim (λ o. o ≡ some i → IsInt64 i) (code c ==ℕ 45) _ _
          (λ e. then_int-IsInt64 negative (digits_value s) i negative-IsInt64)
          (λ e. then_int-IsInt64 positive (digits_value (String.◌∷◌ c s)) i positive-IsInt64)
