-- ===== src/Proxy/Router/Paths.antt =====
-- The two readings of a request's path: chi routes by `RawPath`, where a request has one, and by
-- `Path` otherwise (net/url), while `ParseRequest` of internal/auth matches `Path`.
use Prim.Native.Char.{Char, code}
use Prim.Native.String.{◌++◌}
use text.Mathlib.TextLemmas.{nil-append, cons-append}
use bunny_api_proxy.Base.{
  ◌+◌, ◌-◌, ◌*◌, ℕ, ℤ, String, ◌≡◌, refl, ap, ◌∙◌, sym, Bool, true, false, not, ◌&&◌, Option, none,
  some, List, ◌∷◌, ◌⊎◌, inl, inr, ◌==ℕ◌, arith, if-elim, Bool-cases, Option-cases, ◌==◌, eq_iff,
}
use bunny_api_proxy.Go.ParseInt.{
  is_digit, digits_from, digits_value, parse_int, then_int, positive, negative,
}
use bunny_api_proxy.Go.Pattern.{digits, Pattern, match, strip_prefix, span_digits, capture}

abbrev pub is_percent : Char → Bool
is_percent c = code c ==ℕ 37

-- What is used of `unescape` of net/url: it keeps every character but `%` and what follows it.
pub record KeepsPlain (unescape : String → Option String) : Type 0 where
  pub nil : (u : String) → unescape "" ≡ some u → u ≡ ""
  pub cons :
      (c : Char) (s u : String)
      → is_percent c ≡ false
      → unescape (String.◌∷◌ c s) ≡ some u
      → (v : String) × (u ≡ String.◌∷◌ c v) × (unescape s ≡ some v)

-- chi's path is the request's `Path`, or a `RawPath` that decodes to it.
abbrev pub IsRoutePath : (String → Option String) → String → String → Type 0
IsRoutePath unescape path route_path = (path ≡ route_path) ⊎ (unescape route_path ≡ some path)

abbrev pub is_plain : String → Bool
is_plain String.[] = true
is_plain (String.◌∷◌ c s) = not (is_percent c) && is_plain s

module _ (unescape : String → Option String) (keeps : KeepsPlain unescape) where
  unescape-plain :
      (s t u : String)
      → is_plain s ≡ true
      → unescape (s ++ t) ≡ some u
      → (v : String) × (u ≡ s ++ v) × (unescape t ≡ some v)
  unescape-plain String.[] t u h e = (u, sym (nil-append u), rw (nil-append t) at e)
  unescape-plain (String.◌∷◌ c s) t u h e =
      let (v, f, g) =
        keeps.cons c (s ++ t) u (ground arith) (ap unescape (sym (cons-append c s t)) ∙ e) in
      let (x, k, l) = unescape-plain s t v (ground arith) g in
      (x, f ∙ ap (λ (y : String). String.◌∷◌ c y) k ∙ sym (cons-append c s x), l)

  -- A front without `%` is the front of both.
  pub IsRoutePath-plain :
      (s t u : String)
      → is_plain s ≡ true
      → IsRoutePath unescape u (s ++ t)
      → (v : String) × (u ≡ s ++ v) × IsRoutePath unescape v t
  IsRoutePath-plain s t u h (inl e) = (t, e, inl refl)
  IsRoutePath-plain s t u h (inr e) = let (v, f, g) = unescape-plain s t u h e in (v, f, inr g)

  pub IsRoutePath-nil : (u : String) → IsRoutePath unescape u "" → u ≡ ""
  IsRoutePath-nil u (inl e) = e
  IsRoutePath-nil u (inr e) = keeps.nil u e

none-ne-some {ℓ} : {A : Type ℓ} (a : A) → Path (Option A) none (some a) → ⊥
none-ne-some a e = cc

digits_from-plain : (k n : ℕ) (s : String) → digits_from k s ≡ some n → is_plain s ≡ true
unfolding digits_from
digits_from-plain k n String.[] h = refl
digits_from-plain k n (String.◌∷◌ c s) h = elim (Bool-cases (is_digit c)) [
  | inl d ↦
      let h' : Path (Option ℕ) (digits_from (k * 10 + (code c - 48)) s) (some n) =
        rw (d, digits_from) at h in
      ground (arith, d, digits_from-plain (k * 10 + (code c - 48)) n s h')
  | inr d ↦ let h' : Path (Option ℕ) none (some n) = rw (d, digits_from) at h in cc
]

digits_value-plain : (n : ℕ) (s : String) → digits_value s ≡ some n → is_plain s ≡ true
unfolding digits_value
digits_value-plain n String.[] h = refl
digits_value-plain n (String.◌∷◌ c s) h = digits_from-plain 0 n (String.◌∷◌ c s) h

then_int-some :
    (f : ℕ → Option ℤ) (o : Option ℕ) (i : ℤ) → then_int f o ≡ some i → (n : ℕ) × (o ≡ some n)
then_int-some f none i h = absurd (none-ne-some i h)
then_int-some f (some n) i h = (n, refl)

-- A text that `ParseInt` reads begins with a sign, or has digits only.
abbrev pub IsNumber : String → Type 0
IsNumber String.[] = ⊥
IsNumber (String.◌∷◌ c s) =
    ((is_digit c ≡ false) × (is_percent c ≡ false) × (n : ℕ) × (digits_value s ≡ some n))
    ⊎ ((n : ℕ) × (digits_from 0 (String.◌∷◌ c s) ≡ some n))

pub parse_int-IsNumber : (s : String) (i : ℤ) → parse_int s ≡ some i → IsNumber s
unfolding parse_int digits_value
parse_int-IsNumber String.[] i = λ h. cc
parse_int-IsNumber (String.◌∷◌ c s) i =
    if-elim (λ o. o ≡ some i → IsNumber (String.◌∷◌ c s)) (code c ==ℕ 43) _ _
      (λ e h.
        let (n, v) = then_int-some positive (digits_value s) i h in
        inl (ground arith, ground arith, n, v))
      λ _.
        if-elim (λ o. o ≡ some i → IsNumber (String.◌∷◌ c s)) (code c ==ℕ 45) _ _
          (λ e h.
            let (n, v) = then_int-some negative (digits_value s) i h in
            inl (ground arith, ground arith, n, v))
          (λ _ h. inr (then_int-some positive (digits_from 0 (String.◌∷◌ c s)) i h))

pub IsNumber-plain : (s : String) → IsNumber s → is_plain s ≡ true
IsNumber-plain String.[] h = refl
IsNumber-plain (String.◌∷◌ c s) (inl (d, p, n, e)) = ground (arith, digits_value-plain n s e)
IsNumber-plain (String.◌∷◌ c s) (inr (n, e)) = digits_from-plain 0 n (String.◌∷◌ c s) e

pub strip_prefix-append : (s t : String) → strip_prefix s (s ++ t) ≡ some t
unfolding strip_prefix
strip_prefix-append String.[] t = ap some (nil-append t)
strip_prefix-append (String.◌∷◌ c s) t =
    rw (cons-append c s t, strip_prefix) (ground (arith, strip_prefix-append s t))

abbrev pub starts_digit : String → Bool
starts_digit String.[] = false
starts_digit (String.◌∷◌ c s) = is_digit c

span_digits-none : (t : String) → starts_digit t ≡ false → span_digits t ≡ ("", t)
unfolding span_digits
span_digits-none String.[] h = refl
span_digits-none (String.◌∷◌ c t) h = rw h refl

span_digits-append :
    (k n : ℕ) (s t : String)
    → digits_from k s ≡ some n
    → starts_digit t ≡ false
    → span_digits (s ++ t) ≡ (s, t)
unfolding digits_from span_digits
span_digits-append k n String.[] t h e = rw (nil-append t) (span_digits-none t e)
span_digits-append k n (String.◌∷◌ c s) t h e = elim (Bool-cases (is_digit c)) [
  | inl d ↦
      let h' : Path (Option ℕ) (digits_from (k * 10 + (code c - 48)) s) (some n) =
        rw (d, digits_from) at h in
      rw (cons-append c s t, span_digits, span_digits-append (k * 10 + (code c - 48)) n s t h' e, d)
        refl
  | inr d ↦
      let h' : Path (Option ℕ) none (some n) = rw (d, digits_from) at h in
      absurd (none-ne-some n h')
]

cons-nonempty : (c : Char) (s : String) → (String.◌∷◌ c s == "") ≡ false
cons-nonempty c s = elim (Bool-cases (String.◌∷◌ c s == "")) [
  | inl e ↦ let h : String.◌∷◌ c s ≡ "" = (eq_iff (String.◌∷◌ c s) "").0 e in absurd (no h)
  | inr e ↦ e
]
  where
    no : String.◌∷◌ c s ≡ "" → ⊥
    no h = cc

-- Where a pattern goes on with digits, a number is captured whole, or not at all.
pub match-number :
    (ps : Pattern) (s t : String) (found : List String)
    → IsNumber s
    → starts_digit t ≡ false
    → match (digits ∷ ps) (s ++ t) ≡ some found
    → (rest : List String) × (found ≡ s ∷ rest) × (match ps t ≡ some rest)
unfolding match span_digits
match-number ps String.[] t found h e m = absurd h
match-number ps (String.◌∷◌ c s) t found (inl (d, p, n, v)) e m =
    let m' : Path (Option (List String)) none (some found) =
      rw (cons-append c s t, match, span_digits, d) at m in
    absurd (none-ne-some found m')
match-number ps (String.◌∷◌ c s) t found (inr (n, v)) e m =
    let m' : Path (Option (List String)) (capture (String.◌∷◌ c s) (match ps t)) (some found) =
      rw (match, span_digits-append 0 n (String.◌∷◌ c s) t v e, cons-nonempty c s) at m in
    elim (Option-cases (match ps t)) [
      | inl missed ↦ absurd (none-ne-some found (rw missed at m'))
      | inr (rest, hit) ↦
          let f : some (String.◌∷◌ c s ∷ rest) ≡ some found = rw hit at m' in (rest, cc, hit)
    ]
