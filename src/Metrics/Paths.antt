-- ===== src/Metrics/Paths.antt =====
-- The paths that internal/metrics/middleware.go counts requests by.
use Prim.Native.String.{◌++◌}
use text.Mathlib.TextLemmas.{nil-append, cons-append}
use bunny_api_proxy.Base.{
  String, ◌≡◌, refl, sym, ap, ◌∙◌, Bool, true, false, not, ◌&&◌, inl, inr, arith, Bool-cases,
  if-elim,
}
use bunny_api_proxy.Go.ParseInt.{is_digit}
use bunny_api_proxy.Metrics.{is_slash, digit_first, normalize_from, normalize_path}

-- No slash is followed by a digit.
abbrev pub HasNoNumber : String → Type 0
HasNoNumber String.[] = Unit
HasNoNumber (String.◌∷◌ c s) = ((is_slash c && digit_first s) ≡ false) × HasNoNumber s

id_label-HasNoNumber :
    (t : String) → HasNoNumber t → digit_first t ≡ false → HasNoNumber ("/:id" ++ t)
id_label-HasNoNumber t h d =
    rw
      (
        cons-append _ ":id" t,
        cons-append _ "id" t,
        cons-append _ "d" t,
        cons-append _ "" t,
        nil-append t,
      )
      (refl, (refl, (refl, (refl, h))))

digit_first-id_label : (t : String) → digit_first ("/:id" ++ t) ≡ false
digit_first-id_label t = rw (cons-append _ ":id" t) refl

-- A number that goes on is left out, and any other text keeps its first character as far as digits go.
digit_first-normalize_from :
    (b : Bool) (s : String) → digit_first (normalize_from b s) ≡ (not b && digit_first s)
unfolding normalize_from
digit_first-normalize_from true String.[] = refl
digit_first-normalize_from false String.[] = refl
digit_first-normalize_from true (String.◌∷◌ c s) =
    ground (arith, digit_first-normalize_from true s, digit_first-id_label (normalize_from true s))
digit_first-normalize_from false (String.◌∷◌ c s) =
    ground (arith, digit_first-id_label (normalize_from true s))

normalize_from-HasNoNumber : (b : Bool) (s : String) → HasNoNumber (normalize_from b s)
unfolding normalize_from
normalize_from-HasNoNumber b String.[] = tt
normalize_from-HasNoNumber b (String.◌∷◌ c s) =
    if-elim HasNoNumber (b && is_digit c) _ _ (λ e. normalize_from-HasNoNumber true s)
      λ e.
        if-elim HasNoNumber (is_slash c && digit_first s) _ _
          (λ f.
            id_label-HasNoNumber (normalize_from true s) (normalize_from-HasNoNumber true s)
              (digit_first-normalize_from true s))
          (λ f. (rw (digit_first-normalize_from false s) f, normalize_from-HasNoNumber false s))

HasNoNumber-fixed : (s : String) → HasNoNumber s → normalize_from false s ≡ s
unfolding normalize_from
HasNoNumber-fixed String.[] h = refl
HasNoNumber-fixed (String.◌∷◌ c s) (e, h) =
    rw (e, normalize_from) (ap (λ t. String.◌∷◌ c t) (HasNoNumber-fixed s h))

-- The path of a label has no number behind a slash, whatever the path of the request, so it is left
-- as it is when it is normalised again.
pub normalize_path-HasNoNumber :
    (path : String)
    → HasNoNumber (normalize_path path)
      × (normalize_path (normalize_path path) ≡ normalize_path path)
unfolding normalize_path
normalize_path-HasNoNumber path =
    let h = normalize_from-HasNoNumber false path in
    (h, HasNoNumber-fixed (normalize_from false path) h)

abbrev pub all_digits : String → Bool
all_digits String.[] = true
all_digits (String.◌∷◌ c s) = is_digit c && all_digits s

-- A number that goes on is left out whole.
normalize_from-digits :
    (m t : String) → all_digits m ≡ true → normalize_from true (m ++ t) ≡ normalize_from true t
unfolding normalize_from
normalize_from-digits String.[] t h = ap (normalize_from true) (nil-append t)
normalize_from-digits (String.◌∷◌ c m) t h = elim (Bool-cases (is_digit c)) [
  | inl d ↦
      rw (cons-append c m t, normalize_from, d) (normalize_from-digits m t (ground (arith, d)))
  | inr d ↦ ground (arith, d)
]

slash_number :
    (b : Bool) (m t : String)
    → all_digits m ≡ true
    → digit_first m ≡ true
    → normalize_from b ("/" ++ (m ++ t)) ≡ "/:id" ++ normalize_from true t
unfolding normalize_from
slash_number b m t h d =
    let first : digit_first (m ++ t) ≡ true = first_digit m d in
    let x = m ++ t in
    rw (cons-append _ "" x, nil-append x, normalize_from, no_digit b, first)
      (ap (λ u. "/:id" ++ u) (normalize_from-digits m t h))
  where
    no_digit : (b : Bool) → (b && false) ≡ false
    no_digit true = refl
    no_digit false = refl

    first_digit : (m : String) → digit_first m ≡ true → digit_first (m ++ t) ≡ true
    first_digit String.[] e = ground (arith, e)
    first_digit (String.◌∷◌ c m) e = rw (cons-append c m t) e

digit_first-slash : (s x y : String) → digit_first (s ++ ("/" ++ x)) ≡ digit_first (s ++ ("/" ++ y))
digit_first-slash String.[] x y =
    rw (nil-append ("/" ++ x), nil-append ("/" ++ y), cons-append _ "" x, cons-append _ "" y) refl
digit_first-slash (String.◌∷◌ c s) x y =
    rw (cons-append c s ("/" ++ x), cons-append c s ("/" ++ y)) refl

-- Two ways on that are normalised alike stay so behind the same text.
behind :
    (b : Bool) (s x y : String)
    → ((c : Bool) → normalize_from c ("/" ++ x) ≡ normalize_from c ("/" ++ y))
    → normalize_from b (s ++ ("/" ++ x)) ≡ normalize_from b (s ++ ("/" ++ y))
unfolding normalize_from
behind b String.[] x y h = rw (nil-append ("/" ++ x), nil-append ("/" ++ y)) (h b)
behind b (String.◌∷◌ c s) x y h =
    rw
      (
        cons-append c s ("/" ++ x),
        cons-append c s ("/" ++ y),
        normalize_from,
        behind true s x y h,
        behind false s x y h,
        digit_first-slash s x y,
      )
      refl

-- Two paths that differ in a number behind a slash have the same label: the number of labels does not
-- grow with the ids in the paths.
pub normalize_path-same :
    (front m n tail : String)
    → all_digits m ≡ true
    → digit_first m ≡ true
    → all_digits n ≡ true
    → digit_first n ≡ true
    → normalize_path (front ++ ("/" ++ (m ++ tail)))
      ≡ normalize_path (front ++ ("/" ++ (n ++ tail)))
unfolding normalize_path
normalize_path-same front m n tail a b c d =
    behind false front (m ++ tail) (n ++ tail)
      λ k. slash_number k m tail a b ∙ sym (slash_number k n tail c d)
