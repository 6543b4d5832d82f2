-- ===== src/Base/Lists.antt =====
-- Lists over the native numbers, and predicates on lists by recursion, which tactics read.
use Prim.Native.Nat.{ℕ, zero, suc, ◌+◌, ◌<◌}
use mathlib.Core.Path.{◌≡◌, refl, sym, ap, subst, ◌∙◌}
use mathlib.Core.Logic.{◌≢◌, ◌⊎◌, inl, inr}
use mathlib.Core.Bool.{Bool, true, false}
use mathlib.Core.Option.{Option, none, some}
use mathlib.Core.List.{List, [], ◌∷◌, ◌++◌}
use native.Mathlib.Omega.{arith}
use bunny_api_proxy.Base.Tests.{if◌then◌else◌, Bool-cases}

module _ {ℓ} {A : Type ℓ} where
  abbrev pub length : List A → ℕ
  length [] = 0
  length (x ∷ xs) = suc (length xs)

  -- `for _, x := range xs { if p(x) { return x } }`
  abbrev pub find : (A → Bool) → List A → Option A
  find p [] = none
  find p (x ∷ xs) = if p x then some x else find p xs

  abbrev pub any : (A → Bool) → List A → Bool
  any p [] = false
  any p (x ∷ xs) = if p x then true else any p xs

  -- The members that pass the test, in order.
  abbrev pub select : (A → Bool) → List A → List A
  select p [] = []
  select p (x ∷ xs) = let rest = select p xs in if p x then x ∷ rest else rest

  abbrev pub take : ℕ → List A → List A
  take zero xs = []
  take (suc n) [] = []
  take (suc n) (x ∷ xs) = x ∷ take n xs

  abbrev pub drop : ℕ → List A → List A
  drop zero xs = xs
  drop (suc n) [] = []
  drop (suc n) (x ∷ xs) = drop n xs

  abbrev pub count : (A → Bool) → List A → ℕ
  count p [] = 0
  count p (x ∷ xs) = let rest = count p xs in if p x then suc rest else rest

module _ {ℓ κ} {A : Type ℓ} (P : A → Type κ) where
  abbrev pub All : List A → Type κ
  All [] = Unit
  All (x ∷ xs) = P x × All xs

  pub All-append : (xs ys : List A) → All xs → All ys → All (xs ++ ys)
  All-append [] ys h k = k
  All-append (x ∷ xs) ys (p, h) k = (p, All-append xs ys h k)

  pub All-select : (p : A → Bool) (xs : List A) → All xs → All (select p xs)
  All-select p [] h = tt
  All-select p (x ∷ xs) (q, h) = elim (Bool-cases (p x)) [
    | inl e ↦ rw e (q, All-select p xs h)
    | inr e ↦ rw e (All-select p xs h)
  ]

pub All-mono {ℓ κ μ} :
    {A : Type ℓ} (P : A → Type κ) (Q : A → Type μ) (xs : List A)
    → ((x : A) → P x → Q x)
    → All P xs
    → All Q xs
All-mono P Q [] f h = tt
All-mono P Q (x ∷ xs) f (p, h) = (f x p, All-mono P Q xs f h)

-- Membership, with the place kept.
abbrev pub Member : {A : Type 0} → A → List A → Type 0
Member a [] = ⊥
Member a (x ∷ xs) = (x ≡ a) ⊎ Member a xs

pub All-Member : {A : Type 0} (P : A → Type 0) (xs : List A) (a : A) → All P xs → Member a xs → P a
All-Member P (x ∷ xs) a (p, h) (inl e) = subst P e p
All-Member P (x ∷ xs) a (p, h) (inr m) = All-Member P xs a h m
All-Member P [] a h m = absurd m

module _ {A : Type 0} (p : A → Bool) where
  pub find-some : (xs : List A) (a : A) → find p xs ≡ some a → (p a ≡ true) × Member a xs
  find-some [] a h = cc
  find-some (x ∷ xs) a h = elim (Bool-cases (p x)) [
    | inl e ↦ let e' : x ≡ a = ground arith in (subst (λ y. p y ≡ true) e' e, inl e')
    | inr e ↦
        let h' : find p xs ≡ some a = ground arith in let r = find-some xs a h' in (r.0, inr r.1)
  ]

  pub find-none : (xs : List A) → find p xs ≡ none → All (λ x. p x ≡ false) xs
  find-none [] h = tt
  find-none (x ∷ xs) h = elim (Bool-cases (p x)) [
    | inl e ↦ ground arith
    | inr e ↦ (e, find-none xs (ground arith))
  ]

  pub find_of_All : (xs : List A) → All (λ x. p x ≡ false) xs → find p xs ≡ none
  find_of_All [] h = refl
  find_of_All (x ∷ xs) (e, h) = rw e (find_of_All xs h)

  pub find-append : (xs ys : List A) (a : A) → find p xs ≡ some a → find p (xs ++ ys) ≡ some a
  find-append [] ys a h = cc
  find-append (x ∷ xs) ys a h = elim (Bool-cases (p x)) [
    | inl e ↦ rw e (ground arith)
    | inr e ↦ rw e (find-append xs ys a (ground arith))
  ]

  pub any_of_Member : (xs : List A) (a : A) → Member a xs → p a ≡ true → any p xs ≡ true
  any_of_Member [] a m h = absurd m
  any_of_Member (x ∷ xs) a (inl e) h = rw (ap p e ∙ h)
  any_of_Member (x ∷ xs) a (inr m) h = ground (arith, any_of_Member xs a m h)

  pub any-true : (xs : List A) → any p xs ≡ true → (a : A) × Member a xs × (p a ≡ true)
  any-true [] h = cc
  any-true (x ∷ xs) h = elim (Bool-cases (p x)) [
    | inl e ↦ (x, inl refl, e)
    | inr e ↦
        let h' : any p xs ≡ true = ground arith in let r = any-true xs h' in (r.0, inr r.1, r.2)
  ]

  pub any-false : (xs : List A) → any p xs ≡ false → All (λ x. p x ≡ false) xs
  any-false [] h = tt
  any-false (x ∷ xs) h = elim (Bool-cases (p x)) [
    | inl e ↦ ground arith
    | inr e ↦ (e, any-false xs (ground arith))
  ]

  pub Member-select : (xs : List A) (a : A) → Member a (select p xs) → Member a xs × (p a ≡ true)
  Member-select [] a m = absurd m
  Member-select (x ∷ xs) a m = elim (Bool-cases (p x)) [
    | inl e ↦ elim (rw e at m) [
      | inl e' ↦ (inl e', subst (λ y. p y ≡ true) e' e)
      | inr m' ↦ let r = Member-select xs a m' in (inr r.0, r.1)
    ]
    | inr e ↦ let r = Member-select xs a (rw e at m) in (inr r.0, r.1)
  ]

  pub select_of_Member : (xs : List A) (a : A) → Member a xs → p a ≡ true → Member a (select p xs)
  select_of_Member [] a m h = absurd m
  select_of_Member (x ∷ xs) a (inl e) h = rw (ap p e ∙ h) (inl e)
  select_of_Member (x ∷ xs) a (inr m) h = elim (Bool-cases (p x)) [
    | inl e ↦ rw e (inr (select_of_Member xs a m h))
    | inr e ↦ rw e (select_of_Member xs a m h)
  ]

  pub select_none : (xs : List A) → All (λ x. p x ≡ false) xs → select p xs ≡ []
  select_none [] h = refl
  select_none (x ∷ xs) (e, h) = rw e (select_none xs h)

  pub select-All : (xs : List A) → All (λ x. p x ≡ true) xs → select p xs ≡ xs
  select-All [] h = refl
  select-All (x ∷ xs) (e, h) = rw e (ap (◌∷◌ x) (select-All xs h))

  pub any-append : (xs ys : List A) → any p xs ≡ true → any p (xs ++ ys) ≡ true
  any-append [] ys h = cc
  any-append (x ∷ xs) ys h = ground (arith, any-append xs ys)

  pub any-select :
      (q : A → Bool) (xs : List A)
      → any p xs ≡ true
      → ((x : A) → p x ≡ true → q x ≡ true)
      → any p (select q xs) ≡ true
  any-select q [] h f = cc
  any-select q (x ∷ xs) h f = elim (Bool-cases (p x)) [
    | inl e ↦ rw (f x e) (rw e)
    | inr e ↦ let h' : any p xs ≡ true = ground arith in ground (arith, any-select q xs h' f)
  ]

  pub select-append : (xs ys : List A) → select p (xs ++ ys) ≡ select p xs ++ select p ys
  select-append [] ys = refl
  select-append (x ∷ xs) ys = ground (arith, select-append xs ys)

  pub count-append : (xs ys : List A) → count p (xs ++ ys) ≡ count p xs + count p ys
  count-append [] ys = omega arith
  count-append (x ∷ xs) ys = ground (arith, count-append xs ys)

  pub count-pos : (xs : List A) (a : A) → Member a xs → p a ≡ true → 0 < count p xs
  count-pos [] a m h = absurd m
  count-pos (x ∷ xs) a (inl e) h = rw (ap p e ∙ h) (omega arith)
  count-pos (x ∷ xs) a (inr m) h = ground (arith, count-pos xs a m h)

  pub Member-of_count : (xs : List A) → 0 < count p xs → (a : A) × Member a xs × (p a ≡ true)
  Member-of_count [] h = absurd (omega arith)
  Member-of_count (x ∷ xs) h = elim (Bool-cases (p x)) [
    | inl e ↦ (x, inl refl, e)
    | inr e ↦ let r = Member-of_count xs (rw e at h) in (r.0, inr r.1, r.2)
  ]

-- The keys of the members differ pairwise.
module _ {A K : Type 0} (key : A → K) where
  abbrev pub Unique : List A → Type 0
  Unique [] = Unit
  Unique (x ∷ xs) = All (λ y. key x ≢ key y) xs × Unique xs

  pub Unique-select : (p : A → Bool) (xs : List A) → Unique xs → Unique (select p xs)
  Unique-select p [] h = tt
  Unique-select p (x ∷ xs) (d, h) = elim (Bool-cases (p x)) [
    | inl e ↦ rw e (All-select (λ y. key x ≢ key y) p xs d, Unique-select p xs h)
    | inr e ↦ rw e (Unique-select p xs h)
  ]

  -- A fresh key at the end.
  pub Unique-append :
      (xs : List A) (a : A) → Unique xs → All (λ x. key x ≢ key a) xs → Unique (xs ++ a ∷ [])
  Unique-append [] a h f = (tt, tt)
  Unique-append (x ∷ xs) a (d, h) (n, f) =
      (All-append (λ y. key x ≢ key y) xs (a ∷ []) d (n, tt), Unique-append xs a h f)

  -- Of two members with one key, each is the other.
  pub Unique-eq :
      (xs : List A) (a b : A) → Unique xs → Member a xs → Member b xs → key a ≡ key b → a ≡ b
  Unique-eq [] a b u m n e = absurd m
  Unique-eq (x ∷ xs) a b (d, u) (inl p) (inl q) e = sym p ∙ q
  Unique-eq (x ∷ xs) a b (d, u) (inl p) (inr n) e =
      absurd (All-Member (λ y. key x ≢ key y) xs b d n (ap key p ∙ e))
  Unique-eq (x ∷ xs) a b (d, u) (inr m) (inl q) e =
      absurd (All-Member (λ y. key x ≢ key y) xs a d m (ap key q ∙ sym e))
  Unique-eq (x ∷ xs) a b (d, u) (inr m) (inr n) e = Unique-eq xs a b u m n e
