-- ===== src/Base/Sort.antt =====
-- ORDER BY: a stable insertion sort by a Boolean order, with what makes it a sort.
use mathlib.Core.Path.{◌≡◌}
use mathlib.Core.Bool.{Bool, true, false}
use mathlib.Core.Logic.{inl, inr}
use mathlib.Core.List.{List, [], ◌∷◌, Perm}
use mathlib.Core.List.Perm
use bunny_api_proxy.Base.Tests.{if◌then◌else◌, Bool-cases}
use bunny_api_proxy.Base.Lists.{All, All-mono, Member}

module _ {ℓ} {A : Type ℓ} (le : A → A → Bool) where
  pub insert_by : A → List A → List A
  insert_by a [] = a ∷ []
  insert_by a (x ∷ xs) = if le a x then a ∷ x ∷ xs else x ∷ insert_by a xs

  unfoldable pub order_by : List A → List A
  unfolding insert_by
  order_by [] = []
  order_by (x ∷ xs) = insert_by x (order_by xs)

  insert_by-perm : (a : A) (xs : List A) → Perm (insert_by a xs) (a ∷ xs)
  unfolding insert_by
  insert_by-perm a [] = Perm.refl (a ∷ [])
  insert_by-perm a (x ∷ xs) = elim (Bool-cases (le a x)) [
    | inl e ↦ rw e (Perm.refl _)
    | inr e ↦ rw e (Perm.trans (Perm.cons x (insert_by-perm a xs)) (Perm.swap a x xs))
  ]

  pub order_by-perm : (xs : List A) → Perm (order_by xs) xs
  unfolding order_by
  order_by-perm [] = Perm.refl []
  order_by-perm (x ∷ xs) =
      Perm.trans (insert_by-perm x (order_by xs)) (Perm.cons x (order_by-perm xs))

  -- Every member stands before none that the order puts strictly ahead of it.
  abbrev pub IsSorted : List A → Type 0
  IsSorted [] = Unit
  IsSorted (x ∷ xs) = All (λ y. le x y ≡ true) xs × IsSorted xs

  module _ (total : (a b : A) → le a b ≡ false → le b a ≡ true)
      (trans : (a b c : A) → le a b ≡ true → le b c ≡ true → le a c ≡ true) where
    insert_by-All :
        (b a : A) (xs : List A)
        → le b a ≡ true
        → All (λ y. le b y ≡ true) xs
        → All (λ y. le b y ≡ true) (insert_by a xs)
    unfolding insert_by
    insert_by-All b a [] h k = (h, tt)
    insert_by-All b a (x ∷ xs) h (q, k) = elim (Bool-cases (le a x)) [
      | inl e ↦ rw e (h, (q, k))
      | inr e ↦ rw e (q, insert_by-All b a xs h k)
    ]

    insert_by-IsSorted : (a : A) (xs : List A) → IsSorted xs → IsSorted (insert_by a xs)
    unfolding insert_by
    insert_by-IsSorted a [] h = (tt, tt)
    insert_by-IsSorted a (x ∷ xs) (q, h) = elim (Bool-cases (le a x)) [
      | inl e ↦ rw e ((e, All-mono _ _ xs (λ y. trans a x y e) q), (q, h))
      | inr e ↦ rw e (insert_by-All x a xs (total a x e) q, insert_by-IsSorted a xs h)
    ]

    pub order_by-IsSorted : (xs : List A) → IsSorted (order_by xs)
    unfolding order_by
    order_by-IsSorted [] = tt
    order_by-IsSorted (x ∷ xs) = insert_by-IsSorted x (order_by xs) (order_by-IsSorted xs)

module _ {A : Type 0} (le : A → A → Bool) where
  Member-insert_by : (a b : A) (xs : List A) → Member b (insert_by le a xs) → Member b (a ∷ xs)
  unfolding insert_by
  Member-insert_by a b [] m = m
  Member-insert_by a b (x ∷ xs) m = elim (Bool-cases (le a x)) [
    | inl e ↦ rw e at m
    | inr e ↦ elim (rw e at m) [
      | inl p ↦ inr (inl p)
      | inr n ↦ elim (Member-insert_by a b xs n) [ inl q ↦ inl q | inr k ↦ inr (inr k) ]
    ]
  ]

  pub Member-order_by : (b : A) (xs : List A) → Member b (order_by le xs) → Member b xs
  unfolding order_by
  Member-order_by b [] m = m
  Member-order_by b (x ∷ xs) m = elim (Member-insert_by x b (order_by le xs) m) [
    | inl e ↦ inl e
    | inr n ↦ inr (Member-order_by b xs n)
  ]

  insert_by-Member : (a b : A) (xs : List A) → Member b (a ∷ xs) → Member b (insert_by le a xs)
  unfolding insert_by
  insert_by-Member a b [] m = m
  insert_by-Member a b (x ∷ xs) m = elim (Bool-cases (le a x)) [
    | inl e ↦ rw e m
    | inr e ↦ rw e (elim m [
      | inl p ↦ inr (insert_by-Member a b xs (inl p))
      | inr n ↦ elim n [ inl q ↦ inl q | inr k ↦ inr (insert_by-Member a b xs (inr k)) ]
    ])
  ]

  pub order_by-Member : (b : A) (xs : List A) → Member b xs → Member b (order_by le xs)
  unfolding order_by
  order_by-Member b [] m = m
  order_by-Member b (x ∷ xs) (inl e) = insert_by-Member x b (order_by le xs) (inl e)
  order_by-Member b (x ∷ xs) (inr m) =
      insert_by-Member x b (order_by le xs) (inr (order_by-Member b xs m))
