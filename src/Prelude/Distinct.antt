-- ===== src/Prelude/Distinct.antt =====
-- Membership by a Boolean test, and the loop by which the program drops empty and repeated values:
--   for _, x := range xs { v := f(x); if v is empty or seen[v] { continue }; seen[v] = {}; out = append(out, v) }
use mathlib.Core.Path.{◌≡◌, refl, sym, ap, ◌∙◌}
use mathlib.Core.Logic.{inl, inr}
use mathlib.Core.Bool.{Bool, true, false, ◌||◌}
use mathlib.Core.Option.{Option, none, some}
use mathlib.Core.List.{List, [], ◌∷◌, ◌++◌}
use native.Mathlib.Omega.{arith}
use code_code_platform_catal.Prelude.Tests.{
  Eq, ◌==◌, eq_iff, eq_self, if◌then◌else◌, Bool-cases, Option-cases,
}

module _ {ℓ} {A : Type ℓ} ⦃e : Eq A⦄ where
  unfoldable pub contains : List A → A → Bool
  contains [] a = false
  contains (x ∷ xs) a = x == a || contains xs a

  -- No value stands twice.
  abbrev pub IsDistinct : List A → Type 0
  IsDistinct [] = Unit
  IsDistinct (x ∷ xs) = (contains xs x ≡ false) × IsDistinct xs

  unfoldable pub push_distinct : Option A → List A → List A
  push_distinct none out = out
  push_distinct (some v) out = if contains out v then out else out ++ v ∷ []

  pub contains-append :
      (xs ys : List A) (a : A) → contains (xs ++ ys) a ≡ (contains xs a || contains ys a)
  unfolding contains
  contains-append [] ys a = refl
  contains-append (x ∷ xs) ys a = ground (arith, contains-append xs ys a)

  pub IsDistinct-concat :
      (xs : List A) (v : A) → IsDistinct xs → contains xs v ≡ false → IsDistinct (xs ++ v ∷ [])
  unfolding contains
  IsDistinct-concat [] v d n = (refl, tt)
  IsDistinct-concat (x ∷ xs) v (h, d) n = (
    ground (arith, contains-append xs (v ∷ []) x, eq_iff v x, eq_iff x v, eq_self v),
    IsDistinct-concat xs v d (ground arith),
  )

  pub push_distinct-IsDistinct :
      (o : Option A) (out : List A) → IsDistinct out → IsDistinct (push_distinct o out)
  unfolding push_distinct
  push_distinct-IsDistinct none out d = d
  push_distinct-IsDistinct (some v) out d = elim (Bool-cases (contains out v)) [
    | inl old ↦ rw old d
    | inr new ↦ rw new (IsDistinct-concat out v d new)
  ]

  pub contains-push_distinct :
      (v : A) (out : List A) (a : A)
      → contains (push_distinct (some v) out) a ≡ (contains out a || v == a)
  unfolding push_distinct contains
  contains-push_distinct v out a =
      ground (arith, contains-append out (v ∷ []) a, eq_iff v a, contains out v)

module _ {ℓ κ} {X : Type ℓ} {A : Type κ} ⦃e : Eq A⦄ (f : X → Option A) where
  unfoldable pub collect_from : List A → List X → List A
  collect_from out [] = out
  collect_from out (x ∷ xs) = collect_from (push_distinct (f x) out) xs

  unfoldable pub collect_distinct : List X → List A
  unfolding collect_from push_distinct contains
  collect_distinct xs = collect_from [] xs

  -- Some item of the list gives the value.
  unfoldable pub yields : List X → A → Bool
  yields [] a = false
  yields (x ∷ xs) a = elim (f x) [ none ↦ yields xs a | some v ↦ v == a || yields xs a ]

  collect_from-IsDistinct :
      (out : List A) (xs : List X) → IsDistinct out → IsDistinct (collect_from out xs)
  unfolding collect_from
  collect_from-IsDistinct out [] d = d
  collect_from-IsDistinct out (x ∷ xs) d =
      collect_from-IsDistinct (push_distinct (f x) out) xs (push_distinct-IsDistinct (f x) out d)

  pub collect_distinct-IsDistinct : (xs : List X) → IsDistinct (collect_distinct xs)
  unfolding collect_distinct
  collect_distinct-IsDistinct xs = collect_from-IsDistinct [] xs tt

  contains-collect_from :
      (out : List A) (xs : List X) (a : A)
      → contains (collect_from out xs) a ≡ (contains out a || yields xs a)
  unfolding collect_from yields push_distinct
  contains-collect_from out [] a = ground arith
  contains-collect_from out (x ∷ xs) a = elim (Option-cases (f x)) [
    | inl e ↦ rw (e, yields) (rw e at (contains-collect_from (push_distinct (f x) out) xs a))
    | inr (v, e) ↦ ground (
      arith,
      e,
      contains-collect_from (push_distinct (f x) out) xs a,
      contains-push_distinct v out a,
    )
  ]

  pub contains-collect_distinct :
      (xs : List X) (a : A) → contains (collect_distinct xs) a ≡ yields xs a
  unfolding collect_distinct contains
  contains-collect_distinct xs a = contains-collect_from [] xs a

  pub yields-append : (xs ys : List X) (a : A) → yields (xs ++ ys) a ≡ (yields xs a || yields ys a)
  unfolding yields
  yields-append [] ys a = refl
  yields-append (x ∷ xs) ys a = ground (arith, yields-append xs ys a)

-- The function gives back what it gives.
module _ {ℓ} {A : Type ℓ} ⦃e : Eq A⦄ (f : A → Option A) where
  yields-normal :
      ((x a : A) → f x ≡ some a → f a ≡ some a)
      → (xs : List A) (a : A) → yields f xs a ≡ true
      → f a ≡ some a
  unfolding yields
  yields-normal idem [] a h = ground arith
  yields-normal idem (x ∷ xs) a h = elim (Option-cases (f x)) [
    | inl none_x ↦ yields-normal idem xs a (ground (arith, none_x))
    | inr (b, some_x) ↦ elim (Bool-cases (b == a)) [
      | inl same ↦ idem x a (cc (some_x, (eq_iff b a).0 same))
      | inr other ↦ yields-normal idem xs a (ground (arith, some_x, other))
    ]
  ]

  yields-of_normal :
      (l : List A) (a : A)
      → ((x : A) → contains l x ≡ true → f x ≡ some x)
      → yields f l a ≡ contains l a
  unfolding yields contains
  yields-of_normal [] a h = refl
  yields-of_normal (x ∷ l) a h =
      rw (h x (ground (arith, eq_self x)), yields)
        (ap (λ b. x == a || b) (yields-of_normal l a (λ y m. h y (ground (arith, m)))))

  pub yields-collect_distinct :
      ((x a : A) → f x ≡ some a → f a ≡ some a)
      → (xs : List A) (a : A) → yields f (collect_distinct f xs) a ≡ yields f xs a
  yields-collect_distinct idem xs a =
      yields-of_normal (collect_distinct f xs) a
        (λ x m. yields-normal idem xs x (sym (contains-collect_distinct f xs x) ∙ m))
      ∙ contains-collect_distinct f xs a
