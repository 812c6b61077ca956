-- ===== src/Prelude/Sorting.antt =====
-- `slices.SortFunc` as insertion sort, and comparators that are lawful.
use Prim.Native.Nat.{Ordering}
use mathlib.Core.Path.{◌≡◌, refl, sym, ◌∙◌, ap}
use mathlib.Core.Logic.{inl, inr}
use mathlib.Core.Bool.{true, false, ◌||◌}
use mathlib.Core.List.{List, [], ◌∷◌}
use native.Mathlib.Omega.{arith}
use code_code_platform_catal.Prelude.Tests.{Eq, ◌==◌, eq_iff, eq_self, Bool-cases}
use code_code_platform_catal.Prelude.Lists.{All}
use code_code_platform_catal.Prelude.Distinct.{contains, IsDistinct}

module _ {ℓ} {A : Type ℓ} (cmp : A → A → Ordering) where
  unfoldable pub insert_by : A → List A → List A
  insert_by a [] = a ∷ []
  insert_by a (x ∷ xs) = elim (cmp a x) [
    | Ordering.lt ↦ a ∷ x ∷ xs
    | Ordering.eq ↦ a ∷ x ∷ xs
    | Ordering.gt ↦ x ∷ insert_by a xs
  ]

  unfoldable pub sort_by : List A → List A
  unfolding insert_by
  sort_by [] = []
  sort_by (x ∷ xs) = insert_by x (sort_by xs)

module _ {ℓ} {A : Type ℓ} (cmp : A → A → Ordering) (P : A → Type 0) where
  pub insert_by-All : (a : A) (xs : List A) → P a → All P xs → All P (insert_by cmp a xs)
  unfolding insert_by
  insert_by-All a [] p h = (p, tt)
  insert_by-All a (x ∷ xs) p (q, h) = place (insert_by-All a xs p h) (cmp a x) refl
    where
      place :
          All P (insert_by cmp a xs)
          → (o : Ordering) → cmp a x ≡ o
          → All P (insert_by cmp a (x ∷ xs))
      place rest Ordering.lt e = rw (e, insert_by) (p, (q, h))
      place rest Ordering.eq e = rw (e, insert_by) (p, (q, h))
      place rest Ordering.gt e = rw (e, insert_by) (q, rest)

  pub sort_by-All : (xs : List A) → All P xs → All P (sort_by cmp xs)
  unfolding sort_by
  sort_by-All [] h = tt
  sort_by-All (x ∷ xs) (p, h) = insert_by-All x (sort_by cmp xs) p (sort_by-All xs h)

-- The result of a comparator on swapped arguments.
abbrev pub flip : Ordering → Ordering
flip Ordering.lt = Ordering.gt
flip Ordering.eq = Ordering.eq
flip Ordering.gt = Ordering.lt

-- A comparator that tells all values apart and orders them.
pub record IsComparator {ℓ} {A : Type ℓ} (cmp : A → A → Ordering) : Type ℓ where
  pub swap : (a b : A) → cmp b a ≡ flip (cmp a b)
  pub same : (a b : A) → cmp a b ≡ Ordering.eq → a ≡ b
  pub trans : (a b c : A) → cmp a b ≡ Ordering.lt → cmp b c ≡ Ordering.lt → cmp a c ≡ Ordering.lt

module _ {ℓ} {A : Type ℓ} ⦃e : Eq A⦄ (cmp : A → A → Ordering) where
  pub contains-insert_by :
      (a : A) (xs : List A) (y : A) → contains (insert_by cmp a xs) y ≡ (a == y || contains xs y)
  unfolding insert_by contains
  contains-insert_by a [] y = refl
  contains-insert_by a (x ∷ xs) y = ground (arith, contains-insert_by a xs y)

  pub contains-sort_by : (xs : List A) (y : A) → contains (sort_by cmp xs) y ≡ contains xs y
  unfolding sort_by contains
  contains-sort_by [] y = refl
  contains-sort_by (x ∷ xs) y =
      contains-insert_by x (sort_by cmp xs) y ∙ ap (λ b. x == y || b) (contains-sort_by xs y)

  -- Every item is before all the later ones.
  abbrev pub IsAscending : List A → Type ℓ
  IsAscending [] = Unit
  IsAscending (x ∷ xs) = ((y : A) → contains xs y ≡ true → cmp x y ≡ Ordering.lt) × IsAscending xs

  module _ (law : IsComparator cmp) where
    cmp_self : (a : A) → cmp a a ≡ Ordering.eq
    cmp_self a = self_flip (cmp a a) (law.swap a a)
      where
        self_flip : (o : Ordering) → o ≡ flip o → o ≡ Ordering.eq
        self_flip Ordering.lt h = cc
        self_flip Ordering.eq h = refl
        self_flip Ordering.gt h = cc

    Ascending-cons :
        (a x : A) (xs : List A)
        → cmp a x ≡ Ordering.lt
        → IsAscending (x ∷ xs)
        → IsAscending (a ∷ x ∷ xs)
    Ascending-cons a x xs before h = (
      λ y m. elim (Bool-cases (x == y)) [
        | inl same ↦ rw (← (eq_iff x y).0 same) before
        | inr other ↦ law.trans a x y before (h.0 y (unfold contains in ground (arith, other)))
      ],
      h,
    )

    Ascending-insert :
        (a x : A) (xs : List A)
        → cmp a x ≡ Ordering.gt
        → IsAscending (x ∷ xs)
        → IsAscending (insert_by cmp a xs)
        → IsAscending (x ∷ insert_by cmp a xs)
    Ascending-insert a x xs after h inserted = (
      λ y m. elim (Bool-cases (a == y)) [
        | inl same ↦ rw (← (eq_iff a y).0 same) (law.swap a x ∙ ap flip after)
        | inr other ↦ h.0 y (ground (arith, other, contains-insert_by a xs y))
      ],
      inserted,
    )

    insert_by-IsAscending :
        (a : A) (xs : List A)
        → contains xs a ≡ false
        → IsAscending xs
        → IsAscending (insert_by cmp a xs)
    unfolding insert_by
    insert_by-IsAscending a [] n h = (λ y m. absurd (unfold contains in cc m), tt)
    insert_by-IsAscending a (x ∷ xs) n h =
        place (insert_by-IsAscending a xs (unfold contains in ground arith) h.1) (cmp a x) refl
      where
        place :
            IsAscending (insert_by cmp a xs)
            → (o : Ordering) → cmp a x ≡ o
            → IsAscending (insert_by cmp a (x ∷ xs))
        place ih Ordering.lt before = rw (before, insert_by) (Ascending-cons a x xs before h)
        place ih Ordering.eq same =
            absurd (unfold contains in ground (arith, law.same a x same, eq_self a, n))
        place ih Ordering.gt after = rw (after, insert_by) (Ascending-insert a x xs after h ih)

    pub sort_by-IsAscending : (xs : List A) → IsDistinct xs → IsAscending (sort_by cmp xs)
    unfolding sort_by
    sort_by-IsAscending [] d = tt
    sort_by-IsAscending (x ∷ xs) d =
        insert_by-IsAscending x (sort_by cmp xs) (contains-sort_by xs x ∙ d.0)
          (sort_by-IsAscending xs d.1)

    Ascending-not_contains : (x : A) (xs : List A) → IsAscending (x ∷ xs) → contains xs x ≡ false
    Ascending-not_contains x xs h = elim (Bool-cases (contains xs x)) [
      | inl found ↦ absurd (cc (h.0 x found, cmp_self x))
      | inr missing ↦ missing
    ]

    head_unique :
        (x y : A) (xs ys : List A)
        → IsAscending (x ∷ xs)
        → IsAscending (y ∷ ys)
        → ((a : A) → contains (x ∷ xs) a ≡ contains (y ∷ ys) a)
        → x ≡ y
    unfolding contains
    head_unique x y xs ys h k same = elim (Bool-cases (y == x)) [
      | inl found ↦ sym ((eq_iff y x).0 found)
      | inr other ↦ elim (Bool-cases (x == y)) [
        | inl found ↦ (eq_iff x y).0 found
        | inr also ↦
            let later : cmp y x ≡ Ordering.lt = k.0 x (ground (arith, other, same x, eq_self x)) in
            let earlier : cmp x y ≡ Ordering.lt = h.0 y (ground (arith, also, same y, eq_self y)) in
            absurd (cc (law.swap x y, later, earlier))
      ]
    ]

    -- A list in ascending order is determined by what it contains.
    pub Ascending-unique :
        (xs ys : List A)
        → IsAscending xs
        → IsAscending ys
        → ((a : A) → contains xs a ≡ contains ys a)
        → xs ≡ ys
    unfolding contains
    Ascending-unique [] [] h k same = refl
    Ascending-unique [] (y ∷ ys) h k same = absurd (ground (arith, same y, eq_self y))
    Ascending-unique (x ∷ xs) [] h k same = absurd (ground (arith, same x, eq_self x))
    Ascending-unique (x ∷ xs) (y ∷ ys) h k same =
        let head = head_unique x y xs ys h k same in
        let tails : (a : A) → contains xs a ≡ contains ys a = (λ a. elim (Bool-cases (x == a)) [
          | inl hit ↦
              let at : x ≡ a = (eq_iff x a).0 hit in
              rw (← at) (
                Ascending-not_contains x xs h
                ∙ sym (rw (← head) at (Ascending-not_contains y ys k)))
          | inr miss ↦ ground (arith, miss, head, same a)
        ]) in
        cc (head, Ascending-unique xs ys h.1 k.1 tails)
