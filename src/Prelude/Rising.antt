-- ===== src/Prelude/Rising.antt =====
-- Lists in strictly rising order of a key, and what comes after a value in such a list.
use Prim.Native.Nat.{ℕ, zero, suc, Ordering}
use mathlib.Core.Path.{◌≡◌, refl, sym, ap, ◌∙◌, subst}
use mathlib.Core.Logic.{◌≢◌, inl, inr}
use mathlib.Core.Option.{Option, none, some}
use mathlib.Core.Bool.{Bool, true, false}
use mathlib.Core.List.{List, [], ◌∷◌}
use native.Mathlib.Omega.{arith}
use code_code_platform_catal.Prelude.Tests.{if◌then◌else◌, Bool-cases, Option-cases, some_eq}
use code_code_platform_catal.Prelude.Lists.{All, All-weaken, take-All, take, drop}
use code_code_platform_catal.Prelude.Sorting.{
  insert_by, sort_by, flip, IsComparator, insert_by-All, sort_by-All,
}
use code_code_platform_catal.Prelude.Reorder.{DistinctKeys}

unfoldable pub keep {ℓ} : {A : Type ℓ} → (A → Bool) → List A → List A
keep p [] = []
keep p (x ∷ xs) = let rest = keep p xs in if p x then x ∷ rest else rest

pub keep-All {ℓ} : {A : Type ℓ} (p : A → Bool) (xs : List A) → All (λ x. p x ≡ true) (keep p xs)
unfolding keep
keep-All p [] = tt
keep-All p (x ∷ xs) = elim (Bool-cases (p x)) [
  | inl hit ↦ rw (hit, keep) (hit, keep-All p xs)
  | inr miss ↦ rw (miss, keep) (keep-All p xs)
]

pub keep_weaken {ℓ κ} :
    {A : Type ℓ} (P : A → Type κ) (p : A → Bool) (xs : List A) → All P xs → All P (keep p xs)
unfolding keep
keep_weaken P p [] h = tt
keep_weaken P p (x ∷ xs) (q, h) = elim (Bool-cases (p x)) [
  | inl hit ↦ rw (hit, keep) (q, keep_weaken P p xs h)
  | inr miss ↦ rw (miss, keep) (keep_weaken P p xs h)
]

-- Go's `xs[len(xs)-1]`.
unfoldable pub last {ℓ} : {A : Type ℓ} → List A → Option A
last [] = none
last (x ∷ xs) = elim (last xs) [ none ↦ some x | some y ↦ some y ]

pub last-All {ℓ κ} :
    {A : Type ℓ} (P : A → Type κ) (xs : List A) (x : A) → last xs ≡ some x → All P xs → P x
unfolding last
last-All P [] x e h = absurd (ground (arith, e))
last-All P (y ∷ ys) x e (p, h) = elim (Option-cases (last ys)) [
  | inl end ↦ subst P (some_eq (rw end at e)) p
  | inr (z, later) ↦ last-All P ys x (later ∙ rw later at e) h
]

pub last-none {ℓ} : {A : Type ℓ} (xs : List A) → last xs ≡ none → xs ≡ []
unfolding last
last-none [] e = refl
last-none (x ∷ xs) e = elim (Option-cases (last xs)) [
  | inl end ↦ absurd (ground (arith, rw end at e))
  | inr (z, later) ↦ absurd (ground (arith, rw later at e))
]

take_nothing {ℓ} : {A : Type ℓ} (n : ℕ) (xs : List A) → take n xs ≡ [] → drop n xs ≡ xs
take_nothing zero xs h = refl
take_nothing (suc n) [] h = refl
take_nothing (suc n) (x ∷ xs) h = absurd (ground (arith, h))

abbrev pub is_gt : Ordering → Bool
is_gt Ordering.lt = false
is_gt Ordering.eq = false
is_gt Ordering.gt = true

pub is_gt_eq : (o : Ordering) → is_gt o ≡ true → o ≡ Ordering.gt
is_gt_eq Ordering.lt h = cc h
is_gt_eq Ordering.eq h = cc h
is_gt_eq Ordering.gt h = refl

module _ {A K : Type 0} (key : A → K) (cmp : K → K → Ordering) (law : IsComparator cmp) where
  abbrev pub IsBefore : A → A → Type 0
  IsBefore a b = cmp (key a) (key b) ≡ Ordering.lt

  cmp_refl : (k : K) → cmp k k ≡ Ordering.eq
  cmp_refl k = unflipped (cmp k k) (law.swap k k)
    where
      unflipped : (o : Ordering) → o ≡ flip o → o ≡ Ordering.eq
      unflipped Ordering.lt h = cc
      unflipped Ordering.eq h = refl
      unflipped Ordering.gt h = cc

  is_gt_later :
      (c k j : K) → cmp c k ≡ Ordering.lt → is_gt (cmp j k) ≡ true → is_gt (cmp j c) ≡ true
  is_gt_later c k j e h =
      let after : cmp k j ≡ Ordering.lt = law.swap j k ∙ ap flip (is_gt_eq (cmp j k) h) in
      rw (law.swap c j, law.trans c k j e after) refl

  -- Every item is before all the later ones.
  abbrev pub IsRising : List A → Type 0
  IsRising [] = Unit
  IsRising (x ∷ xs) = All (IsBefore x) xs × IsRising xs

  insert_by-IsRising :
      (a : A) (xs : List A)
      → All (λ y. key a ≢ key y) xs
      → IsRising xs
      → IsRising (insert_by (λ a b. cmp (key a) (key b)) a xs)
  unfolding insert_by
  insert_by-IsRising a [] n h = (tt, tt)
  insert_by-IsRising a (x ∷ xs) (other, n) (first, h) =
      place (insert_by-IsRising a xs n h) (cmp (key a) (key x)) refl
    where
      place :
          IsRising (insert_by (λ a b. cmp (key a) (key b)) a xs)
          → (o : Ordering) → cmp (key a) (key x) ≡ o
          → IsRising (insert_by (λ a b. cmp (key a) (key b)) a (x ∷ xs))
      place ih Ordering.lt e =
          rw (e, insert_by)
            ((e, All-weaken xs (λ y b. law.trans (key a) (key x) (key y) e b) first), (first, h))
      place ih Ordering.eq e = absurd (other (law.same (key a) (key x) e))
      place ih Ordering.gt e =
          rw (e, insert_by)
            (
              insert_by-All (λ a b. cmp (key a) (key b)) (IsBefore x) a xs
                  (law.swap (key a) (key x) ∙ ap flip e) first,
              ih,
            )

  pub sort_by-IsRising :
      (xs : List A)
      → DistinctKeys key cmp law xs
      → IsRising (sort_by (λ a b. cmp (key a) (key b)) xs)
  unfolding sort_by
  sort_by-IsRising [] d = tt
  sort_by-IsRising (x ∷ xs) (n, d) =
      insert_by-IsRising x (sort_by (λ a b. cmp (key a) (key b)) xs)
        (sort_by-All (λ a b. cmp (key a) (key b)) (λ y. key x ≢ key y) xs n) (sort_by-IsRising xs d)

  -- The values that come after this key.
  abbrev pub above : K → List A → List A
  above k xs = keep (λ x. is_gt (cmp (key x) k)) xs

  above_all : (x : A) (xs : List A) → All (IsBefore x) xs → above (key x) xs ≡ xs
  unfolding keep
  above_all x [] h = refl
  above_all x (y ∷ ys) (before, h) =
      rw (law.swap (key x) (key y), before) (ap (λ l. y ∷ l) (above_all x ys h))

  -- The rows after the last one of a page are those that are not on it.
  pub above-last :
      (n : ℕ) (xs : List A) (x : A)
      → IsRising xs
      → last (take n xs) ≡ some x
      → above (key x) xs ≡ drop n xs
  unfolding keep last
  above-last zero xs x h e = absurd (ground (arith, e))
  above-last (suc n) [] x h e = absurd (ground (arith, e))
  above-last (suc n) (y ∷ ys) x (first, h) e = elim (Option-cases (last (take n ys))) [
    | inl end ↦
        let same : y ≡ x = some_eq (rw end at e) in
        ap (λ z. above (key z) (y ∷ ys)) (sym same)
        ∙ rw (cmp_refl (key y)) (above_all y ys first)
        ∙ sym (take_nothing n ys (last-none (take n ys) end))
    | inr (z, later) ↦
        let found : last (take n ys) ≡ some x = later ∙ rw later at e in
        rw (last-All (IsBefore y) (take n ys) x found (take-All (IsBefore y) n ys first))
          (above-last n ys x h found)
  ]

  -- What comes after a later key comes after an earlier one.
  pub above-above :
      (c k : K) (xs : List A) → cmp c k ≡ Ordering.lt → above k (above c xs) ≡ above k xs
  unfolding keep
  above-above c k [] e = refl
  above-above c k (x ∷ xs) e = ground (arith, above-above c k xs e, is_gt_later c k (key x) e)

  pub drop-IsRising : (n : ℕ) (xs : List A) → IsRising xs → IsRising (drop n xs)
  drop-IsRising zero xs h = h
  drop-IsRising (suc n) [] h = tt
  drop-IsRising (suc n) (x ∷ xs) (first, h) = drop-IsRising n xs h

  -- The last row of a page comes after the key that the page comes after.
  pub last-above :
      (c : K) (n : ℕ) (xs : List A) (x : A)
      → last (take n (above c xs)) ≡ some x
      → cmp c (key x) ≡ Ordering.lt
  last-above c n xs x e =
      law.swap (key x) c
      ∙ ap flip (
          is_gt_eq (cmp (key x) c) (
            last-All (λ y. is_gt (cmp (key y) c) ≡ true) (take n (above c xs)) x e
              (take-All (λ y. is_gt (cmp (key y) c) ≡ true) n (above c xs)
                (keep-All (λ y. is_gt (cmp (key y) c)) xs))))
