-- ===== src/Prelude/Reorder.antt =====
-- The orders in which the values of a list may arrive, and sorting by a key.
use Prim.Native.Nat.{Ordering}
use mathlib.Core.Path.{◌≡◌, refl, sym, ap, ◌∙◌, subst}
use mathlib.Core.Logic.{◌≢◌}
use mathlib.Core.List.{List, [], ◌∷◌, ◌++◌}
use code_code_platform_catal.Prelude.Lists.{All}
use code_code_platform_catal.Prelude.Sorting.{insert_by, sort_by, flip, IsComparator}

-- The values of the first list arrive, in some order, as the second list.
pub data Arrival {ℓ} {A : Type ℓ} : List A → List A → Type ℓ where
  done : Arrival [] []
  receive :
      (before : List A) (a : A) (after : List A) {arrived : List A}
      → Arrival (before ++ after) arrived
      → Arrival (before ++ a ∷ after) (a ∷ arrived)

module _ {ℓ κ} {A : Type ℓ} {K : Type κ} (key : A → K) (cmp : K → K → Ordering)
    (law : IsComparator cmp) where
  abbrev by_key : A → A → Ordering
  by_key a b = cmp (key a) (key b)

  -- No two values have the same key.
  abbrev pub DistinctKeys : List A → Type κ
  DistinctKeys [] = Unit
  DistinctKeys (x ∷ xs) = All (λ y. key x ≢ key y) xs × DistinctKeys xs

  insert_lt :
      (a b : A) (xs : List A)
      → by_key a b ≡ Ordering.lt
      → insert_by by_key a (insert_by by_key b xs) ≡ insert_by by_key b (insert_by by_key a xs)
  unfolding insert_by
  insert_lt a b [] h = rw (h, law.swap (key a) (key b), h, insert_by) refl
  insert_lt a b (x ∷ xs) h = place (by_key b x) refl (by_key a x) refl (insert_lt a b xs h)
    where
      back : by_key b a ≡ Ordering.gt
      back = law.swap (key a) (key b) ∙ ap flip h

      place :
          (o : Ordering)
          → by_key b x ≡ o
          → (p : Ordering) → by_key a x ≡ p
          → insert_by by_key a (insert_by by_key b xs) ≡ insert_by by_key b (insert_by by_key a xs)
          → insert_by by_key a (insert_by by_key b (x ∷ xs))
            ≡ insert_by by_key b (insert_by by_key a (x ∷ xs))
      place Ordering.lt e p f rest =
          rw (e, h, law.trans (key a) (key b) (key x) h e, back, e, insert_by) refl
      place Ordering.eq e p f rest =
          rw
            (
              e,
              h,
              subst (λ k. cmp (key a) k ≡ Ordering.lt) (law.same (key b) (key x) e) h,
              back,
              e,
              insert_by,
            )
            refl
      place Ordering.gt e Ordering.lt f rest = rw (e, f, back, e, insert_by) refl
      place Ordering.gt e Ordering.eq f rest = rw (e, f, back, e, insert_by) refl
      place Ordering.gt e Ordering.gt f rest = rw (e, f, e, insert_by) (ap (λ l. x ∷ l) rest)

  insert_comm :
      (a b : A) (xs : List A)
      → key a ≢ key b
      → insert_by by_key a (insert_by by_key b xs) ≡ insert_by by_key b (insert_by by_key a xs)
  insert_comm a b xs d = by_order (by_key a b) refl
    where
      by_order :
          (o : Ordering)
          → by_key a b ≡ o
          → insert_by by_key a (insert_by by_key b xs) ≡ insert_by by_key b (insert_by by_key a xs)
      by_order Ordering.lt e = insert_lt a b xs e
      by_order Ordering.eq e = absurd (d (law.same (key a) (key b) e))
      by_order Ordering.gt e = sym (insert_lt b a xs (law.swap (key a) (key b) ∙ ap flip e))

  sort_by_middle :
      (before : List A) (a : A) (after : List A)
      → DistinctKeys (before ++ a ∷ after)
      → sort_by by_key (before ++ a ∷ after) ≡ insert_by by_key a (sort_by by_key (before ++ after))
  unfolding sort_by
  sort_by_middle [] a after d = refl
  sort_by_middle (b ∷ before) a after (apart, d) =
      ap (insert_by by_key b) (sort_by_middle before a after d)
      ∙ insert_comm b a (sort_by by_key (before ++ after)) (middle before apart)
    where
      middle : (xs : List A) → All (λ y. key b ≢ key y) (xs ++ a ∷ after) → key b ≢ key a
      middle [] h = h.0
      middle (x ∷ xs) h = middle xs h.1

  without_middle :
      (before : List A) (a : A) (after : List A)
      → DistinctKeys (before ++ a ∷ after)
      → DistinctKeys (before ++ after)
  without_middle [] a after d = d.1
  without_middle (b ∷ before) a after d = (rest before d.0, without_middle before a after d.1)
    where
      rest :
          (xs : List A)
          → All (λ y. key b ≢ key y) (xs ++ a ∷ after)
          → All (λ y. key b ≢ key y) (xs ++ after)
      rest [] h = h.1
      rest (x ∷ xs) h = (h.0, rest xs h.1)

  pub sort_by-Arrival :
      {xs ys : List A} → Arrival xs ys → DistinctKeys xs → sort_by by_key ys ≡ sort_by by_key xs
  unfolding sort_by
  sort_by-Arrival done d = refl
  sort_by-Arrival (receive before a after rest) d =
      ap (insert_by by_key a) (sort_by-Arrival rest (without_middle before a after d))
      ∙ sym (sort_by_middle before a after d)
