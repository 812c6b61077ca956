-- ===== src/Store/Listing/Cut.antt =====
-- models/store/query_list.go: the cut of a page from the rows that were read.
use Prim.Native.Nat.{min}
use code_code_platform_catal.Prelude.{
  ℕ, zero, suc, ◌+◌, ◌≤◌, ◌≡◌, refl, ap, true, false, List, [], ◌∷◌, ◌++◌, map, none, some, arith,
  inl, inr, Bool-cases, ltb, length, take, drop, length-take, last,
}
use code_code_platform_catal.Text.{text_eq}
use code_code_platform_catal.Store.Pages.{page_of, estimate_definition_list_total_count}

pub take_whole : {A : Type 0} (n : ℕ) (xs : List A) → length xs ≤ n → take n xs ≡ xs
take_whole zero [] h = refl
take_whole zero (x ∷ xs) h = absurd (omega (arith, h))
take_whole (suc n) [] h = refl
take_whole (suc n) (x ∷ xs) h = ap (λ l. x ∷ l) (take_whole n xs (omega (arith, h)))

pub map-take-drop :
    {A B : Type 0} (f : A → B) (n : ℕ) (xs : List A)
    → map f (take n xs) ++ map f (drop n xs) ≡ map f xs
map-take-drop f zero xs = refl
map-take-drop f (suc n) [] = refl
map-take-drop f (suc n) (x ∷ xs) = ap (λ l. f x ∷ l) (map-take-drop f n xs)

module _ {A B : Type 0} (f : A → B) where
  pub length-map : (xs : List A) → length (map f xs) ≡ length xs
  length-map [] = refl
  length-map (x ∷ xs) = ap suc (length-map xs)

  pub last-map :
      (xs : List A) → last (map f xs) ≡ elim (last xs) [ none ↦ none | some x ↦ some (f x) ]
  unfolding last
  last-map [] = refl
  last-map (x ∷ xs) = ground (arith, last-map xs)

  take-map-take : (n : ℕ) (xs : List A) → take n (map f (take (suc n) xs)) ≡ map f (take n xs)
  take-map-take zero xs = refl
  take-map-take (suc n) [] = refl
  take-map-take (suc n) (x ∷ xs) = ap (λ l. f x ∷ l) (take-map-take n xs)

  take_all : (n : ℕ) (xs : List A) → length xs ≤ n → take (suc n) xs ≡ take n xs
  take_all zero [] h = refl
  take_all zero (x ∷ xs) h = absurd (omega (arith, h))
  take_all (suc n) [] h = refl
  take_all (suc n) (x ∷ xs) h = ap (λ l. x ∷ l) (take_all n xs (omega (arith, h)))

  more_of : (n k : ℕ) → ltb n k ≡ true → ltb n (min (suc n) k) ≡ true
  more_of n k h = ground (arith, h)

  all_of : (n k : ℕ) → ltb n k ≡ false → ltb n (min (suc n) k) ≡ false
  all_of n k h = ground (arith, h)

  -- The page of a query for one row more than the page.
  pub page_of-take :
      (n offset : ℕ) (xs : List A)
      → page_of n offset (map f (take (suc n) xs)) ≡ record {
        items = map f (take n xs);
        has_more = ltb n (length xs);
        next_offset = offset + length (take n xs);
        total_count =
            estimate_definition_list_total_count offset (length (take n xs)) (ltb n (length xs));
      }
  unfolding page_of
  page_of-take n offset xs = elim (Bool-cases (ltb n (length xs))) [
    | inl more ↦
        rw
          (
            length-map (take (suc n) xs),
            length-take (suc n) xs,
            more_of n (length xs) more,
            more,
            take-map-take n xs,
            length-map (take n xs),
          )
          refl
    | inr all ↦
        rw
          (
            length-map (take (suc n) xs),
            length-take (suc n) xs,
            all_of n (length xs) all,
            all,
            take_all n xs (ground (arith, all)),
            length-map (take n xs),
          )
          refl
  ]
