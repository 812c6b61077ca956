-- ===== src/Text/Order.antt =====
-- `strings.Compare`: the byte-wise lexicographic order. A comparator's negative, zero and positive
-- results are `lt`, `eq` and `gt`.
use Prim.Native.Nat.{Ordering, compare}
use code_code_platform_catal.Prelude.{◌≡◌, refl, [], ◌∷◌, arith, flip, IsComparator}
use code_code_platform_catal.Text.Base.{Text}

unfoldable pub compare_text : Text → Text → Ordering
compare_text [] [] = Ordering.eq
compare_text [] (_ ∷ _) = Ordering.lt
compare_text (_ ∷ _) [] = Ordering.gt
compare_text (a ∷ s) (b ∷ t) = elim (compare a b) [
  | Ordering.lt ↦ Ordering.lt
  | Ordering.eq ↦ compare_text s t
  | Ordering.gt ↦ Ordering.gt
]

pub flip-flip : (o : Ordering) → flip (flip o) ≡ o
flip-flip Ordering.lt = refl
flip-flip Ordering.eq = refl
flip-flip Ordering.gt = refl

pub compare_text_swap : (s t : Text) → compare_text t s ≡ flip (compare_text s t)
unfolding compare_text
compare_text_swap [] [] = refl
compare_text_swap [] (_ ∷ _) = refl
compare_text_swap (_ ∷ _) [] = refl
compare_text_swap (a ∷ s) (b ∷ t) = ground (arith, compare_text_swap s t)

pub compare_text-eq : (s t : Text) → compare_text s t ≡ Ordering.eq → s ≡ t
unfolding compare_text
compare_text-eq [] [] h = refl
compare_text-eq [] (_ ∷ _) h = ground arith
compare_text-eq (_ ∷ _) [] h = ground arith
compare_text-eq (a ∷ s) (b ∷ t) h = ground (arith, compare_text-eq s t)

pub compare_text_self : (s : Text) → compare_text s s ≡ Ordering.eq
unfolding compare_text
compare_text_self [] = refl
compare_text_self (a ∷ s) = ground (arith, compare_text_self s)

pub compare_text_trans :
    (s t u : Text)
    → compare_text s t ≡ Ordering.lt
    → compare_text t u ≡ Ordering.lt
    → compare_text s u ≡ Ordering.lt
unfolding compare_text
compare_text_trans [] [] u h k = ground arith
compare_text_trans [] (b ∷ t) [] h k = ground arith
compare_text_trans [] (b ∷ t) (c ∷ u) h k = refl
compare_text_trans (a ∷ s) [] u h k = ground arith
compare_text_trans (a ∷ s) (b ∷ t) [] h k = ground arith
compare_text_trans (a ∷ s) (b ∷ t) (c ∷ u) h k = ground (arith, compare_text_trans s t u)

pub compare_text-IsComparator : IsComparator compare_text
compare_text-IsComparator = record {
  swap = compare_text_swap;
  same = compare_text-eq;
  trans = compare_text_trans;
}
