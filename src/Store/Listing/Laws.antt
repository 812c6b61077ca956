-- ===== src/Store/Listing/Laws.antt =====
-- models/store/query_list.go: the order of the rows of a listing.
use code_code_platform_catal.Prelude.{◌≡◌, refl, ap, arith, IsComparator, flip, Ordering}
use code_code_platform_catal.Text.{Text}
use code_code_platform_catal.Store.Tokens.{ContinueToken}
use code_code_platform_catal.Store.Listing.{compare_cursor}

-- The order of the columns is one of the texts.
compare_cursor_swap :
    (collate : Text → Text → Ordering)
    → IsComparator collate
    → (a b : ContinueToken) → compare_cursor collate b a ≡ flip (compare_cursor collate a b)
unfolding compare_cursor
compare_cursor_swap collate law a b =
    ground (arith, law.swap a.vendor_id b.vendor_id, law.swap a.model_id b.model_id)

compare_cursor-eq :
    (collate : Text → Text → Ordering)
    → IsComparator collate
    → (a b : ContinueToken) → compare_cursor collate a b ≡ Ordering.eq
    → a ≡ b
unfolding compare_cursor
compare_cursor-eq collate law a b h =
    let vendors : a.vendor_id ≡ b.vendor_id =
      law.same a.vendor_id b.vendor_id (ground (arith, h)) in
    let models : a.model_id ≡ b.model_id = law.same a.model_id b.model_id (ground (arith, h)) in
    cc (vendors, models)

compare_cursor_trans :
    (collate : Text → Text → Ordering)
    → IsComparator collate
    → (a b c : ContinueToken) → compare_cursor collate a b ≡ Ordering.lt
    → compare_cursor collate b c ≡ Ordering.lt
    → compare_cursor collate a c ≡ Ordering.lt
unfolding compare_cursor
compare_cursor_trans collate law a b c h k =
    place (collate a.vendor_id b.vendor_id) refl (collate b.vendor_id c.vendor_id) refl
  where
    place :
        (o : Ordering)
        → collate a.vendor_id b.vendor_id ≡ o
        → (p : Ordering) → collate b.vendor_id c.vendor_id ≡ p
        → compare_cursor collate a c ≡ Ordering.lt
    place Ordering.gt e p f = absurd (ground (arith, h, e))
    place Ordering.lt e Ordering.gt f = absurd (ground (arith, k, f))
    place Ordering.eq e Ordering.gt f = absurd (ground (arith, k, f))
    place Ordering.lt e Ordering.lt f =
        ground (arith, law.trans a.vendor_id b.vendor_id c.vendor_id e f)
    place Ordering.lt e Ordering.eq f =
        ground (arith, e, ap (collate a.vendor_id) (law.same b.vendor_id c.vendor_id f))
    place Ordering.eq e Ordering.lt f =
        ground (arith, f, ap (λ v. collate v c.vendor_id) (law.same a.vendor_id b.vendor_id e))
    place Ordering.eq e Ordering.eq f = ground (
      arith,
      e,
      h,
      k,
      f,
      ap (collate a.vendor_id) (law.same b.vendor_id c.vendor_id f),
      law.trans a.model_id b.model_id c.model_id,
    )

pub compare_cursor-IsComparator :
    (collate : Text → Text → Ordering)
    → IsComparator collate
    → IsComparator (compare_cursor collate)
compare_cursor-IsComparator collate law = record {
  swap = compare_cursor_swap collate law;
  same = compare_cursor-eq collate law;
  trans = compare_cursor_trans collate law;
}
