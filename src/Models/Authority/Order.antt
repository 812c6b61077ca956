-- ===== src/Models/Authority/Order.antt =====
-- source_authority.go and source_priority.go: the comparators of authority and the two loops.
use code_code_platform_catal.Prelude.{◌≡◌, refl, true, [], ◌∷◌, nat_eq, flip, arith, eq_iff}
use code_code_platform_catal.Text.{Text, text_eq, is_empty, trim_space, compare_text_swap}
use code_code_platform_catal.Models.Types.{CollectedEntry}
use code_code_platform_catal.Models.Authority.{
  compare_source_id, collected_entry_authority_source_id, compare_collected_entry_authority,
}

empty_text : (s : Text) → is_empty s ≡ true → s ≡ []
empty_text [] h = refl
empty_text (c ∷ s) h = ground arith

pub compare_source_id_swap :
    (left right : Text) → compare_source_id right left ≡ flip (compare_source_id left right)
unfolding compare_source_id
compare_source_id_swap left right =
    let l = trim_space left in
    let r = trim_space right in
    ground (arith, eq_iff l r, eq_iff r l, compare_text_swap l r, empty_text l, empty_text r)

-- Swapping two entries reverses the result of the comparison by authority.
pub compare_collected_entry_authority_swap :
    (left right : CollectedEntry)
    → compare_collected_entry_authority right left
      ≡ flip (compare_collected_entry_authority left right)
unfolding compare_collected_entry_authority
compare_collected_entry_authority_swap left right = ground (
  arith,
  compare_source_id_swap (collected_entry_authority_source_id left)
      (collected_entry_authority_source_id right),
)
