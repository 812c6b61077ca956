-- ===== src/Models/Definition/Aliases.antt =====
-- definition_helpers.go: the aliases of a merged definition.
use code_code_platform_catal.Prelude.{
  ◌≡◌, refl, sym, ap, ◌∙◌, true, ◌||◌, List, [], ◌∷◌, ◌++◌, Option, none, some, contains,
  collect_distinct-IsDistinct, contains-collect_distinct, yields, yields-append, contains-sort_by,
  sort_by-IsAscending, IsAscending, Ascending-unique, IsComparator, Ordering, flip, arith, ◌==◌,
  eq_iff, eq_self, Option-cases, inl, inr, Bool-cases,
}
use code_code_platform_catal.Text.{
  is_empty, trim_space, trim_idem, is_space, compare_text_swap, compare_text-eq, compare_text_trans,
}
use code_code_platform_catal.ModelIdentity.Candidates.{ModelAlias}
use code_code_platform_catal.Models.Definition.{
  alias_eq, merged_alias, compare_alias, sorted_aliases, some_aliases, merge_definition_aliases,
}

compare_alias-IsComparator : IsComparator compare_alias
compare_alias-IsComparator = record {
  swap = compare_alias_swap;
  same = compare_alias-eq;
  trans = compare_alias_trans;
}
  where
    compare_alias_swap : (a b : ModelAlias) → compare_alias b a ≡ flip (compare_alias a b)
    compare_alias_swap a b =
        unfold compare_alias in ground (arith, compare_text_swap a.value b.value)

    compare_alias-eq : (a b : ModelAlias) → compare_alias a b ≡ Ordering.eq → a ≡ b
    compare_alias-eq a b h = unfold compare_alias in ground (arith, compare_text-eq a.value b.value)

    compare_alias_trans :
        (a b c : ModelAlias)
        → compare_alias a b ≡ Ordering.lt
        → compare_alias b c ≡ Ordering.lt
        → compare_alias a c ≡ Ordering.lt
    compare_alias_trans a b c h k =
        unfold compare_alias in ground (arith, compare_text_trans a.value b.value c.value)

sorted_aliases-IsAscending :
    (xs : List (Option ModelAlias)) → IsAscending compare_alias (sorted_aliases xs)
unfolding sorted_aliases
sorted_aliases-IsAscending xs =
    sort_by-IsAscending compare_alias compare_alias-IsComparator _
      (collect_distinct-IsDistinct merged_alias xs)

contains-sorted_aliases :
    (xs : List (Option ModelAlias)) (a : ModelAlias)
    → contains (sorted_aliases xs) a ≡ yields merged_alias xs a
unfolding sorted_aliases
contains-sorted_aliases xs a =
    contains-sort_by compare_alias _ a ∙ contains-collect_distinct merged_alias xs a

pub sorted_aliases_unique :
    (xs ys : List (Option ModelAlias))
    → ((a : ModelAlias) → yields merged_alias xs a ≡ yields merged_alias ys a)
    → sorted_aliases xs ≡ sorted_aliases ys
sorted_aliases_unique xs ys same =
    Ascending-unique compare_alias compare_alias-IsComparator _ _ (sorted_aliases-IsAscending xs)
      (sorted_aliases-IsAscending ys)
      (λ a. contains-sorted_aliases xs a ∙ same a ∙ sym (contains-sorted_aliases ys a))

merged_alias_idem :
    (o : Option ModelAlias) (a : ModelAlias)
    → merged_alias o ≡ some a
    → merged_alias (some a) ≡ some a
unfolding merged_alias
merged_alias_idem none a h = ground arith
merged_alias_idem (some b) a h = elim (Bool-cases (is_empty (trim_space b.value))) [
  | inl e ↦ ground (arith, e)
  | inr e ↦ ground (arith, e, trim_idem is_space b.value)
]

yields-normal :
    (xs : List (Option ModelAlias)) (a : ModelAlias)
    → yields merged_alias xs a ≡ true
    → merged_alias (some a) ≡ some a
yields-normal [] a h = unfold yields in ground arith
yields-normal (x ∷ xs) a h = elim (Option-cases (merged_alias x)) [
  | inl e ↦ yields-normal xs a (unfold yields in ground (arith, e))
  | inr (b, e) ↦ elim (Bool-cases (b == a)) [
    | inl same ↦ merged_alias_idem x a (cc (e, (eq_iff b a).0 same))
    | inr other ↦ yields-normal xs a (unfold yields in ground (arith, e, other))
  ]
]

yields-of_normal :
    (l : List ModelAlias) (a : ModelAlias)
    → ((x : ModelAlias) → contains l x ≡ true → merged_alias (some x) ≡ some x)
    → yields merged_alias (some_aliases l) a ≡ contains l a
unfolding yields contains
yields-of_normal [] a h = refl
yields-of_normal (x ∷ l) a h =
    rw (h x (ground (arith, eq_self x)), yields)
      (ap (λ b. x == a || b) (yields-of_normal l a (λ y m. h y (ground (arith, m)))))

yields-some_aliases :
    (xs : List (Option ModelAlias)) (a : ModelAlias)
    → yields merged_alias (some_aliases (sorted_aliases xs)) a ≡ yields merged_alias xs a
yields-some_aliases xs a =
    yields-of_normal (sorted_aliases xs) a
      (λ x m. yields-normal xs x (sym (contains-sorted_aliases xs x) ∙ m))
    ∙ contains-sorted_aliases xs a

pub merge_definition_aliases_assoc :
    (a b c : List (Option ModelAlias))
    → merge_definition_aliases (merge_definition_aliases a b) c
      ≡ merge_definition_aliases a (merge_definition_aliases b c)
unfolding merge_definition_aliases
merge_definition_aliases_assoc a b c = ap some_aliases (
    sorted_aliases_unique (some_aliases (sorted_aliases (a ++ b)) ++ c)
      (a ++ some_aliases (sorted_aliases (b ++ c)))
      (λ x. ground (
        arith,
        yields-append merged_alias (some_aliases (sorted_aliases (a ++ b))) c x,
        yields-append merged_alias a (some_aliases (sorted_aliases (b ++ c))) x,
        yields-some_aliases (a ++ b) x,
        yields-some_aliases (b ++ c) x,
        yields-append merged_alias a b x,
        yields-append merged_alias b c x,
      )))
