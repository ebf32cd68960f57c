-- ===== src/Tenant/Single.antt =====
-- With unique ids the climb is a line with at most one root, so `root_id_of` never raises.
use attendance.Prelude.{
  ℕ, zero, suc, ◌≤◌, ◌≡◌, refl, true, false, Option, none, some, List, [], ◌∷◌, ◌++◌, ◌==◌, same_id,
  select, any, length, map, arith, Bool-cases, inl, inr, ==_iff, ap, sym, ◌∙◌,
}
use attendance.Prelude.Errors.{ok, scalar_one_or_none}
use mathlib.Core.List.{append-nil}
use attendance.Tenant.{
  Organization, max_tree_depth, walk, parents_of, is_root, ascending, root_id_of,
}
use attendance.Tenant.Ascents.{HasUniqueIds, has_org_id}

select-unmatched :
    (n : ℕ) (xs : List Organization) → any (has_org_id n) xs ≡ false → select (has_org_id n) xs ≡ []
select-unmatched n [] h = refl
select-unmatched n (x ∷ xs) h = ground (arith, select-unmatched n xs)

-- At most one row has a given id.
length-select_id :
    (n : ℕ) (xs : List Organization) → HasUniqueIds xs → length (select (has_org_id n) xs) ≤ 1
length-select_id n [] u = omega arith
length-select_id n (x ∷ xs) u = elim (Bool-cases (x.id == n)) [
  | inl same ↦ rw same (
      rw
        (select-unmatched n xs
          (ap (λ m. any (has_org_id m) xs) (sym ((==_iff x.id n).0 same)) ∙ u.0))
        (omega arith))
  | inr other ↦ rw other (length-select_id n xs u.1)
]

module _ (t : List Organization) (unique : HasUniqueIds t) where
  no_parents : (xs : List Organization) → select (λ p. same_id (some p.id) none) xs ≡ []
  no_parents [] = refl
  no_parents (x ∷ xs) = no_parents xs

  one_parent : (o : Option ℕ) → length (select (λ p. same_id (some p.id) o) t) ≤ 1
  one_parent none = rw (no_parents t) (omega arith)
  one_parent (some n) = length-select_id n t unique

  walk-empty : (n : ℕ) → walk (parents_of t) n [] ≡ []
  walk-empty zero = refl
  walk-empty (suc n) = walk-empty n

  root_no_parents :
      (o : Option ℕ) → same_id o none ≡ true → select (λ p. same_id (some p.id) o) t ≡ []
  root_no_parents none h = no_parents t
  root_no_parents (some n) h = cc

  roots-step :
      (n : ℕ) (x : Organization)
      → length (select (is_root t) (walk (parents_of t) n (parents_of t x ++ []))) ≤ 1
      → length (select (is_root t) (walk (parents_of t) (suc n) (x ∷ []))) ≤ 1
  roots-step n x h = elim (Bool-cases (is_root t x)) [
    | inl root ↦ rw root (rw (root_no_parents x.parent_id root) (rw (walk-empty n) (omega arith)))
    | inr inner ↦ rw inner h
  ]

  length-roots :
      (n : ℕ) (level : List Organization)
      → length level ≤ 1
      → length (select (is_root t) (walk (parents_of t) n level)) ≤ 1
  length-roots zero [] h = omega arith
  length-roots zero (x ∷ []) h = ground arith
  length-roots (suc n) [] h = length-roots n [] h
  length-roots (suc n) (x ∷ []) h = roots-step n x (
      length-roots n (parents_of t x ++ [])
        (rw (append-nil (parents_of t x)) (one_parent x.parent_id)))
  length-roots n (x ∷ y ∷ zs) h = absurd (omega arith)

  one_or_none :
      (xs : List Organization)
      → length xs ≤ 1
      → (o : Option ℕ) × (scalar_one_or_none (map (λ x. x.id) xs) ≡ ok o)
  one_or_none [] h = (none, refl)
  one_or_none (x ∷ []) h = (some x.id, refl)
  one_or_none (x ∷ y ∷ xs) h = absurd (omega arith)

  -- In a table with unique ids, `root_id_of` answers for every id, cyclic as the parents may be:
  -- its query never finds two roots.
  pub root_id_of_total : (n : ℕ) → (o : Option ℕ) × (root_id_of t n ≡ ok o)
  unfolding root_id_of ascending
  root_id_of_total n =
      one_or_none (select (is_root t) (ascending t n))
        (length-roots max_tree_depth (select (has_org_id n) t) (length-select_id n t unique))
