-- ===== src/Tenant.antt =====
-- The organization tree and its recursive queries: backend/app/models/organization.py and
-- backend/app/middleware/tenant.py. A recursive CTE is the walk that joins level after level.
pub mod Ascents
pub mod Roots
pub mod Single
use attendance.Prelude.{
  ℕ, zero, suc, String, Bool, true, false, Option, none, some, List, [], ◌∷◌, ◌++◌, not, ◌==◌,
  if◌then◌else◌, same_id, select, map, member, flat_map, length, ◌+◌,
}
use attendance.Prelude.Errors.{Result, scalar_one_or_none}
use mathlib.Core.List.{reverse}

-- The columns that the tree logic reads and writes.
pub record Organization : Type 0 where
  pub id : ℕ
  pub name : String
  pub code : String
  pub node_type : String
  pub parent_id : Option ℕ
  pub is_active : Bool

abbrev pub max_tree_depth : ℕ
max_tree_depth = 64

abbrev drop_first : List Organization → List Organization
drop_first [] = []
drop_first (o ∷ os) = os

-- A tenant scope: `None`, a single id, or a list of ids.
pub data Scope : Type 0 where
  everything : Scope
  single : ℕ → Scope
  several : List ℕ → Scope

abbrev pub as_scope_ids : Scope → Option (List ℕ)
as_scope_ids everything = none
as_scope_ids (single n) = some (n ∷ [])
as_scope_ids (several ns) = some ns

-- Whether a row passes `apply_tenant_filter`, by its organization column.
abbrev pub apply_tenant_filter : Scope → ℕ → Bool
apply_tenant_filter scope org = elim (as_scope_ids scope) [
  | none ↦ true
  | some ids ↦ member org ids
]

-- A select by the primary key.
abbrev pub find_org : ℕ → List Organization → Option Organization
find_org n [] = none
find_org n (o ∷ os) = if o.id == n then some o else find_org n os

-- The rows of a recursive CTE with `UNION ALL`: the base rows, and, for as many levels as are
-- left, the rows that the join gives for the level before.
abbrev pub walk : (Organization → List Organization) → ℕ → List Organization → List Organization
walk join zero level = level
walk join (suc left) level = level ++ walk join left (flat_map join level)

module _ (t : List Organization) where
  abbrev pub children_of : Organization → List Organization
  children_of o = select (λ c. same_id c.parent_id (some o.id)) t

  abbrev pub parents_of : Organization → List Organization
  parents_of o = select (λ p. same_id (some p.id) o.parent_id) t

  unfoldable pub descendants_subquery : ℕ → List ℕ
  descendants_subquery node_id =
      map (λ o. o.id) (walk children_of max_tree_depth (select (λ o. o.id == node_id) t))

  unfoldable pub descendants_subquery_multi : List ℕ → List ℕ
  descendants_subquery_multi node_ids =
      map (λ o. o.id) (walk children_of max_tree_depth (select (λ o. member o.id node_ids) t))

  unfoldable pub ascending : ℕ → List Organization
  ascending node_id = walk parents_of max_tree_depth (select (λ o. o.id == node_id) t)

  abbrev is_root : Organization → Bool
  is_root o = same_id o.parent_id none

  unfoldable pub roots_subquery_multi : List ℕ → List ℕ
  roots_subquery_multi node_ids =
      map (λ o. o.id)
        (select is_root (walk parents_of max_tree_depth (select (λ o. member o.id node_ids) t)))

  -- The first sight of each id.
  abbrev dedup_onto : List ℕ → List ℕ → List ℕ
  dedup_onto seen [] = seen
  dedup_onto seen (r ∷ rs) = dedup_onto (if member r seen then seen else seen ++ r ∷ []) rs

  unfoldable pub root_ids_of : List ℕ → List ℕ
  unfolding roots_subquery_multi
  root_ids_of [] = []
  root_ids_of (n ∷ ns) = dedup_onto [] (roots_subquery_multi (n ∷ ns))

  unfoldable pub descendant_ids : ℕ → Bool → List ℕ
  unfolding descendants_subquery
  descendant_ids node_id include_self =
      let ids = descendants_subquery node_id in
      if include_self then ids else select (λ n. not (n == node_id)) ids

  unfoldable pub fetch_subtree : ℕ → List Organization
  unfolding descendants_subquery
  fetch_subtree node_id = select (λ o. member o.id (descendants_subquery node_id)) t

  unfoldable pub root_id_of : ℕ → Result (Option ℕ)
  unfolding ascending
  root_id_of node_id = scalar_one_or_none (map (λ o. o.id) (select is_root (ascending node_id)))

  -- Whether an employee's organization passes `apply_employee_tenant_filter`.
  unfoldable pub apply_employee_tenant_filter : Scope → ℕ → Bool
  unfolding descendants_subquery_multi
  apply_employee_tenant_filter scope org = elim (as_scope_ids scope) [
    | none ↦ true
    | some ids ↦ member org (descendants_subquery_multi ids)
  ]

  -- The climb of `ancestor_chain` through the rows that the CTE gave, with the nodes seen so far.
  -- Each round sees a new row, so `left` rounds suffice when `left` is the number of rows.
  abbrev climb : List Organization → ℕ → List ℕ → Option ℕ → List Organization
  climb rows zero seen cursor = []
  climb rows (suc left) seen none = []
  climb rows (suc left) seen (some n) = elim (find_org n rows) [
    | none ↦ []
    | some o ↦ elim (member n seen) [
      | true ↦ []
      | false ↦ o ∷ climb rows left (n ∷ seen) o.parent_id
    ]
  ]

  unfoldable pub ancestor_chain : ℕ → Bool → List Organization
  unfolding ascending
  ancestor_chain node_id include_self =
      let rows = select (λ o. member o.id (map (λ a. a.id) (ascending node_id))) t in
      let chain = climb rows (length rows + 1) [] (some node_id) in
      reverse (if include_self then chain else drop_first chain)
