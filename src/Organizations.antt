-- ===== src/Organizations.antt =====
-- The organization tree's operations: backend/app/services/organization_service.py. The state is
-- the table of organizations; concurrent moves in one company are serialized by the lock of its
-- root row, so each operation runs on one table. Ids of new rows come from the database.
pub mod Tree
use text.Mathlib.Text.{◌==◌ as str_eq}
use attendance.Prelude.{
  ℕ, String, Bool, true, false, Option, none, some, List, [], ◌∷◌, ◌++◌, not, ◌&&◌, ltb, ◌==◌,
  if◌then◌else◌, same_id, select, any, length, member, is_some,
}
use attendance.Prelude.Errors.{
  Result, ok, err, Error, not_found, permission_denied, validation, conflict, ◌>>=◌, ◌>>◌, raise_if,
  or_raise,
}
use attendance.Tenant.{
  Organization, Scope, as_scope_ids, find_org, descendants_subquery, descendant_ids, root_id_of,
}
use attendance.Attendance.Tables.{Employee}

-- `Organization.id != exclude_id`, where there is an id to leave out.
abbrev kept_apart : Option ℕ → Organization → Bool
kept_apart none o = true
kept_apart (some n) o = not (o.id == n)

abbrev member_of : Option ℕ → List ℕ → Bool
member_of none ids = false
member_of (some n) ids = member n ids

-- The update of a row's `parent_id`.
abbrev pub reparent : ℕ → ℕ → List Organization → List Organization
reparent n p [] = []
reparent n p (o ∷ os) = (if o.id == n then record o { parent_id = some p } else o) ∷ reparent n p os

-- `db.delete` of a row.
abbrev pub without : ℕ → List Organization → List Organization
without n = select (λ o. not (o.id == n))

module _ (t : List Organization) where
  pub ensure_unique_root_code : String → Option ℕ → Result (Unit {0})
  ensure_unique_root_code code exclude_id =
      raise_if
        (any (λ o. str_eq o.code code && (same_id o.parent_id none && kept_apart exclude_id o)) t)
        conflict

  unfoldable pub ensure_unique_sibling_code : ℕ → String → Option ℕ → Result (Unit {0})
  ensure_unique_sibling_code parent_id code exclude_id =
      raise_if
        (any
          (λ o.
            same_id o.parent_id (some parent_id) && (str_eq o.code code && kept_apart exclude_id o))
          t)
        conflict

  -- The number of employees anywhere below a node.
  pub count_employees_in_subtree : List Employee → ℕ → ℕ
  unfolding descendants_subquery
  count_employees_in_subtree employees node_id =
      length (select (λ e. member e.organization_id (descendants_subquery t node_id)) employees)

  -- A company root by its id.
  abbrev root_where : ℕ → Option Organization
  root_where n = elim (find_org n t) [
    | none ↦ none
    | some o ↦ if same_id o.parent_id none then some o else none
  ]

  pub get_organization : Bool → List ℕ → ℕ → Result Organization
  get_organization is_super_admin permitted_org_ids target_org_id = do
    raise_if (not is_super_admin && not (member target_org_id permitted_org_ids)) permission_denied
    or_raise (root_where target_org_id) not_found

  pub create_organization : Bool → ℕ → String → String → Result (Organization × List Organization)
  unfolding ensure_unique_root_code
  create_organization is_super_admin new_id name code = do
    raise_if (not is_super_admin) permission_denied
    ensure_unique_root_code code none
    let org : Organization = record {
      id = new_id;
      name = name;
      code = code;
      node_type = "company";
      parent_id = none;
      is_active = true;
    }
    ok (org, t ++ org ∷ [])

  pub delete_organization : List Employee → Bool → ℕ → Result (List Organization)
  unfolding count_employees_in_subtree
  delete_organization employees is_super_admin target_org_id = do
    raise_if (not is_super_admin) permission_denied
    org ← or_raise (root_where target_org_id) not_found
    raise_if (ltb 0 (length (descendant_ids t org.id false))) conflict
    raise_if (ltb 0 (count_employees_in_subtree employees org.id)) conflict
    ok (without org.id t)

  -- The scope test of a node: whether its company root is among the ids, if any are given.
  abbrev in_scope : Option (List ℕ) → ℕ → Result Bool
  in_scope none n = ok true
  in_scope (some ids) n = do root ← root_id_of t n; ok (member_of root ids)

  unfoldable pub get_node_in_tenant : Scope → ℕ → Result Organization
  get_node_in_tenant scope node_id = do
    node ← or_raise (find_org node_id t) not_found
    inside ← in_scope (as_scope_ids scope) node.id
    raise_if (not inside) not_found
    ok node

  pub create_node :
      Scope → ℕ → String → String → String → ℕ → Result (Organization × List Organization)
  unfolding get_node_in_tenant ensure_unique_sibling_code
  create_node scope new_id name code node_type parent_id = do
    parent ← get_node_in_tenant scope parent_id
    ensure_unique_sibling_code parent.id code none
    let node : Organization = record {
      id = new_id;
      name = name;
      code = code;
      node_type = node_type;
      parent_id = some parent.id;
      is_active = true;
    }
    ok (node, t ++ node ∷ [])

  -- The guards and the write of a move to another parent.
  abbrev move_under : Organization → Organization → Result (Organization × List Organization)
  move_under node new_parent = do
    raise_if (member new_parent.id (descendant_ids t node.id true)) validation
    ensure_unique_sibling_code new_parent.id node.code (some node.id)
    ok (record node { parent_id = some new_parent.id }, reparent node.id new_parent.id t)

  unfoldable pub move_node : Scope → ℕ → ℕ → Result (Organization × List Organization)
  unfolding get_node_in_tenant ensure_unique_sibling_code
  move_node scope node_id new_parent_id = do
    node ← get_node_in_tenant scope node_id
    raise_if (not (is_some node.parent_id)) validation
    new_parent ← get_node_in_tenant scope new_parent_id
    node_root ← root_id_of t node.id
    new_root ← root_id_of t new_parent.id
    raise_if (not (same_id new_root node_root)) validation
    if same_id (some new_parent.id) node.parent_id then ok (node, t) else move_under node new_parent

  pub delete_node : List Employee → Scope → ℕ → Result (List Organization)
  unfolding get_node_in_tenant
  delete_node employees scope node_id = do
    node ← get_node_in_tenant scope node_id
    raise_if (not (is_some node.parent_id)) validation
    raise_if (ltb 0 (length (select (λ o. same_id o.parent_id (some node.id)) t))) conflict
    raise_if (ltb 0 (length (select (λ e. e.organization_id == node.id) employees))) conflict
    ok (without node.id t)
