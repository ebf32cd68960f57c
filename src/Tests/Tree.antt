-- ===== src/Tests/Tree.antt =====
-- A move in a small tree.
use attendance.Prelude.{ℕ, ◌≤◌, ◌≡◌, refl, true, Option, none, some, member, arith, All}
use attendance.Prelude.Errors.{ok}
use attendance.Tenant.{
  Organization, max_tree_depth, everything, find_org, root_id_of, descendant_ids, ascending,
  descendants_subquery,
}
use attendance.Tenant.Ascents.{Ascent, here, up, Rooted, root, link, descendant_ids-Ascent}
use attendance.Tenant.Roots.{root_id_of-Ascent}
use attendance.Tenant.Single.{root_id_of_total}
use attendance.Organizations.{reparent, move_node, get_node_in_tenant, ensure_unique_sibling_code}
use attendance.Organizations.Tree.{move_node-Rooted}
use attendance.Tests.Data.{company, branch, team, organizations}
use attendance.Tests.Ledger.{organizations-HasUniqueIds}

team-Ascent : Ascent organizations 3 1 2
team-Ascent = up {o = team} here refl refl

descendant_ids-Ascent_example : member 3 (descendant_ids organizations 2 true) ≡ true
descendant_ids-Ascent_example =
    descendant_ids-Ascent organizations {o = branch} refl team-Ascent (omega arith)

team-root : root_id_of organizations 3 ≡ ok (some 1)
unfolding root_id_of ascending
team-root = refl

root_id_of-Ascent_example :
    (k : ℕ) × (o : Organization) × (k ≤ max_tree_depth)
    × Ascent organizations 3 k 1
    × (find_org 1 organizations ≡ some o)
    × (o.parent_id ≡ none)
root_id_of-Ascent_example = root_id_of-Ascent organizations 3 organizations-found team-root
  where
    organizations-found : All (λ o. find_org o.id organizations ≡ some o) organizations
    organizations-found = (refl, (refl, (refl, tt)))

root_id_of_total_example : (o : Option ℕ) × (root_id_of organizations 3 ≡ ok o)
root_id_of_total_example = root_id_of_total organizations organizations-HasUniqueIds 3

move_team :
    move_node organizations everything 3 1
    ≡ ok (record team { parent_id = some 1 }, reparent 3 1 organizations)
unfolding move_node get_node_in_tenant ensure_unique_sibling_code root_id_of ascending
    descendant_ids descendants_subquery
move_team = refl

move_node-Rooted_example : Rooted (reparent 3 1 organizations) 1 3
move_node-Rooted_example =
    move_node-Rooted organizations (reparent 3 1 organizations) everything 3 1 1
      (record team { parent_id = some 1 }) organizations-HasUniqueIds team-root move_team 1 3
      (link {o = team} refl refl (link {o = branch} refl refl (root {o = company} refl refl refl)))
