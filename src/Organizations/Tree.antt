-- ===== src/Organizations/Tree.antt =====
-- The shape of the tree under the operations: every node keeps its company root, so no cycle ever
-- arises and no node changes company.
use attendance.Prelude.{
  ℕ, ◌≤◌, ◌≡◌, ◌≢◌, refl, Bool, true, false, Option, none, some, List, [], ◌∷◌, not, is_some, ◌==◌,
  if◌then◌else◌, same_id, member, Bool-cases, inl, inr, ==_iff, ap, ◌∙◌, sym, arith, ◌⊎◌,
}
use mathlib.Core.Path.{subst}
use native.Mathlib.Decide.{ℕ_discrete}
use mathlib.Core.Option
use mathlib.Core.Option.{some-injective}
use attendance.Prelude.Errors.{ok, >>=-eq-ok, raise_if-eq-ok, or_raise-eq-ok, ok-injective}
use attendance.Tenant.{Organization, Scope, max_tree_depth, find_org, descendant_ids, root_id_of}
use attendance.Tenant.Ascents.{
  HasUniqueIds, Ascent, here, up, Rooted, root, link, descendant_ids-Ascent,
}
use attendance.Tenant.Roots.{rows_found, root_id_of-Ascent}
use attendance.Organizations.{
  get_node_in_tenant, reparent, move_under, move_node, validation, or_raise, not_found, in_scope,
  as_scope_ids, ensure_unique_sibling_code,
}

none≢some : {n : ℕ} → none ≡ some n → ⊥
none≢some h = cc

false≢true : false ≡ true → ⊥
false≢true h = cc

module _ (n p : ℕ) where
  abbrev moved : Organization → Organization
  moved o = if o.id == n then record o { parent_id = some p } else o

  id-moved : (o : Organization) (m : ℕ) → ((moved o).id == m) ≡ (o.id == m)
  id-moved o m = elim (Bool-cases (o.id == n)) [
    | inl same ↦ rw same refl
    | inr other ↦ rw other refl
  ]

  find_org-reparent :
      (m : ℕ) (t : List Organization)
      → find_org m (reparent n p t) ≡ Option.map moved (find_org m t)
  find_org-reparent m [] = refl
  find_org-reparent m (o ∷ os) =
      rw (id-moved o m, find_org-reparent m os)
        (elim (Bool-cases (o.id == m)) [ inl same ↦ rw same refl | inr other ↦ rw other refl ])

module _ (t : List Organization) where
  find_org-id :
      (m : ℕ) (xs : List Organization) {o : Organization} → find_org m xs ≡ some o → o.id ≡ m
  find_org-id m [] f = cc
  find_org-id m (x ∷ xs) {o} f = elim (Bool-cases (x.id == m)) [
    | inl same ↦
        subst (λ y. y.id ≡ m) (some-injective _ _ (rw same at (f))) ((==_iff x.id m).0 same)
    | inr other ↦ find_org-id m xs (rw other at (f))
  ]

  find_org-parent :
      (c : ℕ) {o o' : Organization}
      → find_org c t ≡ some o
      → find_org c t ≡ some o'
      → o.parent_id ≡ o'.parent_id
  find_org-parent c f g = ap (λ x. x.parent_id) (some-injective _ _ (sym f ∙ g))

  Rooted-link :
      {s c p : ℕ} {o : Organization}
      → Rooted t s c
      → find_org c t ≡ some o
      → o.parent_id ≡ some p
      → Rooted t s p
  Rooted-link (root g d i) f e = absurd (none≢some (sym d ∙ find_org-parent _ g f ∙ e))
  Rooted-link {s} (link g d r) f e =
      subst (λ z. Rooted t s z) (some-injective _ _ (sym d ∙ find_org-parent _ g f ∙ e)) r

  -- The root above a node is the root above each node on the way to it.
  Rooted-Ascent : {s a k c : ℕ} → Rooted t s a → Ascent t a k c → Rooted t s c
  Rooted-Ascent r here = r
  Rooted-Ascent r (up a f e) = Rooted-link (Rooted-Ascent r a) f e

  Rooted-root :
      {s r : ℕ} {o : Organization}
      → Rooted t s r
      → find_org r t ≡ some o
      → o.parent_id ≡ none
      → r ≡ s
  Rooted-root (root g d i) f e = i
  Rooted-root (link g d r) f e = absurd (none≢some (sym e ∙ find_org-parent _ f g ∙ d))

-- A move of `n` under `p`, with what the guards of the code have found.
module _ (t : List Organization) (n p r : ℕ) {o : Organization} {q : ℕ} (unique : HasUniqueIds t)
    (node : find_org n t ≡ some o) (inner : o.parent_id ≡ some q)
    (node_root : root_id_of t n ≡ ok (some r)) (new_root : root_id_of t p ≡ ok (some r))
    (apart : member p (descendant_ids t n true) ≡ false) where
  -- A row that is not the moved one is found as before.
  kept :
      (c : ℕ) {x : Organization}
      → find_org c t ≡ some x
      → c ≢ n
      → find_org c (reparent n p t) ≡ some x
  kept c {x} f ne =
      find_org-reparent n p c t
      ∙ ap (Option.map (moved n p)) f
      ∙ ap some (unmoved x (λ e. ne (sym (find_org-id t c t f) ∙ e)))
    where
      unmoved : (y : Organization) → y.id ≢ n → moved n p y ≡ y
      unmoved y h = ground arith

  -- The moved node is not above its new parent.
  climbs_apart : {k c : ℕ} → Ascent t p k c → k ≤ max_tree_depth → c ≢ n
  climbs_apart {k} a le e =
      false≢true (sym apart ∙ descendant_ids-Ascent t node (subst (λ z. Ascent t p k z) e a) le)

  -- So the way up from the new parent is as it was.
  Rooted-climb :
      {s k c : ℕ}
      → Ascent t p k c
      → k ≤ max_tree_depth
      → Rooted (reparent n p t) s c
      → Rooted (reparent n p t) s p
  Rooted-climb here le h = h
  Rooted-climb (up {c = c} a f e) le h =
      Rooted-climb a (omega arith) (link (kept c f (climbs_apart a (omega arith))) e h)

  Rooted-new_parent : Rooted (reparent n p t) r p
  Rooted-new_parent =
      let (k, x, le, a, f, e) = root_id_of-Ascent t p (rows_found t unique) new_root in
      Rooted-climb a le (root (kept r f (climbs_apart a le)) e refl)

  found_moved : find_org n (reparent n p t) ≡ some (record o { parent_id = some p })
  found_moved =
      find_org-reparent n p n t
      ∙ ap (Option.map (moved n p)) node
      ∙ ap some (here' o (find_org-id t n t node))
    where
      here' : (y : Organization) → y.id ≡ n → moved n p y ≡ record y { parent_id = some p }
      here' y h = ground arith

  Rooted-moved : Rooted (reparent n p t) r n
  Rooted-moved = link found_moved refl Rooted-new_parent

  same_root : {s : ℕ} → Rooted t s n → r ≡ s
  same_root h =
      let (k, x, le, a, f, e) = root_id_of-Ascent t n (rows_found t unique) node_root in
      Rooted-root t (Rooted-Ascent t h a) f e

  to_moved : {s y : ℕ} → y ≡ n → Rooted t s y → Rooted (reparent n p t) s y
  to_moved {s} {y} e h =
      subst (λ z. Rooted (reparent n p t) s z) (sym e)
        (subst (λ z. Rooted (reparent n p t) z n) (same_root (subst (λ z. Rooted t s z) e h))
          Rooted-moved)

  pub Rooted-reparent : {s y : ℕ} → Rooted t s y → Rooted (reparent n p t) s y
  Rooted-reparent {s} {y} (root f e i) = elim (ℕ_discrete y n) [
    | yes same ↦ to_moved same (root f e i)
    | no other ↦ root (kept y f other) e i
  ]
  Rooted-reparent {s} {y} (link f e h) = elim (ℕ_discrete y n) [
    | yes same ↦ to_moved same (link f e h)
    | no other ↦ link (kept y f other) e (Rooted-reparent h)
  ]

get_node_in_tenant-find :
    (t : List Organization) (scope : Scope) (n : ℕ) {node : Organization}
    → get_node_in_tenant t scope n ≡ ok node
    → find_org n t ≡ some node
unfolding get_node_in_tenant
get_node_in_tenant-find t scope n h =
    let (x, f, k) = >>=-eq-ok (or_raise (find_org n t) not_found) _ h in
    let (b, _, g) = >>=-eq-ok (in_scope t (as_scope_ids scope) x.id) _ k in
    or_raise-eq-ok (find_org n t) not_found f
    ∙ ap some (ok-injective (raise_if-eq-ok (not b) not_found _ g).1)

same_id-eq : (o o' : Option ℕ) → same_id o o' ≡ true → o ≡ o'
same_id-eq none none h = refl
same_id-eq none (some m) h = cc
same_id-eq (some n) none h = cc
same_id-eq (some n) (some m) h = ap some ((==_iff n m).0 h)

-- A guard `if not b` that was passed.
not-passed : (b : Bool) → not b ≡ false → b ≡ true
not-passed true h = refl
not-passed false h = cc

is_some-value : (o : Option ℕ) → is_some o ≡ true → (q : ℕ) × (o ≡ some q)
is_some-value none h = cc
is_some-value (some q) h = (q, refl)

-- What a move that goes through has checked.
abbrev Checked : List Organization → ℕ → ℕ → Organization → Organization → Type 0
Checked t n p x z =
    (a : Option ℕ) × (find_org n t ≡ some x)
    × (find_org p t ≡ some z)
    × (is_some x.parent_id ≡ true)
    × (root_id_of t x.id ≡ ok a)
    × (root_id_of t z.id ≡ ok a)

move_node-Checked :
    (t t' : List Organization) (scope : Scope) (n p : ℕ) (node : Organization)
    → move_node t scope n p ≡ ok (node, t')
    → (x : Organization) × (z : Organization) × Checked t n p x z
      × ((if same_id (some z.id) x.parent_id then ok (x, t) else move_under t x z) ≡ ok (node, t'))
unfolding move_node
move_node-Checked t t' scope n p node h =
    let (x, get, h1) = >>=-eq-ok (get_node_in_tenant t scope n) _ h in
    let (inner, h2) = raise_if-eq-ok (not (is_some x.parent_id)) validation _ h1 in
    let (z, get', h3) = >>=-eq-ok (get_node_in_tenant t scope p) _ h2 in
    let (a, ra, h4) = >>=-eq-ok (root_id_of t x.id) _ h3 in
    let (b, rb, h5) = >>=-eq-ok (root_id_of t z.id) _ h4 in
    let (same, h6) = raise_if-eq-ok (not (same_id b a)) validation _ h5 in
    (
      x,
      z,
      (
        a,
        get_node_in_tenant-find t scope n get,
        get_node_in_tenant-find t scope p get',
        not-passed _ inner,
        ra,
        subst (λ y. root_id_of t z.id ≡ ok y) (same_id-eq b a (not-passed _ same)) rb,
      ),
      h6,
    )

move_under-Moved :
    (t t' : List Organization) (x z node : Organization)
    → move_under t x z ≡ ok (node, t')
    → (member z.id (descendant_ids t x.id true) ≡ false) × (reparent x.id z.id t ≡ t')
move_under-Moved t t' x z node h =
    let (apart, h1) = raise_if-eq-ok (member z.id (descendant_ids t x.id true)) validation _ h in
    let (_, _, h2) = >>=-eq-ok (ensure_unique_sibling_code t z.id x.code (some x.id)) _ h1 in
    (apart, ap (λ w. w.1) (ok-injective h2))

-- The last step of a move, by its test.
move_end :
    (b : Bool) (t t' : List Organization) (x z node : Organization)
    → (if b then ok (x, t) else move_under t x z) ≡ ok (node, t')
    → (t ≡ t') ⊎ ((member z.id (descendant_ids t x.id true) ≡ false) × (reparent x.id z.id t ≡ t'))
move_end true t t' x z node h = inl (ap (λ w. w.1) (ok-injective h))
move_end false t t' x z node h = inr (move_under-Moved t t' x z node h)

-- Where organization ids are unique and the moved node has a company root within the depth cap, a
-- move that goes through, whatever the scope of the caller, leaves every node that had a company
-- root under that same root: it makes no cycle there, cuts no node off and moves none to another
-- company.
pub move_node-Rooted :
    (t t' : List Organization) (scope : Scope) (node_id new_parent_id r : ℕ) (node : Organization)
    → HasUniqueIds t
    → root_id_of t node_id ≡ ok (some r)
    → move_node t scope node_id new_parent_id ≡ ok (node, t')
    → (s y : ℕ) → Rooted t s y
    → Rooted t' s y
move_node-Rooted t t' scope n p r node unique has_root h s y rooted =
    let (x, z, (a, f, g, inner, ra, rb), last) = move_node-Checked t t' scope n p node h in
    let x_id = find_org-id t n t f in
    let z_id = find_org-id t p t g in
    let same : a ≡ some r = ok-injective (sym ra ∙ ap (root_id_of t) x_id ∙ has_root) in
    let new_root : root_id_of t p ≡ ok (some r) = ap (root_id_of t) (sym z_id) ∙ rb ∙ ap ok same in
    let (q, parent) = is_some-value x.parent_id inner in
    elim (move_end (same_id (some z.id) x.parent_id) t t' x z node last) [
      | inl e ↦ subst (λ u. Rooted u s y) e rooted
      | inr (apart, e) ↦
          subst (λ u. Rooted u s y) ((λ i. reparent (sym x_id i) (sym z_id i) t) ∙ e)
            (Rooted-reparent t n p r unique f parent has_root new_root
              (subst (λ k. member k (descendant_ids t n true) ≡ false) z_id
                (subst (λ k. member z.id (descendant_ids t k true) ≡ false) x_id apart))
              rooted)
    ]
