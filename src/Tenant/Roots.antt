-- ===== src/Tenant/Roots.antt =====
-- What `root_id_of` finds: the one root above a node, at most `max_tree_depth` links up.
use attendance.Prelude.{
  ℕ, zero, suc, ◌+◌, ◌≤◌, ◌≡◌, refl, true, false, Option, none, some, List, [], ◌∷◌, ◌==◌, same_id,
  select, any, All, flat_map, map, arith, ==_iff, ap, sym, All-append, All-select, All-map,
  All-flat_map,
}
use mathlib.Core.Path.{subst}
use attendance.Prelude.Errors.{ok, scalar_one_or_none}
use attendance.Tenant.{
  Organization, max_tree_depth, find_org, walk, parents_of, ascending, is_root, root_id_of,
}
use attendance.Tenant.Ascents.{HasUniqueIds, has_org_id, Ascent, here, up}

found-cons :
    (x : Organization) (xs ys : List Organization)
    → any (has_org_id x.id) ys ≡ false
    → All (λ o. find_org o.id xs ≡ some o) ys
    → All (λ o. find_org o.id (x ∷ xs) ≡ some o) ys
found-cons x xs [] u h = tt
found-cons x xs (y ∷ ys) u h = (ground arith, found-cons x xs ys (ground arith) h.1)

-- With unique ids every row is found by its id.
pub rows_found : (t : List Organization) → HasUniqueIds t → All (λ o. find_org o.id t ≡ some o) t
rows_found [] u = tt
rows_found (x ∷ xs) u = (ground arith, found-cons x xs xs u.0 (rows_found xs u.1))

same_id-some : (n : ℕ) (o : Option ℕ) → same_id (some n) o ≡ true → o ≡ some n
same_id-some n none h = cc
same_id-some n (some m) h = ap some (sym ((==_iff n m).0 h))

same_id-none : (o : Option ℕ) → same_id o none ≡ true → o ≡ none
same_id-none none h = refl
same_id-none (some m) h = cc

-- The one row of a list whose ids are one id.
only :
    {P : Organization → Type 0} {r : ℕ} (l : List Organization)
    → All P l
    → scalar_one_or_none (map (λ o. o.id) l) ≡ ok (some r)
    → (o : Organization) × P o × (o.id ≡ r)
only [] h e = cc
only (x ∷ []) h e = (x, h.0, ground arith)
only (x ∷ y ∷ l) h e = cc

module _ (t : List Organization) (a : ℕ) (found : All (λ o. find_org o.id t ≡ some o) t) where
  -- The row stands `d` links above `a`.
  abbrev AtHeight : ℕ → Organization → Type 0
  AtHeight d o = Ascent t a d o.id × (find_org o.id t ≡ some o)

  abbrev Within : ℕ → Organization → Type 0
  Within n o = (k : ℕ) × (k ≤ n) × AtHeight k o

  parents-AtHeight :
      (d : ℕ) (o : Organization) → AtHeight d o → All (AtHeight (suc d)) (parents_of t o)
  parents-AtHeight d o h =
      All-select (λ p. find_org p.id t ≡ some p) (AtHeight (suc d))
        (λ p. same_id (some p.id) o.parent_id) t
        (λ p e f. (up h.0 h.1 (same_id-some p.id o.parent_id e), f)) found

  walk-Within :
      (n d : ℕ) (level : List Organization)
      → All (AtHeight d) level
      → All (Within (d + n)) (walk (parents_of t) n level)
  walk-Within zero d level h =
      All-map (AtHeight d) (Within (d + zero)) level (λ o k. (d, omega arith, k)) h
  walk-Within (suc n) d level h =
      All-append (Within (d + suc n)) level (walk (parents_of t) n (flat_map (parents_of t) level))
        (All-map (AtHeight d) (Within (d + suc n)) level (λ o k. (d, omega arith, k)) h)
        (All-map (Within (suc d + n)) (Within (d + suc n))
          (walk (parents_of t) n (flat_map (parents_of t) level))
          (λ o (k, le, x). (k, omega arith, x))
          (walk-Within n (suc d) (flat_map (parents_of t) level) (
            All-flat_map (AtHeight (suc d)) (parents_of t) level (
              All-map (AtHeight d) (λ o. All (AtHeight (suc d)) (parents_of t o)) level
                (parents-AtHeight d) h))))

  ascending-Within : All (Within max_tree_depth) (ascending t a)
  unfolding ascending
  ascending-Within = walk-Within max_tree_depth zero (select (λ o. o.id == a) t) (
      All-select (λ o. find_org o.id t ≡ some o) (AtHeight zero) (λ o. o.id == a) t
        (λ o e f. (subst (λ n. Ascent t a zero n) (sym ((==_iff o.id a).0 e)) here, f)) found)

  -- Where every row is found by its id, a root that `root_id_of` answers is a row without a
  -- parent that stands at most the depth cap above the node.
  pub root_id_of-Ascent :
      {r : ℕ}
      → root_id_of t a ≡ ok (some r)
      → (k : ℕ) × (o : Organization) × (k ≤ max_tree_depth)
        × Ascent t a k r
        × (find_org r t ≡ some o)
        × (o.parent_id ≡ none)
  unfolding root_id_of
  root_id_of-Ascent {r} e =
      let (o, (p, (k, le, (s, f))), i) =
        only (select (is_root t) (ascending t a))
          (All-select (Within max_tree_depth) (λ o. (o.parent_id ≡ none) × Within max_tree_depth o)
            (is_root t) (ascending t a) (λ o e w. (same_id-none o.parent_id e, w)) ascending-Within)
          e in
      (k, o, le, subst (λ n. Ascent t a k n) i s, subst (λ n. find_org n t ≡ some o) i f, p)
