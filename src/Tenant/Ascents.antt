-- ===== src/Tenant/Ascents.antt =====
-- Climbs through `parent_id`, and what the recursive queries have to do with them.
use attendance.Prelude.{
  ℕ, zero, suc, ◌≤◌, ◌≡◌, refl, Bool, true, false, none, some, List, [], ◌∷◌, ◌++◌, ◌==◌, ◌||◌,
  member, same_id, select, any, flat_map, map, arith, Bool-cases, inl, inr, ==_iff, ap, ◌∙◌, sym,
}
use mathlib.Core.Path.{subst}
use mathlib.Core.Option.{some-injective}
use attendance.Tenant.{
  Organization, max_tree_depth, find_org, walk, children_of, descendants_subquery, descendant_ids,
}

abbrev pub has_org_id : ℕ → Organization → Bool
has_org_id n o = o.id == n

-- The primary key of `organizations`.
abbrev pub HasUniqueIds : List Organization → Type 0
HasUniqueIds [] = Unit
HasUniqueIds (o ∷ os) = (any (has_org_id o.id) os ≡ false) × HasUniqueIds os

-- `k` links up from the node `a` stands the node `b`.
pub data Ascent (t : List Organization) (a : ℕ) : ℕ → ℕ → Type 0 where
  here : Ascent t a zero a
  up :
      {k c p : ℕ} {o : Organization}
      → Ascent t a k c
      → find_org c t ≡ some o
      → o.parent_id ≡ some p
      → Ascent t a (suc k) p

-- The company root of the node `n` is `r`.
pub data Rooted (t : List Organization) (r : ℕ) : ℕ → Type 0 where
  root :
      {n : ℕ} {o : Organization} → find_org n t ≡ some o → o.parent_id ≡ none → n ≡ r → Rooted t r n
  link :
      {n p : ℕ} {o : Organization}
      → find_org n t ≡ some o
      → o.parent_id ≡ some p
      → Rooted t r p
      → Rooted t r n

or-true : (b : Bool) → (b || true) ≡ true
or-true true = refl
or-true false = refl

module _ (t : List Organization) where
  find-any :
      (n : ℕ) {o : Organization} (xs : List Organization) (q : Organization → Bool)
      → find_org n xs ≡ some o
      → q o ≡ true
      → any (has_org_id n) (select q xs) ≡ true
  find-any n [] q f e = cc
  find-any n {o} (x ∷ xs) q f e = elim (Bool-cases (x.id == n)) [
    | inl same ↦
        let passes : q x ≡ true =
          subst (λ y. q y ≡ true) (sym (some-injective _ _ (rw same at (f)))) e in
        rw passes (rw same refl)
    | inr other ↦
        let later = find-any n xs q (rw other at (f)) e in
        elim (Bool-cases (q x)) [ inl p ↦ rw p (rw other later) | inr p ↦ rw p later ]
  ]

  find_org-id :
      (n : ℕ) (xs : List Organization) {o : Organization}
      → find_org n xs ≡ some o
      → (o.id == n) ≡ true
  find_org-id n [] f = cc
  find_org-id n (x ∷ xs) {o} f = elim (Bool-cases (x.id == n)) [
    | inl same ↦ subst (λ y. (y.id == n) ≡ true) (some-injective _ _ (rw same at (f))) same
    | inr other ↦ find_org-id n xs (rw other at (f))
  ]

  member-map :
      (n : ℕ) (xs : List Organization)
      → any (has_org_id n) xs ≡ true
      → member n (map (λ o. o.id) xs) ≡ true
  member-map n [] h = h
  member-map n (x ∷ xs) h = elim (Bool-cases (x.id == n)) [
    | inl same ↦ rw same refl
    | inr other ↦ rw other (member-map n xs (rw other at (h)))
  ]

  -- A row of the level has the id.
  abbrev InLevel : ℕ → List Organization → Type 0
  InLevel n level = any (has_org_id n) level ≡ true

  any-append :
      (p : Organization → Bool) (xs ys : List Organization)
      → any p (xs ++ ys) ≡ any p xs || any p ys
  any-append p [] ys = refl
  any-append p (x ∷ xs) ys = ground (arith, any-append p xs ys)

  children-InLevel :
      (c p : ℕ) {o : Organization} (level : List Organization)
      → find_org c t ≡ some o
      → o.parent_id ≡ some p
      → InLevel p level
      → InLevel c (flat_map (children_of t) level)
  children-InLevel c p [] f e h = cc
  children-InLevel c p {o} (x ∷ xs) f e h = rw any-append (elim (Bool-cases (x.id == p)) [
    | inl same ↦
        let child : same_id o.parent_id (some x.id) ≡ true =
          ap (λ q. same_id q (some x.id)) e ∙ (==_iff p x.id).1 (sym ((==_iff x.id p).0 same)) in
        rw (find-any c t (λ y. same_id y.parent_id (some x.id)) f child) refl
    | inr other ↦ rw (children-InLevel c p xs f e (rw other at (h))) (or-true _)
  ])

  walk-InLevel :
      (n : ℕ) (join : Organization → List Organization) (c : ℕ) (level : List Organization)
      → InLevel c level
      → InLevel c (walk join n level)
  walk-InLevel zero join c level h = h
  walk-InLevel (suc n) join c level h = rw any-append (rw h)

  -- Whatever stands at most `n` links below a row of the level is among the rows of `n` rounds.
  Ascent-InLevel :
      {a k b : ℕ} (n : ℕ) (level : List Organization)
      → Ascent t a k b
      → k ≤ n
      → InLevel b level
      → InLevel a (walk (children_of t) n level)
  Ascent-InLevel n level here le h = walk-InLevel n (children_of t) _ level h
  Ascent-InLevel zero level (up {k} {c} {p} {o} s f e) le h = absurd (omega arith)
  Ascent-InLevel (suc n) level (up {k} {c} {p} {o} s f e) le h = rw any-append (
      rw
        (Ascent-InLevel n (flat_map (children_of t) level) s (omega arith)
          (children-InLevel c p level f e h))
        (or-true _))

  InLevel-self :
      (n : ℕ) (xs : List Organization) {o : Organization}
      → find_org n xs ≡ some o
      → InLevel n (select (λ x. x.id == n) xs)
  InLevel-self n xs {o} f = find-any n xs (λ x. x.id == n) f (find_org-id n xs f)

  -- Every node from which at most the depth cap of links lead up to an existing node is among
  -- that node's descendants.
  pub descendant_ids-Ascent :
      {a k n : ℕ} {o : Organization}
      → find_org n t ≡ some o
      → Ascent t a k n
      → k ≤ max_tree_depth
      → member a (descendant_ids t n true) ≡ true
  unfolding descendant_ids descendants_subquery
  descendant_ids-Ascent {a} {k} {n} f s le =
      member-map a (walk (children_of t) max_tree_depth (select (λ x. x.id == n) t))
        (Ascent-InLevel max_tree_depth (select (λ x. x.id == n) t) s le (InLevel-self n t f))
