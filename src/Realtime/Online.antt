-- ===== src/Realtime/Online.antt =====
-- When a user is announced online, and what the counters say afterwards.
use attendance.Prelude.{
  ℕ, suc, false, List, [], ◌∷◌, ◌==◌, if◌then◌else◌, select, member, ◌≡◌, refl, ap, ◌∙◌, arith,
  Bool-cases, inl, inr,
}
use attendance.Realtime.{Presence, get_count, set_count, presence_connect}

-- A set of company roots, in the order of its iteration.
abbrev pub IsDistinct : List ℕ → Type 0
IsDistinct [] = Unit
IsDistinct (o ∷ os) = (member o os ≡ false) × IsDistinct os

get_count-set_count_other :
    (org o user n : ℕ) (ps : List Presence)
    → (o == org) ≡ false
    → get_count o user (set_count org user n ps) ≡ get_count o user ps
get_count-set_count_other org o user n [] h = ground arith
get_count-set_count_other org o user n (p ∷ ps) h =
    ground (arith, get_count-set_count_other org o user n ps h)

select-is_new :
    (org user n : ℕ) (counts : List Presence) (orgs : List ℕ)
    → member org orgs ≡ false
    → select (λ o. get_count o user (set_count org user n counts) == 0) orgs
      ≡ select (λ o. get_count o user counts == 0) orgs
select-is_new org user n counts [] h = refl
select-is_new org user n counts (o ∷ os) h = elim (Bool-cases (o == org)) [
  | inl same ↦ absurd (ground arith)
  | inr other ↦ rw (get_count-set_count_other org o user n counts other) (
      ap (λ rest. if get_count o user counts == 0 then o ∷ rest else rest)
        (select-is_new org user n counts os (rw other at (h))))
]

first_socket :
    (n org : ℕ) (xs : List ℕ)
    → (if suc n == 1 then org ∷ xs else xs) ≡ (if n == 0 then org ∷ xs else xs)
first_socket n org xs = ground arith

-- Where the company roots are distinct, a user who connects is announced online for exactly the
-- roots where the user had no live socket before, in their order.
pub presence_connect-became :
    (user : ℕ) (orgs : List ℕ) (counts : List Presence)
    → IsDistinct orgs
    → (presence_connect user orgs counts).0 ≡ select (λ o. get_count o user counts == 0) orgs
unfolding presence_connect
presence_connect-became user [] counts d = refl
presence_connect-became user (org ∷ orgs) counts d =
    let counts' = set_count org user (suc (get_count org user counts)) counts in
    ap (λ xs. if suc (get_count org user counts) == 1 then org ∷ xs else xs)
      (presence_connect-became user orgs counts' d.1
        ∙ select-is_new org user (suc (get_count org user counts)) counts orgs d.0)
    ∙ first_socket (get_count org user counts) org _
