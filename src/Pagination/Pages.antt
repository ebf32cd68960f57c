-- ===== src/Pagination/Pages.antt =====
-- The pages of a listing, one after the other.
use attendance.Prelude.{
  ℕ, zero, suc, ◌+◌, ◌-◌, ◌*◌, ◌≤◌, ◌<◌, ◌≡◌, refl, sym, ap, ◌∙◌, List, [], ◌∷◌, ◌++◌, length, take,
  drop, arith, max,
}
use native.Mathlib.Nat.{mul-le-mul_right, lt-div-mul-add, suc-mul}
use attendance.Pagination.{ceil_div, paginate}

-- The pages that are counted hold the total.
enough : (total per_page : ℕ) → 1 ≤ per_page → total ≤ max 1 (ceil_div total per_page) * per_page
enough total per_page h =
    let q = ceil_div total per_page in
    let grown : q * per_page ≤ max 1 q * per_page = mul-le-mul_right per_page (omega arith) in
    omega (arith, lt-div-mul-add {a = total + (per_page - 1)} {b = per_page} h, grown)

module _ {ℓ} {A : Type ℓ} where
  take_long : (n : ℕ) (xs : List A) → length xs ≤ n → take n xs ≡ xs
  take_long zero [] h = refl
  take_long zero (x ∷ xs) h = ground arith
  take_long (suc n) [] h = refl
  take_long (suc n) (x ∷ xs) h = ap (λ l. x ∷ l) (take_long n xs (omega arith))

  drop_long : (n : ℕ) (xs : List A) → length xs ≤ n → drop n xs ≡ []
  drop_long zero [] h = refl
  drop_long zero (x ∷ xs) h = ground arith
  drop_long (suc n) [] h = refl
  drop_long (suc n) (x ∷ xs) h = drop_long n xs (omega arith)

  take_nil : (n : ℕ) → take {A = A} n [] ≡ []
  take_nil zero = refl
  take_nil (suc n) = refl

  take_more : (a b : ℕ) (xs : List A) → take (a + b) xs ≡ take a xs ++ take b (drop a xs)
  take_more zero b xs = let same : 0 + b ≡ b = omega arith in ap (λ n. take n xs) same
  take_more (suc a) b [] = take_nil (suc a + b) ∙ sym (take_nil b)
  take_more (suc a) b (x ∷ xs) =
      let shifted : suc a + b ≡ suc (a + b) = omega arith in
      ap (λ n. take n (x ∷ xs)) shifted ∙ ap (λ l. x ∷ l) (take_more a b xs)

  -- The first pages, up to one.
  abbrev pub pages_up_to : List A → ℕ → ℕ → List A
  unfolding paginate
  pages_up_to rows zero per_page = []
  pages_up_to rows (suc n) per_page =
      pages_up_to rows n per_page ++ (paginate rows (suc n) per_page).rows

  pages_up_to-take :
      (rows : List A) (n per_page : ℕ) → pages_up_to rows n per_page ≡ take (n * per_page) rows
  unfolding paginate
  pages_up_to-take rows zero per_page =
      let same : 0 ≡ 0 * per_page = omega arith in ap (λ m. take m rows) same
  pages_up_to-take rows (suc n) per_page =
      let back : suc n - 1 ≡ n = omega arith in
      let next : n * per_page + per_page ≡ suc n * per_page = sym (suc-mul n per_page) in
      ap (λ l. l ++ take per_page (drop ((suc n - 1) * per_page) rows))
        (pages_up_to-take rows n per_page)
      ∙ ap (λ m. take (n * per_page) rows ++ take per_page (drop (m * per_page) rows)) back
      ∙ sym (take_more (n * per_page) per_page rows)
      ∙ ap (λ m. take m rows) next

  -- With at least one row a page, the pages of a listing up to the last page that any of them
  -- names are together all its rows, in order and each once, and every later page is empty.
  pub pages_whole :
      (rows : List A) (page per_page : ℕ)
      → 1 ≤ per_page
      → (pages_up_to rows (paginate rows page per_page).last_page per_page ≡ rows)
        × ((later : ℕ)
            → (paginate rows page per_page).last_page < later
            → (paginate rows later per_page).rows ≡ [])
  unfolding paginate
  pages_whole rows page per_page h =
      let last = max 1 (ceil_div (length rows) per_page) in
      (
        pages_up_to-take rows last per_page
            ∙ take_long (last * per_page) rows (enough (length rows) per_page h),
        λ later past.
            let behind : last * per_page ≤ (later - 1) * per_page =
              mul-le-mul_right per_page (omega arith) in
            ap (take per_page) (
              drop_long ((later - 1) * per_page) rows
                (omega (arith, enough (length rows) per_page h, behind)))
            ∙ take_nil per_page,
      )
