-- ===== src/Pagination.antt =====
-- Pages of a listing: backend/app/core/pagination.py.
pub mod Pages
use attendance.Prelude.{
  ℕ, suc, ◌+◌, ◌-◌, ◌*◌, ◌/◌, ◌≤◌, List, Bool, leb, ◌&&◌, length, take, drop, max,
}

module _ {ℓ} (A : Type ℓ) where
  pub record PaginatedResponse : Type ℓ where
    pub rows : List A
    pub current_page : ℕ
    pub last_page : ℕ
    pub per_page : ℕ
    pub total : ℕ

-- The bounds that the query parameters are held to.
abbrev pub are_params : ℕ → ℕ → Bool
are_params page per_page = leb 1 page && (leb 1 per_page && leb per_page 100)

-- `math.ceil(total / per_page)`. The quotient of a float is exact enough while the total is below
-- 2 ^ 46, since a remainder leaves at least a hundredth.
abbrev pub ceil_div : ℕ → ℕ → ℕ
ceil_div total per_page = (total + (per_page - 1)) / per_page

module _ {ℓ} {A : Type ℓ} where
  -- The rows of the statement, in its order.
  unfoldable pub paginate : List A → ℕ → ℕ → PaginatedResponse A
  paginate rows page per_page = record {
    rows = take per_page (drop ((page - 1) * per_page) rows);
    current_page = page;
    last_page = max 1 (ceil_div (length rows) per_page);
    per_page = per_page;
    total = length rows;
  }
