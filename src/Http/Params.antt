-- ===== src/Http/Params.antt =====
-- Numbers in the query of a request: backend/internal/http/handlers/params.go, and the pages of
-- `listTrips` in backend/internal/http/handlers/trips.go.
use uitgo_monorepo.Base.{
  ℕ, String, ◌*◌, ◌-◌, Bool, true, false, inl, inr, Bool-cases, ◌&&◌, ◌≤◌, Option, none, some,
  arith, if◌then◌else◌,
}
use uitgo_monorepo.Base.Int.{ℤ, pos, negsuc, ◌-ℤ◌, ◌*ℤ◌, ◌≤ℤ◌, leb_ℤ, ltb_ℤ, int64}
use uitgo_monorepo.Base.Text.{is_empty}
use uitgo_monorepo.Base.Numbers.{atoi}

-- A parsed number within the bounds; zero bounds nothing.
unfoldable pub bounded_int : Option ℤ → ℤ → ℤ → ℤ
bounded_int none fallback max = fallback
bounded_int (some parsed) fallback max =
    if ltb_ℤ parsed (pos 0)
    then fallback
    else if ltb_ℤ (pos 0) max && ltb_ℤ max parsed
    then max
    else parsed

-- `sanitizeInt`; `queryInt` reads the value of its key, an empty text where there is none.
unfoldable pub sanitize_int : String → ℤ → ℤ → ℤ
unfolding bounded_int
sanitize_int value fallback max =
    if is_empty value then fallback else bounded_int (atoi value) fallback max

-- The query of a list of trips; `role` is "rider" where there is none.
pub record ListQuery : Type 0 where
  pub role : String
  pub limit : String
  pub offset : String
  pub page : String
  pub page_size : String

abbrev pub page_length : ℤ → ℤ → ℤ
page_length page_size limit =
    let size = if leb_ℤ page_size (pos 0) then limit else page_size in
    if ltb_ℤ (pos 100) size then pos 100 else size

-- The limit and the offset that the service is asked for.
unfoldable pub paged : ℤ → ℤ → ℤ → ℤ → ℤ × ℤ
paged limit offset page page_size =
    if ltb_ℤ (pos 0) page
    then (page_length page_size limit, int64 ((page -ℤ pos 1) *ℤ page_length page_size limit))
    else (limit, offset)

unfoldable pub paging : ListQuery → ℤ × ℤ
paging q =
    paged (sanitize_int q.limit (pos 20) (pos 100)) (sanitize_int q.offset (pos 0) (pos 1000))
      (sanitize_int q.page (pos 0) (pos 10000)) (sanitize_int q.page_size (pos 0) (pos 100))

-- At least zero, and at most the bound.
abbrev pub Within : ℤ → ℤ → Type 0
Within max a = (pos 0 ≤ℤ a) × (a ≤ℤ max)

bounded_int-Within :
    (parsed : Option ℤ) (fallback max : ℤ)
    → Within max fallback
    → pos 1 ≤ℤ max
    → Within max (bounded_int parsed fallback max)
unfolding bounded_int
bounded_int-Within none fallback max h some_max = h
bounded_int-Within (some parsed) fallback max h some_max = ground arith

Within-if : (b : Bool) (max x y : ℤ) → Within max x → Within max y → Within max (if b then x else y)
Within-if true max x y h k = h
Within-if false max x y h k = k

sanitize_int-Within :
    (value : String) (fallback max : ℤ)
    → Within max fallback
    → pos 1 ≤ℤ max
    → Within max (sanitize_int value fallback max)
unfolding sanitize_int
sanitize_int-Within value fallback max h some_max =
    Within-if (is_empty value) max _ _ h (bounded_int-Within (atoi value) fallback max h some_max)

page_length-Within :
    (page_size limit : ℤ)
    → Within (pos 100) page_size
    → Within (pos 100) limit
    → Within (pos 100) (page_length page_size limit)
page_length-Within page_size limit h k = ground arith

product_bound : (p s : ℕ) → p ≤ 9999 → s ≤ 100 → p * s ≤ 999900
product_bound p s h k = grind arith

skipped-Within :
    (page size : ℤ)
    → pos 1 ≤ℤ page
    → page ≤ℤ pos 10000
    → Within (pos 100) size
    → Within (pos 999900) (int64 ((page -ℤ pos 1) *ℤ size))
unfolding ◌-ℤ◌ ◌*ℤ◌ int64
skipped-Within (pos p) (pos s) low high h = ground (arith, product_bound (p - 1) s)
skipped-Within (negsuc p) size low high h = absurd (omega arith)
skipped-Within page (negsuc s) low high h = absurd (omega arith)

paged-Within :
    (limit offset page page_size : ℤ)
    → Within (pos 100) limit
    → Within (pos 1000) offset
    → Within (pos 10000) page
    → Within (pos 100) page_size
    → Within (pos 100) (paged limit offset page page_size).0
      × Within (pos 999900) (paged limit offset page page_size).1
unfolding paged
paged-Within limit offset page page_size l o p s = elim (Bool-cases (ltb_ℤ (pos 0) page)) [
  | inl on ↦ rw on (
      let size = page_length-Within page_size limit s l in
      (size, skipped-Within page (page_length page_size limit) (ground arith) p.1 size))
  | inr off ↦ rw off (l, omega arith)
]

-- Whatever numbers or texts a request carries, the service is asked for a hundred trips at most,
-- from a place that is not negative and below a million.
pub paging-Within :
    (q : ListQuery) → Within (pos 100) (paging q).0 × Within (pos 999900) (paging q).1
unfolding paging
paging-Within q =
    let limit = sanitize_int-Within q.limit (pos 20) (pos 100) (omega arith) (omega arith) in
    let offset = sanitize_int-Within q.offset (pos 0) (pos 1000) (omega arith) (omega arith) in
    let page = sanitize_int-Within q.page (pos 0) (pos 10000) (omega arith) (omega arith) in
    let page_size = sanitize_int-Within q.page_size (pos 0) (pos 100) (omega arith) (omega arith) in
    paged-Within _ _ _ _ limit offset page page_size
