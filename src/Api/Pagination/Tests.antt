-- ===== src/Api/Pagination/Tests.antt =====
-- The pagination theorems at concrete inputs.
use apply_agent.Prelude.{
  ℕ, String, ◌==◌, ◌≡◌, refl, none, some, List, [], ◌∷◌, pos, arith, if◌then◌else◌,
}
use apply_agent.Api.Errors.{ok}
use apply_agent.Api.Pagination.{
  PaginationParams, PaginationOptions, RawQuery, JsNumber, no_integer, integer, asc,
  parse_pagination, sort_or_first, clamp_int, pick_sort, pick_order, includes,
}
use apply_agent.Api.Pagination.Laws.{IsSafe, parse_pagination-IsSafe, IsPaged, pages_end}

abbrev reader : String → JsNumber
reader s = if s == "500" then integer (pos 500) else no_integer

abbrev query : RawQuery
query = record { limit = some "500"; offset = none; sort = some "version"; order = some "asc" }

abbrev options : PaginationOptions
options = record {
  sortable = "created_at" ∷ "version" ∷ [];
  default_limit = none;
  max_limit = none;
  default_order = none;
}

abbrev params : PaginationParams
params = record { limit = 100; offset = 0; sort = "version"; order = asc }

parsed : parse_pagination reader query options ≡ ok params
unfolding parse_pagination clamp_int pick_sort pick_order includes
parsed = refl

parse_pagination-IsSafe_example :
    IsSafe options params × (sort_or_first query.sort options.sortable ≡ some params.sort)
parse_pagination-IsSafe_example =
    parse_pagination-IsSafe reader query options params (omega arith) parsed

pages_end_example : (pages : List (List ℕ)) × IsPaged (5 ∷ 6 ∷ 7 ∷ 8 ∷ 9 ∷ []) 2 1 pages
pages_end_example = pages_end (5 ∷ 6 ∷ 7 ∷ 8 ∷ 9 ∷ []) 2 1 (omega arith)
