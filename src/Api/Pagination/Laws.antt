-- ===== src/Api/Pagination/Laws.antt =====
-- What a route gets from a query, and the pages that `nextOffset` leads through.
use apply_agent.Prelude.{
  ℕ, zero, suc, ◌+◌, ◌-◌, ◌*◌, ◌≤◌, ◌<◌, ◌≡◌, refl, sym, ap, ◌∙◌, ◌⊎◌, inl, inr, String, ◌==◌,
  eq_iff, true, Bool-cases, Option, none, some, List, [], ◌∷◌, ◌++◌, length, take, drop,
  length-take, length-drop, take-append-drop, drop-drop, min, ltb, ℤ, pos, negsuc, subst, arith,
  get_or_else,
}
use mathlib.Core.List.{append-nil, flatten}
use apply_agent.Api.Errors.{ok, ok_of_bind}
use apply_agent.Api.Pagination.{
  PaginationParams, PaginationOptions, RawQuery, JsNumber, no_integer, integer, clamp, clamp_number,
  clamp_int, includes, pick_sort, sort_or_first, pick_order, parse_pagination, paginated,
  max_safe_integer, PaginatedEnvelope,
}

-- Membership in the allowlist.
abbrev pub IsListed : String → List String → Type 0
IsListed s [] = ⊥
IsListed s (x ∷ xs) = (x ≡ s) ⊎ IsListed s xs

includes-IsListed : (xs : List String) (s : String) → includes xs s ≡ true → IsListed s xs
unfolding includes
includes-IsListed [] s h = cc
includes-IsListed (x ∷ xs) s h = elim (Bool-cases (x == s)) [
  | inl e ↦ inl ((eq_iff x s).0 e)
  | inr e ↦ inr (includes-IsListed xs s (rw (e, includes) at h))
]

clamp_bounds : (lo hi : ℕ) (n : ℤ) → lo ≤ hi → (lo ≤ clamp lo hi n) × (clamp lo hi n ≤ hi)
unfolding clamp
clamp_bounds lo hi (negsuc n) h = ground arith
clamp_bounds lo hi (pos n) h = ground arith

clamp_number_bounds :
    (raw name : String) (lo hi : ℕ) (v : JsNumber) {n : ℕ}
    → lo ≤ hi
    → clamp_number raw name lo hi v ≡ ok n
    → (lo ≤ n) × (n ≤ hi)
unfolding clamp_number
clamp_number_bounds raw name lo hi no_integer h e = cc
clamp_number_bounds raw name lo hi (integer v) h e = ground (arith, clamp_bounds lo hi v)

clamp_int_bounds :
    (to_number : String → JsNumber) (raw : Option String) (fallback lo hi : ℕ) (name : String)
    {n : ℕ}
    → lo ≤ fallback
    → fallback ≤ hi
    → clamp_int to_number raw fallback lo hi name ≡ ok n
    → (lo ≤ n) × (n ≤ hi)
unfolding clamp_int
clamp_int_bounds to_number none fallback lo hi name a b e = ground arith
clamp_int_bounds to_number (some raw) fallback lo hi name a b e =
    ground (arith, clamp_number_bounds raw name lo hi (to_number raw))

pick_sort-IsListed :
    (sortable : List String) (sort : Option String) {s : String}
    → pick_sort sortable sort ≡ ok s
    → IsListed s sortable × (sort ≡ some s)
unfolding pick_sort
pick_sort-IsListed sortable none e = cc
pick_sort-IsListed sortable (some t) {s} e = elim (Bool-cases (includes sortable t)) [
  | inl h ↦
      let same : t ≡ s = ground arith in
      (subst (λ x. IsListed x sortable) same (includes-IsListed sortable t h), ap some same)
  | inr h ↦ absurd (cc (rw (h, pick_sort) at e))
]

-- Parameters that a route can put into its SQL.
pub record IsSafe (opts : PaginationOptions) (p : PaginationParams) : Type 0 where
  pub listed : IsListed p.sort opts.sortable
  pub limit_pos : 1 ≤ p.limit
  pub limit_max : p.limit ≤ get_or_else opts.max_limit 100
  pub offset_safe : p.offset ≤ max_safe_integer

-- The limits that a route's options set make sense: 1 ≤ default ≤ maximum.
abbrev pub HasLimits : PaginationOptions → Type 0
HasLimits opts =
    (1 ≤ get_or_else opts.default_limit 20)
    × (get_or_else opts.default_limit 20 ≤ get_or_else opts.max_limit 100)

-- With sensible limits, whatever the query is and however its texts read as numbers, parameters that
-- `parsePagination` returns sort by a column of the allowlist, ask for between one row and the
-- maximum, and have an offset that JavaScript counts exactly. The column is the one that the query
-- names, or the first of the allowlist if it names none.
pub parse_pagination-IsSafe :
    (to_number : String → JsNumber) (q : RawQuery) (opts : PaginationOptions) (p : PaginationParams)
    → HasLimits opts
    → parse_pagination to_number q opts ≡ ok p
    → IsSafe opts p × (sort_or_first q.sort opts.sortable ≡ some p.sort)
unfolding parse_pagination
parse_pagination-IsSafe to_number q opts p (low, high) e =
    let (limit, el, e1) = ok_of_bind (clamp_int to_number q.limit _ 1 _ "limit") _ e in
    let (offset, eo, e2) =
      ok_of_bind (clamp_int to_number q.offset 0 0 max_safe_integer "offset") _ e1 in
    let (sort, es, e3) = ok_of_bind (pick_sort opts.sortable _) _ e2 in
    let (order, ed, e4) = ok_of_bind (pick_order q.order opts.default_order) _ e3 in
    let lb = clamp_int_bounds to_number q.limit _ 1 _ "limit" low high el in
    let ob =
      clamp_int_bounds to_number q.offset 0 0 max_safe_integer "offset" (omega arith) (omega arith)
        eo in
    let (listed, named) = pick_sort-IsListed opts.sortable _ es in
    let same_limit : limit ≡ p.limit = ground arith in
    let same_offset : offset ≡ p.offset = ground arith in
    let same_sort : sort ≡ p.sort = ground arith in
    (
      record {
        listed = subst (λ x. IsListed x opts.sortable) same_sort listed;
        limit_pos = omega arith;
        limit_max = omega arith;
        offset_safe = omega arith;
      },
      named ∙ ap some same_sort,
    )

module _ {ℓ} {T : Type ℓ} where
  -- What SQL's LIMIT and OFFSET select
  abbrev pub page : List T → (limit offset : ℕ) → List T
  page rows limit offset = take limit (drop offset rows)

  -- What a list route answers about a table of rows
  abbrev pub answer : List T → (limit offset : ℕ) → PaginatedEnvelope T
  answer rows limit offset = paginated (page rows limit offset) (length rows) limit offset

  take_all : (n : ℕ) (xs : List T) → length xs ≤ n → take n xs ≡ xs
  take_all zero [] h = refl
  take_all zero (x ∷ xs) h = elim h [ ]
  take_all (suc n) [] h = refl
  take_all (suc n) (x ∷ xs) h = rw (take_all n xs (omega arith))

  length-page :
      (rows : List T) (limit offset : ℕ)
      → length (page rows limit offset) ≡ min limit (length rows - offset)
  length-page rows limit offset =
      length-take limit (drop offset rows) ∙ ap (min limit) (length-drop offset rows)

module _ {ℓ} {T : Type ℓ} (rows : List T) (limit : ℕ) where
  -- The pages from an offset on: each answer names the offset of the next one, or `null`, and there
  -- they end. There are such pages only if the answers come to `null` at some point.
  pub data Pages : ℕ → List (List T) → Type ℓ where
    last :
        {offset : ℕ}
        → (answer rows limit offset).next_offset ≡ none
        → Pages offset ((answer rows limit offset).rows ∷ [])
    more :
        {offset next : ℕ} {rest : List (List T)}
        → (answer rows limit offset).next_offset ≡ some next
        → Pages next rest
        → Pages offset ((answer rows limit offset).rows ∷ rest)

  -- The pages end, they are no more than the rows need, and together they are the rows.
  pub record IsPaged (offset : ℕ) (pages : List (List T)) : Type ℓ where
    pub followed : Pages offset pages
    pub few : limit * length pages ≤ limit + (length rows - offset - 1)
    pub complete : flatten pages ≡ drop offset rows

  pages_within :
      (fuel offset : ℕ)
      → 1 ≤ limit
      → length rows - offset < fuel
      → (pages : List (List T)) × IsPaged offset pages
  unfolding paginated flatten
  pages_within zero offset h k = elim k [ ]
  pages_within (suc fuel) offset h k =
      let here = page rows limit offset in
      let size = length-page rows limit offset in
      elim (Bool-cases (ltb (offset + length here) (length rows))) [
        | inl go ↦
            let full : offset + length here ≡ offset + limit = ground arith in
            let fits : offset + limit < length rows = ground arith in
            let (rest, paged) = pages_within fuel (offset + limit) h (omega arith) in
            let next : (answer rows limit offset).next_offset ≡ some (offset + limit) =
              rw go (ap some full) in
            let bound = paged.few in
            (
              here ∷ rest,
              record {
                followed = more next paged.followed;
                few = grind arith;
                complete =
                    ap (λ xs. here ++ xs) (paged.complete ∙ sym (drop-drop offset limit rows))
                    ∙ take-append-drop limit (drop offset rows);
              },
            )
        | inr stop ↦ (
          here ∷ [],
          record {
            followed = last (rw stop);
            few = omega arith;
            complete =
                append-nil here
                ∙ take_all limit (drop offset rows) (ground (arith, length-drop offset rows));
          },
        )
      ]

  -- Over a table that does not change, with pages of at least one row: from any offset on, the answers
  -- whose `nextOffset` is followed come to an end, and together they have all rows from there on, each
  -- once and in order. There are as few of them as these rows need, and one if there are none.
  pub pages_end : (offset : ℕ) → 1 ≤ limit → (pages : List (List T)) × IsPaged offset pages
  pages_end offset h = pages_within (suc (length rows - offset)) offset h (omega arith)
