-- ===== src/Web/Compare/Tests.antt =====
-- Comparisons at concrete résumés, and the witness of the theorem about the bullets.
use apply_agent.Prelude.{
  to_lower_case, text_includes, lower, is_digit, ◌≡◌, ◌≤◌, refl, String, true, none, some, List, [],
  ◌∷◌, map,
}
use apply_agent.Web.Compare.{
  same_role, merge_role, merge_one, ComparableWork, fresh, pick, leftover, merge_highlights,
  merge_compare_work,
}
use apply_agent.Web.Compare.Text.{words_of, member, fact_words, normalized, likely_rewrite_of}
use apply_agent.Web.Compare.Laws.{Covers, occurrences, merge_highlights_lem}

normalized_lem : normalized "  Cut  p99 by 12.5% (AWS)! " ≡ "cut p99 by 12.5% aws"
unfolding normalized words_of to_lower_case is_digit lower
normalized_lem = refl

same_number : likely_rewrite_of "Reduced latency by 40%" "Latency went down 40% in a year" ≡ true
unfolding likely_rewrite_of normalized words_of to_lower_case is_digit lower text_includes member
same_number = refl

abbrev base_bullets : List String
base_bullets = "Reduced latency by 40%" ∷ "Ran the on-call rota" ∷ []

abbrev derived_bullets : List String
derived_bullets = "Wrote the parser" ∷ "Latency went down 40% in a year" ∷ []

merged_bullets :
    merge_highlights base_bullets (fresh derived_bullets)
    ≡ "Latency went down 40% in a year" ∷ "Ran the on-call rota" ∷ "Wrote the parser" ∷ []
unfolding merge_highlights pick fresh likely_rewrite_of normalized words_of to_lower_case is_digit
    lower text_includes member fact_words leftover
merged_bullets = refl

merge_highlights_lem_example :
    Covers base_bullets (merge_highlights base_bullets (fresh derived_bullets))
    × (occurrences "Wrote the parser" derived_bullets
        ≤ occurrences "Wrote the parser" (merge_highlights base_bullets (fresh derived_bullets)))
merge_highlights_lem_example = merge_highlights_lem base_bullets derived_bullets "Wrote the parser"

abbrev at_acme : List String → ComparableWork
at_acme bullets = record {
  name = some "Acme";
  position = none;
  start_date = none;
  end_date = none;
  summary = none;
  highlights = some bullets;
}

-- The base has two roles at one company: the second merge replaces the first, with its bullets.
second_role_hides_first :
    map
      (λ w. w.highlights)
      (merge_compare_work
        (at_acme ("Wrote the parser" ∷ []) ∷ [])
        (at_acme ("Ran the on-call rota" ∷ []) ∷ at_acme ("Hired two engineers" ∷ []) ∷ []))
    ≡ some ("Hired two engineers" ∷ "Wrote the parser" ∷ []) ∷ []
unfolding merge_compare_work merge_one same_role normalized words_of to_lower_case is_digit lower
    merge_role merge_highlights pick fresh likely_rewrite_of text_includes fact_words leftover
second_role_hides_first = refl
