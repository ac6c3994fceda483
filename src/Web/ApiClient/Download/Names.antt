-- ===== src/Web/ApiClient/Download/Names.antt =====
-- The name of an exported file, from the gateway's header to the file that the browser saves.
use apply_agent.Prelude.{
  ℕ, String, ◌<>◌, ◌≡◌, refl, sym, ap, subst, ◌∙◌, ◌≢◌, inl, inr, Bool, true, false, not, ◌&&◌,
  ◌||◌, Option, none, some, Json, arith, nat_beq, if◌then◌else◌, Bool-cases, or_else, is_digit,
}
use Prim.Native.Char.{Char}
use Prim.Native.String.{[], ◌∷◌}
use text.Mathlib.TextLemmas.{nil-append, cons-append, append_assoc}
use apply_agent.Api.Export.{
  ExportFormat, export_filename, version_label, attachment_header, printable, is_slug, slugify,
  optional_chain, export_ext,
}
use apply_agent.Api.Export.Laws.{is_safe, IsSafe, export_filename-IsSafe}
use apply_agent.Web.ApiClient.Download.{
  fold_code, after_folded, search, not_empty, to_semicolon, utf8_at, utf8_marker, filename_of,
}

-- The text differs from the expression before its end.
abbrev misses : String → String → Bool
misses [] s = false
misses (p ∷ ps) [] = false
misses (p ∷ ps) (c ∷ s) = if nat_beq (fold_code p) (fold_code c) then misses ps s else true

abbrev all_miss : String → String → Bool
all_miss p [] = true
all_miss p (c ∷ s) = misses p (c ∷ s) && all_miss p s

after_folded-misses : (p s t : String) → misses p s ≡ true → after_folded p (s <> t) ≡ none
unfolding after_folded
after_folded-misses [] s t h = cc
after_folded-misses (p ∷ ps) [] t h = cc
after_folded-misses (p ∷ ps) (c ∷ s) t h =
    rw (cons-append c s t) (elim (Bool-cases (nat_beq (fold_code p) (fold_code c))) [
      | inl e ↦ rw e (after_folded-misses ps s t (rw e at h))
      | inr e ↦ rw e refl
    ])

and_cases : (a b : Bool) → (a && b) ≡ true → (a ≡ true) × (b ≡ true)
and_cases true true h = (refl, refl)
and_cases true false h = cc
and_cases false b h = cc

utf8_at-none : (s : String) → after_folded utf8_marker s ≡ none → utf8_at s ≡ none
unfolding utf8_at after_folded
utf8_at-none s e = rw e refl

search_goes_on :
    (c : Char) (s : String)
    → after_folded utf8_marker (c ∷ s) ≡ none
    → search utf8_at (c ∷ s) ≡ search utf8_at s
unfolding search
search_goes_on c s e = rw (utf8_at-none (c ∷ s) e, search) refl

-- A text that has no place where the expression matches, whatever follows
search-misses :
    (s t : String) → all_miss utf8_marker s ≡ true → search utf8_at (s <> t) ≡ search utf8_at t
search-misses [] t h = rw (nil-append t) refl
search-misses (c ∷ s) t h =
    let (now, later) = and_cases (misses utf8_marker (c ∷ s)) (all_miss utf8_marker s) h in
    let fails = after_folded-misses utf8_marker (c ∷ s) t now in
    ap (search utf8_at) (cons-append c s t)
    ∙ search_goes_on c (s <> t)
        (subst (λ u. after_folded utf8_marker u ≡ none) (cons-append c s t) fails)
    ∙ search-misses s t later

-- The expression has a star, and no quote before it.
abbrev stops : String → Bool
stops [] = false
stops (p ∷ ps) = not (nat_beq (fold_code p) b'"') && (nat_beq (fold_code p) b'*' || stops ps)

safe_is_no_star : (c : Char) → is_safe c ≡ true → fold_code c ≢ b'*'
unfolding fold_code is_slug is_digit
safe_is_no_star c h e = ground arith

equal : (n k : ℕ) → nat_beq n k ≡ true → n ≡ k
equal n k e = ground arith

-- A safe text with a quote after it ends before the star.
after_folded-IsSafe :
    (p s t : String) → stops p ≡ true → IsSafe s → after_folded p (s <> ("\"" ∷ t)) ≡ none
unfolding after_folded fold_code
after_folded-IsSafe [] s t h safe = cc
after_folded-IsSafe (p ∷ ps) [] t h safe =
    rw (nil-append ("\"" ∷ t)) (elim (Bool-cases (nat_beq (fold_code p) b'"')) [
      | inl e ↦ absurd (ground (arith, h, e))
      | inr e ↦ rw e refl
    ])
after_folded-IsSafe (p ∷ ps) (c ∷ s) t h safe =
    rw (cons-append c s ("\"" ∷ t)) (elim (Bool-cases (nat_beq (fold_code p) (fold_code c))) [
      | inl e ↦
          rw e (after_folded-IsSafe ps s t (ground (arith, h, e, safe_is_no_star c safe.0)) safe.1)
      | inr e ↦ rw e refl
    ])

marker_stops : stops utf8_marker ≡ true
unfolding fold_code
marker_stops = refl

search-IsSafe :
    (s t : String) → IsSafe s → search utf8_at (s <> ("\"" ∷ t)) ≡ search utf8_at ("\"" ∷ t)
search-IsSafe [] t h = rw (nil-append ("\"" ∷ t)) refl
search-IsSafe (c ∷ s) t h =
    ap (search utf8_at) (cons-append c s ("\"" ∷ t))
    ∙ search_goes_on c (s <> ("\"" ∷ t)) (
        subst (λ u. after_folded utf8_marker u ≡ none) (cons-append c s ("\"" ∷ t))
          (after_folded-IsSafe utf8_marker (c ∷ s) t marker_stops h))
    ∙ search-IsSafe s t h.1

after_folded-append : (p s : String) → after_folded p (p <> s) ≡ some s
unfolding after_folded
after_folded-append [] s = rw (nil-append s) refl
after_folded-append (c ∷ p) s = rw (cons-append c p s) (ground (arith, after_folded-append p s))

to_semicolon-IsSafe : (s : String) → IsSafe s → to_semicolon s ≡ s
unfolding to_semicolon is_slug is_digit
to_semicolon-IsSafe [] h = refl
to_semicolon-IsSafe (c ∷ s) h = ground (arith, to_semicolon-IsSafe s h.1, h)

printable-IsSafe : (s : String) → IsSafe s → printable s ≡ s
unfolding printable is_slug is_digit
printable-IsSafe [] h = refl
printable-IsSafe (c ∷ s) h = ground (arith, printable-IsSafe s h.1, h)

not_empty-append :
    (s : String) (c : Char) (t : String) → not_empty (s <> (c ∷ t)) ≡ some (s <> (c ∷ t))
unfolding not_empty
not_empty-append [] c t = rw (nil-append (c ∷ t)) refl
not_empty-append (d ∷ s) c t = rw (cons-append d s (c ∷ t)) refl

export_filename-not_empty :
    (fold : String → String) (parsed : Json) (label : String) (format : ExportFormat)
    → not_empty (export_filename fold parsed label format)
      ≡ some (export_filename fold parsed label format)
unfolding export_filename
export_filename-not_empty fold parsed label format =
    let stem =
      or_else (slugify fold (optional_chain "name" (optional_chain "basics" (some parsed))))
        "resume" in
    subst (λ u. not_empty (stem <> u) ≡ some (stem <> u))
      (sym (cons-append "-" "" _ ∙ ap (λ u. "-" ∷ u) (nil-append _)))
      (not_empty-append stem "-" (label <> ("." <> export_ext format)))

search_found : (s found : String) → utf8_at s ≡ some found → search utf8_at s ≡ some found
unfolding search
search_found [] found e = e
search_found (c ∷ s) found e = rw (e, search) refl

utf8_at-some :
    (s rest : String)
    → after_folded utf8_marker s ≡ some rest
    → utf8_at s ≡ not_empty (to_semicolon rest)
unfolding utf8_at after_folded
utf8_at-some s rest e = rw e refl

utf8_at-marker :
    (name : String)
    → IsSafe name
    → not_empty name ≡ some name
    → utf8_at (utf8_marker <> name) ≡ some name
utf8_at-marker name safe full =
    utf8_at-some (utf8_marker <> name) name (after_folded-append utf8_marker name)
    ∙ ap not_empty (to_semicolon-IsSafe name safe)
    ∙ full

filename_found :
    (decode : String → Option String) (cd encoded : String) (format : ExportFormat)
    → search utf8_at cd ≡ some encoded
    → filename_of decode (some cd) format ≡ decode encoded
unfolding filename_of
filename_found decode cd encoded format e = rw (e, filename_of) refl

module _ (encode : String → String) (decode : String → Option String) where
  -- The header of a safe name that is not empty
  search-header :
      (name : String)
      → IsSafe name
      → not_empty name ≡ some name
      → encode name ≡ name
      → search utf8_at (attachment_header encode name) ≡ some name
  unfolding attachment_header fold_code
  search-header name safe full e =
      search-misses "attachment; filename=\"" _ refl
      ∙ ap (λ u. search utf8_at (u <> ("\"; filename*=UTF-8''" <> encode name)))
          (printable-IsSafe name safe)
      ∙ ap (λ u. search utf8_at (name <> u)) (cons-append "\"" "; filename*=UTF-8''" (encode name))
      ∙ search-IsSafe name _ safe
      ∙ ap (search utf8_at) (sym (cons-append "\"" "; filename*=UTF-8''" (encode name)))
      ∙ ap (search utf8_at) (append_assoc "\"; " utf8_marker (encode name))
      ∙ search-misses "\"; " (utf8_marker <> encode name) refl
      ∙ ap (λ u. search utf8_at (utf8_marker <> u)) e
      ∙ search_found (utf8_marker <> name) name (utf8_at-marker name safe full)

  -- The name that the gateway gives to the file of an export is the name that the page gives to the
  -- saved file, for every résumé, version and format, if `encodeURIComponent` leaves letters, digits,
  -- dashes and dots as they are and `decodeURIComponent` undoes it.
  pub export_name_arrives :
      ((s : String) → IsSafe s → encode s ≡ s)
      → ((s : String) → decode (encode s) ≡ some s)
      → (fold : String → String) (parsed : Json) (version : ℕ) (format : ExportFormat)
      → filename_of decode
          (some
            (attachment_header encode (export_filename fold parsed (version_label version) format)))
          format
        ≡ some (export_filename fold parsed (version_label version) format)
  export_name_arrives plain back fold parsed version format =
      let name = export_filename fold parsed (version_label version) format in
      let safe = export_filename-IsSafe fold parsed version format in
      let same = plain name safe in
      filename_found decode _ name format
        (search-header name safe (export_filename-not_empty fold parsed _ format) same)
      ∙ ap decode (sym same)
      ∙ back name
