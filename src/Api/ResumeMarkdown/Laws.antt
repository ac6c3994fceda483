-- ===== src/Api/ResumeMarkdown/Laws.antt =====
-- The lines of the section of work: each highlight has one of its own.
use Prim.Native.Char.{Char, code}
use mathlib.Core.List.{append-nil, append_assoc}
use text.Mathlib.TextLemmas.{cons-append, nil-append}
use apply_agent.Prelude.{
  String, ◌<>◌, false, Option, none, some, List, [], ◌∷◌, ◌++◌, nat_beq, ◌≡◌, refl, sym, ap, ◌∙◌,
  Bool-cases, inl, inr, if◌then◌else◌, is_empty, trim, All, map,
}
use apply_agent.Api.ResumeMarkdown.{LabelSet, join}
use apply_agent.Api.ResumeMarkdown.Sections.{
  Work, highlight_lines, role_head, role_lines, all_roles, render_work,
}

-- The first line goes on with the character.
abbrev onto_first : Char → List String → List String
onto_first c [] = String.◌∷◌ c "" ∷ []
onto_first c (line ∷ lines) = String.◌∷◌ c line ∷ lines

-- `text.split("\n")`
unfoldable pub lines_of : String → List String
lines_of String.[] = "" ∷ []
lines_of (String.◌∷◌ c s) =
    let rest = lines_of s in if nat_beq (code c) 10 then "" ∷ rest else onto_first c rest

onto_first-append :
    (c : Char) (xs ys : List String) {x : String} {zs : List String}
    → xs ≡ x ∷ zs
    → onto_first c (xs ++ ys) ≡ onto_first c xs ++ ys
onto_first-append c [] ys e = cc
onto_first-append c (x ∷ xs) ys e = refl

lines_of-cons : (s : String) → (x : String) × (zs : List String) × (lines_of s ≡ x ∷ zs)
unfolding lines_of
lines_of-cons String.[] = ("", [], refl)
lines_of-cons (String.◌∷◌ c s) = elim (Bool-cases (nat_beq (code c) 10)) [
  | inl e ↦ ("", lines_of s, rw (e, lines_of))
  | inr e ↦ let (x, zs, f) = lines_of-cons s in (String.◌∷◌ c x, zs, rw (e, f, lines_of))
]

newline_lem : (t : String) → "\n" <> t ≡ String.◌∷◌ "\n" t
newline_lem t = cons-append "\n" "" t ∙ ap (String.◌∷◌ "\n") (nil-append t)

lines_of-append : (s t : String) → lines_of (s <> String.◌∷◌ "\n" t) ≡ lines_of s ++ lines_of t
unfolding lines_of
lines_of-append String.[] t = rw (nil-append (String.◌∷◌ "\n" t))
lines_of-append (String.◌∷◌ c s) t =
    let later = lines_of-append s t in
    let (x, zs, full) = lines_of-cons s in
    rw (cons-append c s (String.◌∷◌ "\n" t)) (elim (Bool-cases (nat_beq (code c) 10)) [
      | inl e ↦ rw (e, lines_of, later)
      | inr e ↦ rw (e, lines_of, later) (onto_first-append c (lines_of s) (lines_of t) full)
    ])

-- The lines of several texts
unfoldable pub lines_of_all : List String → List String
lines_of_all [] = []
lines_of_all (x ∷ xs) = lines_of x ++ lines_of_all xs

lines_of-join :
    (x : String) (xs : List String) → lines_of (join "\n" (x ∷ xs)) ≡ lines_of_all (x ∷ xs)
unfolding join lines_of_all
lines_of-join x [] = sym (append-nil (lines_of x))
lines_of-join x (y ∷ ys) =
    rw (newline_lem (join "\n" (y ∷ ys)))
      (lines_of-append x (join "\n" (y ∷ ys)) ∙ ap (λ l. lines_of x ++ l) (lines_of-join y ys))

-- A highlight that is neither blank nor of several lines
abbrev pub IsLine : String → Type 0
IsLine h = (is_empty (trim h) ≡ false) × (lines_of (trim h) ≡ trim h ∷ [])

abbrev pub HasLines : Option Work → Type 0
HasLines none = Unit
HasLines (some w) = All IsLine w.highlights

-- The list line of a highlight
abbrev pub bullet : String → String
bullet h = "- " <> trim h

bullet_lem : (t : String) → lines_of t ≡ t ∷ [] → lines_of ("- " <> t) ≡ ("- " <> t) ∷ []
unfolding lines_of
bullet_lem t e = rw (cons-append "-" " " t, cons-append " " "" t, nil-append t, e, lines_of)

highlight_lines_lem :
    (hs : List String) → All IsLine hs → lines_of_all (highlight_lines hs) ≡ map bullet hs
unfolding highlight_lines lines_of_all
highlight_lines_lem [] h = refl
highlight_lines_lem (t ∷ hs) h = rw (h.0.0, bullet_lem (trim t) h.0.1, highlight_lines_lem hs h.1)

lines_of_all-append :
    (xs ys : List String) → lines_of_all (xs ++ ys) ≡ lines_of_all xs ++ lines_of_all ys
unfolding lines_of_all
lines_of_all-append [] ys = refl
lines_of_all-append (x ∷ xs) ys =
    rw (lines_of_all-append xs ys)
      (sym (append_assoc (lines_of x) (lines_of_all xs) (lines_of_all ys)))

-- The lines of the roles: what stands above the highlights, and one line for each highlight.
unfoldable pub role_blocks : List (Option Work) → LabelSet → List String
role_blocks [] labels = []
role_blocks (none ∷ ws) labels = role_blocks ws labels
role_blocks (some w ∷ ws) labels =
    (lines_of_all (role_head w labels) ++ map bullet w.highlights) ++ role_blocks ws labels

all_roles_lem :
    (ws : List (Option Work)) (labels : LabelSet)
    → All HasLines ws
    → lines_of_all (all_roles ws labels) ≡ role_blocks ws labels
unfolding all_roles role_lines role_blocks lines_of_all
all_roles_lem [] labels h = refl
all_roles_lem (none ∷ ws) labels h = all_roles_lem ws labels h.1
all_roles_lem (some w ∷ ws) labels h =
    lines_of_all-append (role_head w labels ++ highlight_lines w.highlights) (all_roles ws labels)
    ∙ rw (
      lines_of_all-append (role_head w labels) (highlight_lines w.highlights),
      highlight_lines_lem w.highlights h.0,
      all_roles_lem ws labels h.1,
    )

-- If no highlight is blank or of several lines, the lines of the section of work are the heading's
-- and, role by role, those above the highlights and exactly one list line for each highlight, in
-- order.
pub render_work-lines :
    (w : Option Work) (ws : List (Option Work)) (labels : LabelSet)
    → All HasLines (w ∷ ws)
    → lines_of (render_work (w ∷ ws) labels)
      ≡ lines_of ("## " <> labels.experience) ++ role_blocks (w ∷ ws) labels
unfolding render_work lines_of_all
render_work-lines w ws labels h =
    lines_of-join ("## " <> labels.experience) (all_roles (w ∷ ws) labels)
    ∙ ap (λ l. lines_of ("## " <> labels.experience) ++ l) (all_roles_lem (w ∷ ws) labels h)
