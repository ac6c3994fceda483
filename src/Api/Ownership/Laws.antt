-- ===== src/Api/Ownership/Laws.antt =====
-- A row of another user and a missing row are answered alike.
use apply_agent.Prelude.{
  ℕ, suc, String, ◌<>◌, Bool, Bool-cases, true, false, ◌&&◌, none, some, List, [], ◌∷◌, ◌≡◌, ap,
  refl, sym, subst, arith, inl, inr, ◌⊎◌, if◌then◌else◌, to_decimal, All,
}
use mathlib.Core.List.{map}
use apply_agent.Api.Errors.{Result, ok, err, not_found}
use apply_agent.Api.Ownership.{
  OwnedTable, table_text, human_name, owned_query, first_row, fetch_owned, required,
  require_ownership,
}

-- `c1 = $n AND c2 = $(n + 1) ...`
abbrev pub conditions_text : ℕ → List String → String
conditions_text n [] = ""
conditions_text n (c ∷ []) = c <> (" = $" <> to_decimal n)
conditions_text n (c ∷ d ∷ cs) =
    c <> (" = $" <> (to_decimal n <> (" AND " <> conditions_text (suc n) (d ∷ cs))))

-- A SELECT over any columns of one table, with any conjunction of equations
abbrev pub select_text : (columns table : String) → (conditions : List String) → String
select_text columns table conditions =
    "SELECT " <> (columns <> (" FROM " <> (table <> (" WHERE " <> conditions_text 1 conditions))))

module _ {A : Type 0} where
  -- The elements that pass a test
  abbrev pub those : (A → Bool) → List A → List A
  those test [] = []
  those test (x ∷ xs) = if test x then x ∷ those test xs else those test xs

  abbrev pub all : (A → Bool) → List A → Bool
  all test [] = true
  all test (x ∷ xs) = test x && all test xs

  abbrev pub IsIn : A → List A → Type 0
  IsIn e [] = ⊥
  IsIn e (x ∷ xs) = (x ≡ e) ⊎ IsIn e xs

  of_all : (P : A → Type 0) (xs : List A) (e : A) → All P xs → IsIn e xs → P e
  of_all P [] e h m = absurd m
  of_all P (x ∷ xs) e h (inl same) = subst P same h.0
  of_all P (x ∷ xs) e h (inr later) = of_all P xs e h.1 later

  -- Where one element passes and no other does, it comes first; where none does, nothing comes.
  first_of_those :
      {Row : Type 0} (f : A → Row) (test : A → Bool) (e : A) (xs : List A)
      → IsIn e xs
      → test e ≡ true
      → ((x : A) → IsIn x xs → test x ≡ true → x ≡ e)
      → first_row (ok (map f (those test xs))) ≡ ok (some (f e))
  unfolding first_row
  first_of_those f test e [] m h only = absurd m
  first_of_those f test e (x ∷ xs) m h only = elim (Bool-cases (test x)) [
    | inl p ↦ rw p (ap (λ y. ok (some (f y))) (only x (inl refl) p))
    | inr p ↦ elim m [
      | inl same ↦ absurd (cc)
      | inr later ↦ rw p (first_of_those f test e xs later h (λ y i t. only y (inr i) t))
    ]
  ]

  none_of_those :
      {Row : Type 0} (f : A → Row) (test : A → Bool) (xs : List A)
      → ((x : A) → IsIn x xs → test x ≡ false)
      → first_row (ok (map f (those test xs))) ≡ ok none
  unfolding first_row
  none_of_those f test [] lack = refl
  none_of_those f test (x ∷ xs) lack =
      rw (lack x (inl refl)) (none_of_those f test xs (λ y i. lack y (inr i)))

-- What is relied on of the database, for a choice of columns that its tables have: it stores entries;
-- `equals e c v` says that `c = v` holds of the entry e, and `chosen` gives the entry's chosen columns.
-- A text that is no value of the column's type, such as an id that is no UUID, makes a statement
-- fail. On other parameters, one for each of its conditions, a SELECT gives the entries of which all
-- the conditions hold. The id of a row is its own.
pub record Database {Row : Type 0} (q : String → List String → Result (List Row)) (columns : String)
    : Type 1 where
  pub Entry : Type 0
  pub entries : OwnedTable → List Entry
  pub equals : Entry → (column value : String) → Bool
  pub is_value : (column value : String) → Bool
  pub chosen : Entry → Row
  pub selects :
      (table : OwnedTable) (c : String × String) (cs : List (String × String))
      → All (λ d. is_value d.0 d.1 ≡ true) (c ∷ cs)
      → q
          (select_text columns (table_text table) (map (λ d. d.0) (c ∷ cs)))
          (map (λ d. d.1) (c ∷ cs))
        ≡ ok (map chosen (those (λ e. all (λ d. equals e d.0 d.1) (c ∷ cs)) (entries table)))
  pub own_id :
      (table : OwnedTable) (id : String) (e f : Entry)
      → IsIn e (entries table)
      → IsIn f (entries table)
      → equals e "id" id ≡ true
      → equals f "id" id ≡ true
      → f ≡ e

module _ {Row : Type 0} (q : String → List String → Result (List Row)) (columns : String)
    (db : Database q columns) where
  abbrev is_owned : (id user_id : String) → db.Entry → Bool
  is_owned id user_id e = db.equals e "id" id && (db.equals e "user_id" user_id && true)

  answered :
      (table : OwnedTable) (id user_id : String)
      → db.is_value "id" id ≡ true
      → db.is_value "user_id" user_id ≡ true
      → q (owned_query table columns) (id ∷ user_id ∷ [])
        ≡ ok (map db.chosen (those (is_owned id user_id) (db.entries table)))
  unfolding to_decimal
  answered table id user_id v w =
      db.selects table ("id", id) (("user_id", user_id) ∷ []) (v, (w, tt))

  given :
      (table : OwnedTable) (id user_id : String) (e : db.Entry)
      → db.is_value "id" id ≡ true
      → db.is_value "user_id" user_id ≡ true
      → IsIn e (db.entries table)
      → db.equals e "id" id ≡ true
      → db.equals e "user_id" user_id ≡ true
      → require_ownership q table id user_id columns ≡ ok (db.chosen e)
  unfolding require_ownership fetch_owned required
  given table id user_id e v w i p u = rw (
    answered table id user_id v w,
    first_of_those db.chosen (is_owned id user_id) e (db.entries table) i (rw (p, u))
        (λ x j t. db.own_id table id e x i j p (ground arith)),
    required,
  )

  refused :
      (table : OwnedTable) (id user_id : String)
      → db.is_value "id" id ≡ true
      → db.is_value "user_id" user_id ≡ true
      → ((e : db.Entry) → IsIn e (db.entries table) → is_owned id user_id e ≡ false)
      → require_ownership q table id user_id columns
        ≡ err (not_found (human_name table <> " not found"))
  unfolding require_ownership fetch_owned required
  refused table id user_id v w lacks = rw (
    answered table id user_id v w,
    none_of_those db.chosen (is_owned id user_id) (db.entries table) lacks,
    required,
  )

  -- If a row has this id and belongs to one user and not to another one, and no row has the id
  -- `missing`: the owner gets the row, and the other user gets NOT_FOUND, in the same words for the
  -- id of that row as for the missing one. The ids and the users are values of their columns.
  pub require_ownership_lem :
      (table : OwnedTable) (id missing owner other : String) (e : db.Entry)
      → db.is_value "id" id ≡ true
      → db.is_value "id" missing ≡ true
      → db.is_value "user_id" owner ≡ true
      → db.is_value "user_id" other ≡ true
      → IsIn e (db.entries table)
      → db.equals e "id" id ≡ true
      → db.equals e "user_id" owner ≡ true
      → db.equals e "user_id" other ≡ false
      → All (λ f. db.equals f "id" missing ≡ false) (db.entries table)
      → (require_ownership q table id owner columns ≡ ok (db.chosen e))
        × (require_ownership q table id other columns
            ≡ err (not_found (human_name table <> " not found")))
        × (require_ownership q table missing other columns
            ≡ err (not_found (human_name table <> " not found")))
  require_ownership_lem table id missing owner other e v w x y i p mine not_theirs absent = (
    given table id owner e v x i p mine,
    refused table id other v y (λ f j. elim (Bool-cases (db.equals f "id" id)) [
      | inl t ↦
          (let same : f ≡ e = db.own_id table id e f i j p t in
            rw t (
              subst (λ g. (db.equals g "user_id" other && true) ≡ false) (sym same)
                (rw not_theirs)))
      | inr n ↦ rw n
    ]),
    refused table missing other w y (λ f j. rw (of_all _ (db.entries table) f absent j)),
  )
