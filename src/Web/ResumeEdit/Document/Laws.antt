-- ===== src/Web/ResumeEdit/Document/Laws.antt =====
-- What a write through a path changes, and what it leaves alone.
use Prim.Native.Char.{code}
use apply_agent.Prelude.{
  ℕ, zero, suc, ◌+◌, ◌*◌, ◌-◌, ◌≡◌, ◌≢◌, refl, sym, ap, subst, ◌∙◌, ◌⊎◌, inl, inr, String, ◌==◌,
  eq_iff, eq_refl, Bool-cases, Option-cases, true, false, Option, none, some, [], ◌∷◌, arith,
  is_digit, is_space, nat_beq, if◌then◌else◌,
}
use apply_agent.Web.ResumeEdit.Document.{
  Value, undefined, arr, obj, Items, no_item, item, Fields, no_field, field, FieldPath, read_digits,
  read_signed, parse_index, is_index, get_item, set_item, get_field, set_field, item_at, child,
  get_at_path, put_item, new_container, place, set_at_path,
}

get_item-set_item_self : (i : ℕ) (w : Value) (xs : Items) → get_item i (set_item i w xs) ≡ w
unfolding get_item set_item
get_item-set_item_self zero w no_item = refl
get_item-set_item_self zero w (item x xs) = refl
get_item-set_item_self (suc i) w no_item = get_item-set_item_self i w no_item
get_item-set_item_self (suc i) w (item x xs) = get_item-set_item_self i w xs

get_item-set_item_other :
    (i j : ℕ) (w : Value) (xs : Items) → i ≢ j → get_item j (set_item i w xs) ≡ get_item j xs
unfolding get_item set_item
get_item-set_item_other zero zero w xs h = absurd (h refl)
get_item-set_item_other zero (suc j) w no_item h = refl
get_item-set_item_other zero (suc j) w (item x xs) h = refl
get_item-set_item_other (suc i) zero w no_item h = refl
get_item-set_item_other (suc i) zero w (item x xs) h = refl
get_item-set_item_other (suc i) (suc j) w no_item h =
    get_item-set_item_other i j w no_item (λ e. h (ap suc e))
get_item-set_item_other (suc i) (suc j) w (item x xs) h =
    get_item-set_item_other i j w xs (λ e. h (ap suc e))

get_field-set_field :
    (k j : String) (w : Value) (fs : Fields)
    → get_field j (set_field k w fs) ≡ (if k == j then w else get_field j fs)
unfolding get_field set_field
get_field-set_field k j w no_field = refl
get_field-set_field k j w (field i v fs) =
    ground (arith, eq_iff k j, eq_iff i k, eq_iff i j, get_field-set_field k j w fs)

-- A text of digits is read as a number.
read_digits_total : (acc : ℕ) (s : String) → (n : ℕ) × (read_digits (some acc) s ≡ some n)
unfolding read_digits
read_digits_total acc String.[] = (acc, refl)
read_digits_total acc (String.◌∷◌ c s) = elim (Bool-cases (is_digit c)) [
  | inl e ↦
      let (n, p) = read_digits_total (acc * 10 + (code c - b'0')) s in (n, rw (e, read_digits) p)
  | inr e ↦ (acc, rw (e, read_digits))
]

parse_index-is_index : (k : String) → is_index k ≡ true → (i : ℕ) × (parse_index k ≡ some i)
unfolding is_index parse_index is_space
parse_index-is_index String.[] h = cc
parse_index-is_index (String.◌∷◌ c s) h =
    let digit : is_digit c ≡ true = ground arith in
    let text : is_space c ≡ false = ground arith in
    let minus : nat_beq (code c) b'-' ≡ false = ground arith in
    let plus : nat_beq (code c) b'+' ≡ false = ground arith in
    let (n, p) = read_digits_total (0 * 10 + (code c - b'0')) s in
    (n, rw (text, minus, plus, digit, read_signed, read_digits) p)

-- The two segments name different keys of an object, and different elements of an array.
pub record Differ (k j : String) : Type 0 where
  pub keys : k ≢ j
  pub elements : (i : ℕ) → parse_index k ≡ some i → parse_index j ≢ some i

-- Neither path leads through the other.
abbrev pub Disjoint : FieldPath → FieldPath → Type 0
Disjoint (k ∷ p) (j ∷ q) = Differ k j ⊎ (k ≡ j) × Disjoint p q
Disjoint _ _ = ⊥

-- A segment that is no index does not lead into an array.
abbrev pub Takes : String → Value → Type 0
Takes k (arr xs) = (i : ℕ) × (parse_index k ≡ some i)
Takes k _ = Unit

abbrev pub IsAddressed : FieldPath → Value → Type 0
IsAddressed [] v = Unit
IsAddressed (k ∷ p) v = Takes k v × IsAddressed p (child k v)

get_field-one : (k : String) (w : Value) → get_field k (field k w no_field) ≡ w
unfolding get_field
get_field-one k w = rw (eq_refl k)

child-new_self : (k : String) (w : Value) → child k (new_container k w) ≡ w
unfolding child new_container put_item item_at
child-new_self k w = elim (Bool-cases (is_index k)) [
  | inl e ↦
      let (i, p) = parse_index-is_index k e in
      rw (e, new_container) (rw p (get_item-set_item_self i w no_item))
  | inr e ↦ rw (e, new_container) (get_field-one k w)
]

child-place_self : (k : String) (w v : Value) → Takes k v → child k (place k w v) ≡ w
unfolding child place
child-place_self k w (arr xs) (i, e) = rw (e, put_item, item_at) (get_item-set_item_self i w xs)
child-place_self k w (obj fs) h = ground (arith, get_field-set_field k k w fs, eq_iff k k)
child-place_self k w undefined h = child-new_self k w
child-place_self k w _ h = child-new_self k w

child-place_missing :
    (k : String) (w : Value) (xs : Items)
    → parse_index k ≡ none
    → child k (place k w (arr xs)) ≡ child k (arr xs)
unfolding child place
child-place_missing k w xs e = rw (e, put_item)

-- A write at `k` is seen at `k`, or changes nothing there.
child-place :
    (k : String) (w v : Value) → (child k (place k w v) ≡ w) ⊎ (child k (place k w v) ≡ child k v)
child-place k w (arr xs) = elim (Option-cases (parse_index k)) [
  | inl e ↦ inr (child-place_missing k w xs e)
  | inr (i, e) ↦ inl (child-place_self k w (arr xs) (i, e))
]
child-place k w v = inl (child-place_self k w v tt)

item_at-put_item_other :
    (k j : String) (w : Value) (xs : Items)
    → Differ k j
    → item_at (parse_index j) (put_item (parse_index k) w xs) ≡ item_at (parse_index j) xs
unfolding item_at put_item
item_at-put_item_other k j w xs d = elim (Option-cases (parse_index k)) [
  | inl e ↦ rw (e, put_item)
  | inr (i, e) ↦ elim (Option-cases (parse_index j)) [
    | inl f ↦ rw (e, f, put_item, item_at)
    | inr (n, f) ↦
        rw (e, f, put_item, item_at)
          (get_item-set_item_other i n w xs (λ q. d.elements i e (f ∙ ap some (sym q))))
  ]
]

item_at-nil : (i : Option ℕ) → item_at i no_item ≡ undefined
unfolding item_at get_item
item_at-nil none = refl
item_at-nil (some i) = refl

child-new_other : (k j : String) (w : Value) → Differ k j → child j (new_container k w) ≡ undefined
unfolding child new_container set_field get_field
child-new_other k j w d = elim (Bool-cases (is_index k)) [
  | inl e ↦
      rw (e, new_container) (item_at-put_item_other k j w no_item d ∙ item_at-nil (parse_index j))
  | inr e ↦
      let other = d.keys in
      rw (e, new_container) (ground (arith, get_field-set_field k j w no_field, eq_iff k j))
]

child-place_other : (k j : String) (w v : Value) → Differ k j → child j (place k w v) ≡ child j v
unfolding child place
child-place_other k j w (arr xs) d = item_at-put_item_other k j w xs d
child-place_other k j w (obj fs) d =
    let other = d.keys in ground (arith, get_field-set_field k j w fs, eq_iff k j)
child-place_other k j w undefined d = child-new_other k j w d
child-place_other k j w _ d = child-new_other k j w d

-- A value that is written through a path is read back through it, if no segment of the path that
-- is no index leads into an array.
pub get_at_path-set_at_path :
    (p : FieldPath) (v d : Value) → IsAddressed p d → get_at_path p (set_at_path p v d) ≡ v
unfolding get_at_path set_at_path
get_at_path-set_at_path [] v d h = refl
get_at_path-set_at_path (k ∷ p) v d (takes, rest) =
    ap (get_at_path p) (child-place_self k (set_at_path p v (child k d)) d takes)
    ∙ get_at_path-set_at_path p v (child k d) rest

-- A write leaves alone what every path that is disjoint from its own leads to.
pub get_at_path-set_at_path_other :
    (p q : FieldPath) (v d : Value)
    → Disjoint p q
    → get_at_path q (set_at_path p v d) ≡ get_at_path q d
unfolding get_at_path set_at_path
get_at_path-set_at_path_other (k ∷ p) (j ∷ q) v d (inl other) =
    ap (get_at_path q) (child-place_other k j (set_at_path p v (child k d)) d other)
get_at_path-set_at_path_other (k ∷ p) (j ∷ q) v d (inr (same, rest)) =
    let w = set_at_path p v (child k d) in
    elim (child-place k w d) [
      | inl e ↦
          rw (sym same)
            (ap (get_at_path q) e ∙ get_at_path-set_at_path_other p q v (child k d) rest)
      | inr e ↦ rw (sym same) (ap (get_at_path q) e)
    ]
get_at_path-set_at_path_other [] q v d h = elim h [ ]
get_at_path-set_at_path_other (k ∷ p) [] v d h = elim h [ ]

-- Every segment of the path leads from an object, or from an array by an index.
abbrev pub LeadsOn : String → Value → Type 0
LeadsOn k (arr xs) = (i : ℕ) × (parse_index k ≡ some i)
LeadsOn k (obj fs) = Unit
LeadsOn k _ = ⊥

abbrev pub HasContainers : FieldPath → Value → Type 0
HasContainers [] v = Unit
HasContainers (k ∷ p) v = LeadsOn k v × HasContainers p (child k v)

LeadsOn-Takes : (k : String) (v : Value) → LeadsOn k v → Takes k v
LeadsOn-Takes k (arr xs) h = h
LeadsOn-Takes k (obj fs) h = tt
LeadsOn-Takes k _ h = elim h [ ]

LeadsOn-place : (k j : String) (w v : Value) → LeadsOn k v → LeadsOn k (place j w v)
unfolding place
LeadsOn-place k j w (arr xs) h = h
LeadsOn-place k j w (obj fs) h = tt
LeadsOn-place k j w _ h = elim h [ ]

pub HasContainers-IsAddressed : (p : FieldPath) (v : Value) → HasContainers p v → IsAddressed p v
HasContainers-IsAddressed [] v h = tt
HasContainers-IsAddressed (k ∷ p) v (leads, rest) =
    (LeadsOn-Takes k v leads, HasContainers-IsAddressed p (child k v) rest)

pub HasContainers-set_at_path :
    (p q : FieldPath) (v d : Value)
    → Disjoint q p
    → HasContainers p d
    → HasContainers p (set_at_path q v d)
unfolding set_at_path
HasContainers-set_at_path (k ∷ p) (j ∷ q) v d (inl other) (leads, rest) = (
  LeadsOn-place k j (set_at_path q v (child j d)) d leads,
  subst (HasContainers p) (sym (child-place_other j k (set_at_path q v (child j d)) d other)) rest,
)
HasContainers-set_at_path (k ∷ p) (j ∷ q) v d (inr (same, apart)) (leads, rest) =
    let w = set_at_path q v (child j d) in
    let here : HasContainers p (child j d) =
      subst (λ i. HasContainers p (child i d)) (sym same) rest in
    let deeper : HasContainers p (child j (place j w d)) = elim (child-place j w d) [
      | inl e ↦
          subst (HasContainers p) (sym e) (HasContainers-set_at_path p q v (child j d) apart here)
      | inr e ↦ subst (HasContainers p) (sym e) here
    ] in
    (LeadsOn-place k j w d leads, subst (λ i. HasContainers p (child i (place j w d))) same deeper)
HasContainers-set_at_path [] q v d h c = tt
HasContainers-set_at_path (k ∷ p) [] v d h c = elim h [ ]
