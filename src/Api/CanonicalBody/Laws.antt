-- ===== src/Api/CanonicalBody/Laws.antt =====
-- The canonical body does not depend on the order of the keys, at any depth.
use apply_agent.Prelude.{
  String, Bool-cases, inl, inr, ◌≡◌, ◌≢◌, refl, sym, ap, ◌∙◌, true, false, some, Json, arr, obj,
  Items, nil, cons, Fields, end, field, Host, is_empty, is_empty_iff, arith,
}
use apply_agent.Prelude.Order.{
  text_less, text_less-Trichotomy, text_less_trans, same, before, after,
}
use apply_agent.Api.CanonicalBody.{
  insert_field, sort_keys, sort_items, sort_fields, canonicalize_body,
}

-- The same value but for the order of keys. Elements of arrays stay where they are.
mutual
  pub data Reordered : Json → Json → Type 0 where
    as_is : (v : Json) → Reordered v v
    in_array : {xs ys : Items} → ReorderedItems xs ys → Reordered (arr xs) (arr ys)
    in_object : {fs gs : Fields} → ReorderedFields fs gs → Reordered (obj fs) (obj gs)

  pub data ReorderedItems : Items → Items → Type 0 where
    no_items : ReorderedItems nil nil
    item :
        {v w : Json} {xs ys : Items}
        → Reordered v w
        → ReorderedItems xs ys
        → ReorderedItems (cons v xs) (cons w ys)

  pub data ReorderedFields : Fields → Fields → Type 0 where
    no_fields : ReorderedFields end end
    keep :
        (k : String) {v w : Json} {fs gs : Fields}
        → Reordered v w
        → ReorderedFields fs gs
        → ReorderedFields (field k v fs) (field k w gs)
    swap :
        (k j : String) (v w : Json) (fs : Fields)
        → k ≢ j
        → ReorderedFields (field k v (field j w fs)) (field j w (field k v fs))
    chain :
        {fs gs hs : Fields} → ReorderedFields fs gs → ReorderedFields gs hs → ReorderedFields fs hs

not_before : (i k j : String) → text_less i k ≡ true → text_less i j ≡ false → text_less j k ≡ true
not_before i k j p q = elim (text_less-Trichotomy i j) [
  | same e ↦ rw (sym e) p
  | before a b ↦ cc
  | after a b ↦ text_less_trans j i k b p
]

insert_field_comm :
    (k j : String) (v w : Json) (fs : Fields)
    → k ≢ j
    → insert_field k v (insert_field j w fs) ≡ insert_field j w (insert_field k v fs)
unfolding insert_field
insert_field_comm k j v w end d = elim (text_less-Trichotomy k j) [
  | same e ↦ absurd (d e)
  | before a b ↦ rw (a, b)
  | after a b ↦ rw (a, b)
]
insert_field_comm k j v w (field i x fs) d = elim (Bool-cases (text_less i k)) [
  | inl p ↦ elim (Bool-cases (text_less i j)) [
    | inl q ↦ rw (p, q, p, insert_field_comm k j v w fs d)
    | inr q ↦ rw (p, q, not_before i k j p q, p)
  ]
  | inr p ↦ elim (Bool-cases (text_less i j)) [
    | inl q ↦ rw (p, q, not_before i j k q p, p)
    | inr q ↦ elim (text_less-Trichotomy k j) [
      | same e ↦ absurd (d e)
      | before a b ↦ rw (p, q, a, b)
      | after a b ↦ rw (p, q, a, b, p)
    ]
  ]
]

mutual
  unfolding sort_keys sort_items sort_fields

  sort_keys_eq : {v w : Json} → Reordered v w → sort_keys v ≡ sort_keys w
  sort_keys_eq (as_is v) = refl
  sort_keys_eq (in_array r) = ap arr (sort_items_eq r)
  sort_keys_eq (in_object r) = ap obj (sort_fields_eq r)

  sort_items_eq : {xs ys : Items} → ReorderedItems xs ys → sort_items xs ≡ sort_items ys
  sort_items_eq no_items = refl
  sort_items_eq (item r rs) = rw (sort_keys_eq r, sort_items_eq rs)

  sort_fields_eq : {fs gs : Fields} → ReorderedFields fs gs → sort_fields fs ≡ sort_fields gs
  sort_fields_eq no_fields = refl
  sort_fields_eq (keep k r rs) = rw (sort_keys_eq r, sort_fields_eq rs)
  sort_fields_eq (swap k j v w fs d) =
      insert_field_comm k j (sort_keys v) (sort_keys w) (sort_fields fs) d
  sort_fields_eq (chain r s) = sort_fields_eq r ∙ sort_fields_eq s

-- Two bodies, neither empty, that parse to JSON values which differ only in the order of object
-- keys, at any depth, have the same canonical form.
pub canonicalize_body-Reordered :
    (host : Host) (raw other : String) {v w : Json}
    → host.parse raw ≡ some v
    → host.parse other ≡ some w
    → raw ≢ ""
    → other ≢ ""
    → Reordered v w
    → canonicalize_body host raw ≡ canonicalize_body host other
unfolding canonicalize_body
canonicalize_body-Reordered host raw other p q full full' r =
    let a : is_empty raw ≡ false = ground (arith, is_empty_iff raw) in
    let b : is_empty other ≡ false = ground (arith, is_empty_iff other) in
    rw (a, b, p, q, sort_keys_eq r)
