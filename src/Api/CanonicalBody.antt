-- ===== src/Api/CanonicalBody.antt =====
-- middleware/idempotency.ts: `canonicalizeBody` and its replacer, which sorts the keys of objects.
pub mod Laws
use apply_agent.Prelude.{
  String, Option, none, some, Json, null, bool, num, str, arr, obj, Items, nil, cons, Fields, end,
  field, Host, if◌then◌else◌, is_empty,
}
use apply_agent.Prelude.Order.{text_less}

-- One round of the sort of `Object.keys(value)`, with the values of the keys.
unfoldable pub insert_field : String → Json → Fields → Fields
insert_field k v end = field k v end
insert_field k v (field j w fs) =
    let rest = insert_field k v fs in
    if text_less j k then field j w rest else field k v (field j w fs)

-- `replacerSortingKeys`, which `JSON.stringify` applies to every value on its way down
unfoldable mutual
  pub sort_keys : Json → Json
  sort_keys null = null
  sort_keys (bool b) = bool b
  sort_keys (num n) = num n
  sort_keys (str s) = str s
  sort_keys (arr xs) = arr (sort_items xs)
  sort_keys (obj fs) = obj (sort_fields fs)

  pub sort_items : Items → Items
  sort_items nil = nil
  sort_items (cons x xs) = cons (sort_keys x) (sort_items xs)

  pub sort_fields : Fields → Fields
  sort_fields end = end
  sort_fields (field k v fs) = insert_field k (sort_keys v) (sort_fields fs)

-- `canonicalizeBody`
unfoldable pub canonicalize_body : Host → String → String
canonicalize_body host raw =
    if is_empty raw
    then ""
    else elim (host.parse raw) [ none ↦ raw | some v ↦ host.stringify (sort_keys v) ]
