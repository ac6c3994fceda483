-- ===== src/Web/ResumeEdit/Document.antt =====
-- use-resume-edit.ts: the document that the editor holds and `getAtPath`, `setAtPath` on it. A path
-- is the list of its segments. An index that is no natural number, such as `parseInt("x")`, names a
-- property of the array object that is no element; writes to it are left out, as JSON leaves them.
pub mod Laws
use Prim.Native.Char.{Char, code}
use apply_agent.Prelude.{
  ℕ, zero, suc, ◌+◌, ◌-◌, ◌*◌, String, ◌==◌, Bool, true, false, ◌&&◌, ◌||◌, not, Option, none, some,
  List, [], ◌∷◌, ℤ, nat_beq, if◌then◌else◌, get_or_else, is_digit, is_space, is_empty, trim_start,
  starts_with,
}

-- A JavaScript value; the holes of an array are `undefined`.
mutual
  pub data Value : Type 0 where
    undefined : Value
    null : Value
    bool : Bool → Value
    num : ℤ → Value
    str : String → Value
    obj : Fields → Value
    arr : Items → Value

  pub data Fields : Type 0 where
    no_field : Fields
    field : String → Value → Fields → Fields

  pub data Items : Type 0 where
    no_item : Items
    item : Value → Items → Items

abbrev pub FieldPath : Type 0
FieldPath = List String

-- `path.split(".")`; `part` is what stands before the next dot.
split_dots : String → List String
split_dots String.[] = "" ∷ []
split_dots (String.◌∷◌ c s) = elim (split_dots s) [
  | [] ↦ []
  | part ∷ parts ↦ if nat_beq (code c) b'.' then "" ∷ part ∷ parts else String.◌∷◌ c part ∷ parts
]

-- The digits in front, in base ten; `none` if there is none.
read_digits : Option ℕ → String → Option ℕ
read_digits acc String.[] = acc
read_digits acc (String.◌∷◌ c s) =
    let rest = read_digits (some (get_or_else acc 0 * 10 + (code c - b'0'))) s in
    if is_digit c then rest else acc

-- The sign of `parseInt`: of the negative numbers only -0 is an index.
read_signed : String → Option ℕ
read_signed String.[] = none
read_signed (String.◌∷◌ c s) =
    if nat_beq (code c) b'-'
    then elim (read_digits none s) [ some zero ↦ some 0 | _ ↦ none ]
    else if nat_beq (code c) b'+'
    then read_digits none s
    else read_digits none (String.◌∷◌ c s)

-- `Number.parseInt(key, 10)`, where it is an index
unfoldable pub parse_index : String → Option ℕ
unfolding read_signed read_digits is_digit is_space trim_start
parse_index key = read_signed (trim_start key)

all_digits : String → Bool
all_digits String.[] = true
all_digits (String.◌∷◌ c s) = is_digit c && all_digits s

-- `/^\d+$/.test(key)`
unfoldable pub is_index : String → Bool
unfolding all_digits is_digit
is_index key = not (is_empty key) && all_digits key

unfoldable pub get_item : ℕ → Items → Value
get_item n no_item = undefined
get_item zero (item x xs) = x
get_item (suc n) (item x xs) = get_item n xs

-- A write past the end leaves holes.
unfoldable pub set_item : ℕ → Value → Items → Items
set_item zero v no_item = item v no_item
set_item zero v (item x xs) = item v xs
set_item (suc n) v no_item = item undefined (set_item n v no_item)
set_item (suc n) v (item x xs) = item x (set_item n v xs)

unfoldable pub get_field : String → Fields → Value
get_field k no_field = undefined
get_field k (field j v fs) = let rest = get_field k fs in if j == k then v else rest

-- `{ ...obj, [key]: value }`
unfoldable pub set_field : String → Value → Fields → Fields
set_field k v no_field = field k v no_field
set_field k v (field j w fs) =
    let rest = set_field k v fs in if j == k then field j v fs else field j w rest

item_at : Option ℕ → Items → Value
item_at none xs = undefined
item_at (some i) xs = get_item i xs

-- One round of `getAtPath`
unfoldable pub child : String → Value → Value
unfolding item_at
child k (arr xs) = item_at (parse_index k) xs
child k (obj fs) = get_field k fs
child k _ = undefined

-- `getAtPath`
unfoldable pub get_at_path : FieldPath → Value → Value
get_at_path [] v = v
get_at_path (k ∷ p) v = get_at_path p (child k v)

put_item : Option ℕ → Value → Items → Items
put_item none w xs = xs
put_item (some i) w xs = set_item i w xs

new_container : String → Value → Value
new_container k w =
    if is_index k then arr (put_item (parse_index k) w no_item) else obj (field k w no_field)

-- What `recur` returns, from the value of the next level
unfoldable pub place : String → Value → Value → Value
unfolding put_item new_container
place k w (arr xs) = arr (put_item (parse_index k) w xs)
place k w (obj fs) = obj (set_field k w fs)
place k w _ = new_container k w

-- `setAtPath`
unfoldable pub set_at_path : FieldPath → Value → Value → Value
set_at_path [] v node = v
set_at_path (k ∷ p) v node = place k (set_at_path p v (child k node)) node

strip_fields : Fields → Fields
strip_fields no_field = no_field
strip_fields (field k v fs) =
    let rest = strip_fields fs in if starts_with k "_" then rest else field k v rest

-- `stripEnvelope`
unfoldable pub strip_envelope : Value → Value
unfolding strip_fields
strip_envelope (obj fs) = obj (strip_fields fs)
strip_envelope v = v

-- The paths that the code keeps as one text each
unfoldable pub path_of : String → FieldPath
unfolding split_dots
path_of path = split_dots path
