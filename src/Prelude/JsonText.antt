-- ===== src/Prelude/JsonText.antt =====
-- A way to write a JSON value as a text and read it back, for the tests: a program for a stack, two
-- characters for each instruction, of which the second one is the operand.
use Prim.Native.Nat.{ℕ, zero, suc}
use Prim.Native.Char.{Char, code}
use Prim.Native.String.{String, [], ◌∷◌}
use mathlib.Core.Path.{◌≡◌, refl, ◌∙◌, ap}
use mathlib.Core.Bool.{Bool, true, false}
use mathlib.Core.Option.{Option, none, some}
use mathlib.Core.List.{List, ◌∷◌, []}
use apply_agent.Prelude.Int.{pos, negsuc}
use apply_agent.Prelude.Tests.{nat_beq, if◌then◌else◌}
use apply_agent.Prelude.JsonValue.{
  Json, null, bool, num, str, arr, obj, Items, nil, cons, Fields, end, field, Host,
}

pub data Slot : Type 0 where
  item : Json → Slot
  text : String → Slot
  number : ℕ → Slot
  items : Items → Slot
  fields : Fields → Slot

abbrev Stack : Type 0
Stack = List Slot

abbrev on_number : (ℕ → Slot) → Stack → Stack
on_number f (number n ∷ s) = f n ∷ s
on_number f s = s

abbrev on_text : (String → Slot) → Stack → Stack
on_text f (text t ∷ s) = f t ∷ s
on_text f s = s

abbrev on_items : Stack → Stack
on_items (items xs ∷ s) = item (arr xs) ∷ s
on_items s = s

abbrev on_fields : Stack → Stack
on_fields (fields fs ∷ s) = item (obj fs) ∷ s
on_fields s = s

abbrev add_item : Stack → Stack
add_item (item v ∷ items xs ∷ s) = items (cons v xs) ∷ s
add_item s = s

abbrev add_field : Stack → Stack
add_field (item v ∷ text k ∷ fields fs ∷ s) = fields (field k v fs) ∷ s
add_field s = s

abbrev is : Char → ℕ → Bool
is m n = nat_beq (code m) n

abbrev op : Char → Char → Stack → Stack
op m c s =
    if is m b'n'
    then item null ∷ s
    else if is m b't'
    then item (bool true) ∷ s
    else if is m b'f'
    then item (bool false) ∷ s
    else if is m b'0'
    then number 0 ∷ s
    else if is m b'+'
    then on_number (λ n. number (suc n)) s
    else if is m b'p'
    then on_number (λ n. item (num (pos n))) s
    else if is m b'm'
    then on_number (λ n. item (num (negsuc n))) s
    else if is m b'e'
    then text [] ∷ s
    else if is m b'x'
    then on_text (λ t. text (c ∷ t)) s
    else if is m b's'
    then on_text (λ t. item (str t)) s
    else if is m b'['
    then items nil ∷ s
    else if is m b','
    then add_item s
    else if is m b'a'
    then on_items s
    else if is m b'{'
    then fields end ∷ s
    else if is m b':'
    then add_field s
    else on_fields s

abbrev run : String → Stack → Stack
run [] s = s
run (m ∷ []) s = s
run (m ∷ c ∷ k) s = run k (op m c s)

abbrev ins : Char → String → String
ins m k = m ∷ "." ∷ k

abbrev put_number : ℕ → String → String
put_number zero k = ins "0" k
put_number (suc n) k = put_number n (ins "+" k)

abbrev put_text : String → String → String
put_text [] k = ins "e" k
put_text (c ∷ t) k = put_text t ("x" ∷ c ∷ k)

-- What is put stands in front of the second text.
mutual
  put_json : Json → String → String
  put_json null k = ins "n" k
  put_json (bool true) k = ins "t" k
  put_json (bool false) k = ins "f" k
  put_json (num (pos n)) k = put_number n (ins "p" k)
  put_json (num (negsuc n)) k = put_number n (ins "m" k)
  put_json (str t) k = put_text t (ins "s" k)
  put_json (arr xs) k = put_items xs (ins "a" k)
  put_json (obj fs) k = put_fields fs (ins "o" k)

  put_items : Items → String → String
  put_items nil k = ins "[" k
  put_items (cons v xs) k = put_items xs (put_json v (ins "," k))

  put_fields : Fields → String → String
  put_fields end k = ins "{" k
  put_fields (field name v fs) k = put_fields fs (put_text name (put_json v (ins ":" k)))

run-put_number : (n : ℕ) (k : String) (s : Stack) → run (put_number n k) s ≡ run k (number n ∷ s)
run-put_number zero k s = refl
run-put_number (suc n) k s = run-put_number n (ins "+" k) s

run-put_text : (t k : String) (s : Stack) → run (put_text t k) s ≡ run k (text t ∷ s)
run-put_text [] k s = refl
run-put_text (c ∷ t) k s = run-put_text t ("x" ∷ c ∷ k) s

mutual
  unfolding put_json put_items put_fields

  run-put_json : (v : Json) (k : String) (s : Stack) → run (put_json v k) s ≡ run k (item v ∷ s)
  run-put_json null k s = refl
  run-put_json (bool true) k s = refl
  run-put_json (bool false) k s = refl
  run-put_json (num (pos n)) k s = run-put_number n (ins "p" k) s
  run-put_json (num (negsuc n)) k s = run-put_number n (ins "m" k) s
  run-put_json (str t) k s = run-put_text t (ins "s" k) s
  run-put_json (arr xs) k s = run-put_items xs (ins "a" k) s
  run-put_json (obj fs) k s = run-put_fields fs (ins "o" k) s

  run-put_items :
      (xs : Items) (k : String) (s : Stack) → run (put_items xs k) s ≡ run k (items xs ∷ s)
  run-put_items nil k s = refl
  run-put_items (cons v xs) k s =
      run-put_items xs (put_json v (ins "," k)) s ∙ run-put_json v (ins "," k) (items xs ∷ s)

  run-put_fields :
      (fs : Fields) (k : String) (s : Stack) → run (put_fields fs k) s ≡ run k (fields fs ∷ s)
  run-put_fields end k s = refl
  run-put_fields (field name v fs) k s =
      run-put_fields fs (put_text name (put_json v (ins ":" k))) s
      ∙ run-put_text name (put_json v (ins ":" k)) (fields fs ∷ s)
      ∙ run-put_json v (ins ":" k) (text name ∷ fields fs ∷ s)

abbrev top : Stack → Option Json
top (item v ∷ []) = some v
top s = none

unfoldable pub text_host : Host
unfolding put_json
text_host = record { parse = λ raw. top (run raw []); stringify = λ v. put_json v [] }

pub parse-stringify_text : (v : Json) → text_host.parse (text_host.stringify v) ≡ some v
unfolding text_host
parse-stringify_text v = ap top (run-put_json v [] [])
