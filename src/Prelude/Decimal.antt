-- ===== src/Prelude/Decimal.antt =====
-- The decimal text of a number has only digits, and they are read back as the number.
use Prim.Native.Nat.{ℕ, zero, suc, ◌+◌, ◌-◌, ◌*◌, ◌/◌, ◌%◌, ◌<◌}
use Prim.Native.Char.{code}
use Prim.Native.String.{String, [], ◌∷◌, ◌++◌}
use mathlib.Core.Path.{◌≡◌, refl, ◌∙◌}
use mathlib.Core.Logic.{◌≢◌, inl, inr}
use mathlib.Core.Bool.{Bool, true, false}
use native.Mathlib.Omega.{arith}
use text.Mathlib.TextLemmas.{nil-append, cons-append}
use apply_agent.Prelude.Tests.{ltb, nat_beq, if◌then◌else◌, Bool-cases, ltb→lt}
use apply_agent.Prelude.Text.{is_digit, digit, decimal_from, to_decimal}

abbrev pub IsDigits : String → Type 0
IsDigits [] = Unit
IsDigits (c ∷ s) = (is_digit c ≡ true) × IsDigits s

IsDigits-append : (s t : String) → IsDigits s → IsDigits t → IsDigits (s ++ t)
IsDigits-append [] t h k = rw (nil-append t) k
IsDigits-append (c ∷ s) t h k = rw (cons-append c s t) (h.0, IsDigits-append s t h.1 k)

-- The number that a text of digits continues
abbrev pub read_from : ℕ → String → ℕ
read_from acc [] = acc
read_from acc (c ∷ s) = read_from (acc * 10 + (code c - 48)) s

read_from-append : (acc : ℕ) (s t : String) → read_from acc (s ++ t) ≡ read_from (read_from acc s) t
read_from-append acc [] t = rw (nil-append t) refl
read_from-append acc (c ∷ s) t =
    rw (cons-append c s t) (read_from-append (acc * 10 + (code c - 48)) s t)

pick-IsDigits : (b : Bool) (s t : String) → IsDigits s → IsDigits t → IsDigits (if b then s else t)
pick-IsDigits true s t h k = h
pick-IsDigits false s t h k = k

IsDigits-digit : (n : ℕ) → IsDigits (digit n)
unfolding digit is_digit
IsDigits-digit n =
    pick-IsDigits (nat_beq n 0) "0" _ (refl, tt)
      (pick-IsDigits (nat_beq n 1) "1" _ (refl, tt)
        (pick-IsDigits (nat_beq n 2) "2" _ (refl, tt)
          (pick-IsDigits (nat_beq n 3) "3" _ (refl, tt)
            (pick-IsDigits (nat_beq n 4) "4" _ (refl, tt)
              (pick-IsDigits (nat_beq n 5) "5" _ (refl, tt)
                (pick-IsDigits (nat_beq n 6) "6" _ (refl, tt)
                  (pick-IsDigits (nat_beq n 7) "7" _ (refl, tt)
                    (pick-IsDigits (nat_beq n 8) "8" _ (refl, tt) (refl, tt)))))))))

equal : (n k : ℕ) → nat_beq n k ≡ true → n ≡ k
equal n k e = ground arith

different : (n k : ℕ) → nat_beq n k ≡ false → n ≢ k
different n k e = ground arith

pick_read :
    (acc n k : ℕ) (s t : String)
    → read_from acc s ≡ acc * 10 + k
    → (n ≢ k → read_from acc t ≡ acc * 10 + n)
    → read_from acc (if nat_beq n k then s else t) ≡ acc * 10 + n
pick_read acc n k s t h rest = elim (Bool-cases (nat_beq n k)) [
  | inl e ↦ rw e (h ∙ omega (arith, equal n k e))
  | inr e ↦ rw e (rest (different n k e))
]

read_from-digit : (acc n : ℕ) → n < 10 → read_from acc (digit n) ≡ acc * 10 + n
unfolding digit
read_from-digit acc n h = pick_read acc n 0 "0" _ refl (λ n0. pick_read acc n 1 "1" _ refl (λ n1.
    pick_read acc n 2 "2" _ refl (λ n2. pick_read acc n 3 "3" _ refl (λ n3.
      pick_read acc n 4 "4" _ refl (λ n4. pick_read acc n 5 "5" _ refl (λ n5.
        pick_read acc n 6 "6" _ refl (λ n6.
          pick_read acc n 7 "7" _ refl
            (λ n7. pick_read acc n 8 "8" _ refl (λ n8. omega arith)))))))))

IsDigits-decimal_from : (fuel n : ℕ) → IsDigits (decimal_from fuel n)
unfolding decimal_from
IsDigits-decimal_from zero n = tt
IsDigits-decimal_from (suc fuel) n = elim (Bool-cases (ltb n 10)) [
  | inl e ↦ rw e (IsDigits-digit n)
  | inr e ↦ rw e (
      IsDigits-append (decimal_from fuel (n / 10)) (digit (n % 10))
        (IsDigits-decimal_from fuel (n / 10)) (IsDigits-digit (n % 10)))
]

pub IsDigits-to_decimal : (n : ℕ) → IsDigits (to_decimal n)
unfolding to_decimal
IsDigits-to_decimal n = IsDigits-decimal_from (suc n) n

read_from-decimal_from : (fuel n : ℕ) → n < fuel → read_from 0 (decimal_from fuel n) ≡ n
unfolding decimal_from
read_from-decimal_from zero n h = absurd (omega arith)
read_from-decimal_from (suc fuel) n h = elim (Bool-cases (ltb n 10)) [
  | inl e ↦ rw (e, read_from-digit 0 n (ltb→lt n 10 e)) (omega arith)
  | inr e ↦
      let rest = read_from-decimal_from fuel (n / 10) (ground arith) in
      rw e (
        read_from-append 0 (decimal_from fuel (n / 10)) (digit (n % 10))
        ∙ read_from-digit (read_from 0 (decimal_from fuel (n / 10))) (n % 10) (omega arith)
        ∙ omega (arith, rest))
]

pub read_from-to_decimal : (n : ℕ) → read_from 0 (to_decimal n) ≡ n
unfolding to_decimal
read_from-to_decimal n = read_from-decimal_from (suc n) n (omega arith)
