-- ===== src/Base/Decimal.antt =====
-- strconv.Itoa and strconv.Atoi on decimal text.
use Prim.Native.Nat.{ℕ, zero, suc, ◌+◌, ◌-◌, ◌*◌, ◌/◌, ◌%◌, ◌^◌, ◌≤◌, ◌<◌}
use mathlib.Core.Path.{◌≡◌, refl, ◌∙◌}
use mathlib.Core.Bool.{Bool, true, false, ◌&&◌}
use mathlib.Core.Option.{Option, none, some}
use mathlib.Core.List.{[], ◌∷◌}
use native.Mathlib.Omega.{arith}
use openbao_kubernetes_kms.Base.Tests.{ltb, leb, ◌==◌, if◌then◌else◌, Bool-cases}
use openbao_kubernetes_kms.Base.Bytes.{Text}
use openbao_kubernetes_kms.Base.Lists.{All}
use openbao_kubernetes_kms.Base.Int.{ℤ, pos, negsuc, pos_part, neg_part}
use mathlib.Core.Logic.{inl, inr}

-- The first value that an int cannot hold.
abbrev pub int_limit : ℕ
int_limit = 2 ^ 63

-- The decimal digits of `n` in front of `acc`; `f` rounds are enough for `n < f`.
unfoldable digits_onto : ℕ → ℕ → Text → Text
digits_onto zero n acc = acc
digits_onto (suc f) n acc =
    let rest = digits_onto f (n / 10) ((48 + n % 10) ∷ acc) in
    if ltb n 10 then (48 + n) ∷ acc else rest

print_nat : ℕ → Text
unfolding digits_onto
print_nat n = digits_onto (suc n) n []

unfoldable pub itoa : ℤ → Text
unfolding print_nat
itoa (pos n) = print_nat n
itoa (negsuc n) = 45 ∷ print_nat (suc n)

-- One digit more; a byte that is no digit stops the parse.
unfoldable parse_onto : ℕ → Text → Option ℕ
parse_onto v [] = some v
parse_onto v (c ∷ cs) =
    let rest = parse_onto (10 * v + (c - 48)) cs in if leb 48 c && leb c 57 then rest else none

parse_nat : Text → Option ℕ
unfolding parse_onto
parse_nat [] = none
parse_nat (c ∷ cs) = parse_onto 0 (c ∷ cs)

-- A value of either sign, if it is in range.
in_range : Bool → ℕ → Option ℤ
in_range false n = if ltb n int_limit then some (pos n) else none
in_range true zero = some (pos zero)
in_range true (suc n) = if ltb n int_limit then some (negsuc n) else none

abbrev then_range : Option ℕ → Bool → Option ℤ
then_range none sign = none
then_range (some n) sign = in_range sign n

unfoldable pub atoi : Text → Option ℤ
unfolding parse_nat in_range
atoi [] = none
atoi (c ∷ cs) =
    if c == 45
    then then_range (parse_nat cs) true
    else if c == 43
    then then_range (parse_nat cs) false
    else then_range (parse_nat (c ∷ cs)) false

-- One digit is read as its value.
parse_onto-digit :
    (v d n : ℕ) (acc : Text)
    → d < 10
    → 10 * v + d ≡ n
    → parse_onto v ((48 + d) ∷ acc) ≡ parse_onto n acc
unfolding parse_onto
parse_onto-digit v d n acc h e =
    let e' : 10 * v + (48 + d - 48) ≡ n = omega arith in rw e' (ground arith)

-- What the digits of `n` parse to, whatever follows them.
parse_onto-digits_onto :
    (f n : ℕ) (acc : Text) → n < f → parse_onto 0 (digits_onto f n acc) ≡ parse_onto n acc
unfolding digits_onto
parse_onto-digits_onto zero n acc h = absurd (omega arith)
parse_onto-digits_onto (suc f) n acc h = elim (Bool-cases (ltb n 10)) [
  | inl small ↦ rw small (parse_onto-digit 0 n n acc (ground arith) (omega arith))
  | inr more ↦ rw more (
      parse_onto-digits_onto f (n / 10) _ (ground arith)
      ∙ parse_onto-digit (n / 10) (n % 10) n acc (omega arith) (omega arith))
]

-- Digits begin with a digit.
digits_onto-head :
    (f n : ℕ) (acc : Text)
    → n < f
    → (c : ℕ) × (cs : Text) × (digits_onto f n acc ≡ c ∷ cs) × (48 ≤ c) × (c ≤ 57)
unfolding digits_onto
digits_onto-head zero n acc h = absurd (omega arith)
digits_onto-head (suc f) n acc h = elim (Bool-cases (ltb n 10)) [
  | inl small ↦ rw small (48 + n, acc, refl, omega arith, ground arith)
  | inr more ↦ rw more (digits_onto-head f (n / 10) _ (ground arith))
]

parse_nat-print_nat : (n : ℕ) → parse_nat (print_nat n) ≡ some n
unfolding parse_nat print_nat
parse_nat-print_nat n =
    let (c, cs, e, _, _) = digits_onto-head (suc n) n [] (omega arith) in
    let p = parse_onto-digits_onto (suc n) n [] (omega arith) in rw e (rw e at p)

-- Text that begins with a digit is parsed with no sign.
atoi-digit :
    (c : ℕ) (cs : Text) (n : ℕ)
    → 48 ≤ c
    → c ≤ 57
    → n < int_limit
    → parse_nat (c ∷ cs) ≡ some n
    → atoi (c ∷ cs) ≡ some (pos n)
unfolding atoi
atoi-digit c cs n lo hi h p =
    let a : (c == 45) ≡ false = ground arith in
    let b : (c == 43) ≡ false = ground arith in
    let r : ltb n int_limit ≡ true = ground arith in rw (a, b, p, r)

atoi-print_nat : (n : ℕ) → n < int_limit → atoi (print_nat n) ≡ some (pos n)
unfolding atoi
atoi-print_nat n h =
    let (c, cs, e, lo, hi) = digits_onto-head (suc n) n [] (omega arith) in
    let p = parse_nat-print_nat n in
    let started : print_nat n ≡ c ∷ cs = unfold print_nat in e in
    rw started (atoi-digit c cs n lo hi h (rw started at p))

-- Every int is read back from its decimal text.
pub atoi-itoa : (v : ℤ) → pos_part v < int_limit → neg_part v ≤ int_limit → atoi (itoa v) ≡ some v
unfolding atoi itoa
atoi-itoa (pos n) h k = atoi-print_nat n h
atoi-itoa (negsuc n) h k =
    let r : ltb n int_limit ≡ true = ground arith in rw (parse_nat-print_nat, r)

digits_onto_bytes :
    (f n : ℕ) (acc : Text) → All (λ c. 0 < c) acc → All (λ c. 0 < c) (digits_onto f n acc)
unfolding digits_onto
digits_onto_bytes zero n acc h = h
digits_onto_bytes (suc f) n acc h = elim (Bool-cases (ltb n 10)) [
  | inl small ↦ rw small (omega arith, h)
  | inr more ↦ rw more (digits_onto_bytes f (n / 10) _ (omega arith, h))
]

-- Decimal text has no zero byte.
pub itoa_bytes : (v : ℤ) → All (λ c. 0 < c) (itoa v)
unfolding itoa print_nat
itoa_bytes (pos n) = digits_onto_bytes (suc n) n [] tt
itoa_bytes (negsuc n) = (omega arith, digits_onto_bytes (suc (suc n)) (suc n) [] tt)

-- Decimal text is not empty.
pub itoa_not_empty : (v : ℤ) → (b : ℕ) × (bs : Text) × (itoa v ≡ b ∷ bs)
unfolding itoa print_nat
itoa_not_empty (pos n) =
    let (b, bs, e, _, _) = digits_onto-head (suc n) n [] (omega arith) in (b, bs, e)
itoa_not_empty (negsuc n) = (45, print_nat (suc n), refl)
