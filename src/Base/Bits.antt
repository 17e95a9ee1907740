-- ===== src/Base/Bits.antt =====
-- The bitwise operators of C as digit recursions: laws at every width.
use Prim.Native.Nat.{digits, bitwise, differ, bit_and-bitwise, bit_or-bitwise, bit_xor-bitwise}
use mathlib.Core.WellFounded
use native.Mathlib.Nat.{
  le_refl, pow-suc, one-le-pow, div-add-mod', mod-lt, mod-eq_of_lt, div-eq_of_lt,
}
use native.Mathlib.Nat.{mul-add-div_right, mul-add-mod_self_right}
use vitarecomp.Base.Order.{lt_wf}
use vitarecomp.Base.Names.{
  ℕ, zero, suc, ◌+◌, ◌-◌, ◌*◌, ◌/◌, ◌%◌, ◌^◌, ◌≤◌, ◌<◌, min, max, bit_and, bit_or, bit_xor, ◌≡◌,
  refl, ap, ◌∙◌, arith,
}

-- The fuel of the digit recursion does not matter once it covers the first number.
module _ (z : ℕ → ℕ) (f : ℕ → ℕ → ℕ) where
  digits_enough : (n m a b : ℕ) → a ≤ n → a ≤ m → digits z f n a b ≡ digits z f m a b
  digits_enough n m zero b p q = edge n m
    where
      edge : (n m : ℕ) → digits z f n zero b ≡ digits z f m zero b
      edge zero zero = refl
      edge zero (suc m) = refl
      edge (suc n) zero = refl
      edge (suc n) (suc m) = refl
  digits_enough zero m (suc a) b p q = absurd (omega arith)
  digits_enough (suc n) zero (suc a) b p q = absurd (omega arith)
  digits_enough (suc n) (suc m) (suc a) b p q =
      rw (digits_enough n m (suc a / 2) (b / 2) (omega arith) (omega arith))

  bitwise_digit :
      (a b : ℕ)
      → bitwise z f (suc a) b ≡ bitwise z f (suc a / 2) (b / 2) * 2 + f (suc a % 2) (b % 2)
  bitwise_digit a b =
      omega (arith, digits_enough a (suc a / 2) (suc a / 2) (b / 2) (omega arith) (le_refl _))

pub bit_and_digit : (a b : ℕ) → bit_and a b ≡ bit_and (a / 2) (b / 2) * 2 + min (a % 2) (b % 2)
bit_and_digit zero b = simp bit_and-bitwise (omega arith)
bit_and_digit (suc a) b = simp bit_and-bitwise (bitwise_digit (λ y. 0) min a b)

pub bit_or_digit : (a b : ℕ) → bit_or a b ≡ bit_or (a / 2) (b / 2) * 2 + max (a % 2) (b % 2)
bit_or_digit zero b = simp bit_or-bitwise (omega arith)
bit_or_digit (suc a) b = simp bit_or-bitwise (bitwise_digit (λ y. y) max a b)

pub bit_xor_digit : (a b : ℕ) → bit_xor a b ≡ bit_xor (a / 2) (b / 2) * 2 + differ (a % 2) (b % 2)
bit_xor_digit zero b = simp bit_xor-bitwise (omega arith)
bit_xor_digit (suc a) b = simp bit_xor-bitwise (bitwise_digit (λ y. y) differ a b)

differ_table : (x y : ℕ) → x < 2 → y < 2 → differ x y < 2
differ_table zero y p q = q
differ_table (suc x) zero p q = p
differ_table (suc x) (suc y) p q = differ_table x y (omega arith) (omega arith)

half-pow : (a k : ℕ) → a < 2 ^ suc k → a / 2 < 2 ^ k
half-pow a k h = omega (arith, pow-suc 2 k)

-- An operator given by its action on the lowest digits.
module _ (op g : ℕ → ℕ → ℕ) where
  -- What an operator is: its law on the lowest digits.
  record IsDigitwise : Type 0 where
    digit : (a b : ℕ) → op a b ≡ op (a / 2) (b / 2) * 2 + g (a % 2) (b % 2)
    small : (x y : ℕ) → x < 2 → y < 2 → g x y < 2
    none_set : op 0 0 ≡ 0

  module _ (d : IsDigitwise) where
    op-lt : (k a b : ℕ) → a < 2 ^ k → b < 2 ^ k → op a b < 2 ^ k
    op-lt zero zero zero p q = omega (arith, d.none_set)
    op-lt zero (suc a) b p q = absurd (omega arith)
    op-lt zero zero (suc b) p q = absurd (omega arith)
    op-lt (suc k) a b p q = omega (
      arith,
      pow-suc 2 k,
      d.digit a b,
      d.small (a % 2) (b % 2) (omega arith) (omega arith),
      op-lt k (a / 2) (b / 2) (half-pow a k p) (half-pow b k q),
    )

    double-pow : (q k : ℕ) → q * 2 ^ suc k ≡ q * 2 ^ k * 2
    double-pow q k = omega (arith, ap (λ (t : ℕ). q * t) (pow-suc 2 k))

    op_split :
        (k q r s t : ℕ)
        → r < 2 ^ k
        → t < 2 ^ k
        → op (q * 2 ^ k + r) (s * 2 ^ k + t) ≡ op q s * 2 ^ k + op r t
    op_split zero q zero s zero h i = ground (arith, d.none_set)
    op_split zero q (suc r) s t h i = absurd (omega arith)
    op_split zero q zero s (suc t) h i = absurd (omega arith)
    op_split (suc k) q r s t h i = ground (
      arith,
      d.digit (q * 2 ^ suc k + r) (s * 2 ^ suc k + t),
      d.digit r t,
      double-pow q k,
      double-pow s k,
      double-pow (op q s) k,
      op_split k q (r / 2) s (t / 2) (half-pow r k h) (half-pow t k i),
    )

    -- An operator acts on the digits above and below bit `k` apart.
    op_parts :
        (k a b : ℕ)
        → (op a b / 2 ^ k ≡ op (a / 2 ^ k) (b / 2 ^ k))
          × (op a b % 2 ^ k ≡ op (a % 2 ^ k) (b % 2 ^ k))
    op_parts k a b =
        let pos : 0 < 2 ^ k = one-le-pow k 2 (omega arith) in
        ground (
          arith,
          div-add-mod' a (2 ^ k),
          div-add-mod' b (2 ^ k),
          mod-lt a pos,
          mod-lt b pos,
          op_split k (a / 2 ^ k) (a % 2 ^ k) (b / 2 ^ k) (b % 2 ^ k),
          op-lt k (a % 2 ^ k) (b % 2 ^ k),
          mul-add-div_right pos (op (a / 2 ^ k) (b / 2 ^ k)) (op (a % 2 ^ k) (b % 2 ^ k)),
          div-eq_of_lt {n = op (a % 2 ^ k) (b % 2 ^ k)} {m = 2 ^ k},
          mul-add-mod_self_right (op (a / 2 ^ k) (b / 2 ^ k)) (2 ^ k) (op (a % 2 ^ k) (b % 2 ^ k)),
          mod-eq_of_lt {n = op (a % 2 ^ k) (b % 2 ^ k)} {m = 2 ^ k},
        )

and_op : IsDigitwise bit_and min
and_op = record { digit = bit_and_digit; small = λ x y p q. omega arith; none_set = refl }

or_op : IsDigitwise bit_or max
or_op = record { digit = bit_or_digit; small = λ x y p q. omega arith; none_set = refl }

xor_op : IsDigitwise bit_xor differ
xor_op = record { digit = bit_xor_digit; small = differ_table; none_set = refl }

pub bit_and-lt : (k a b : ℕ) → a < 2 ^ k → b < 2 ^ k → bit_and a b < 2 ^ k
bit_and-lt = op-lt bit_and min and_op

pub bit_or-lt : (k a b : ℕ) → a < 2 ^ k → b < 2 ^ k → bit_or a b < 2 ^ k
bit_or-lt = op-lt bit_or max or_op

pub bit_xor-lt : (k a b : ℕ) → a < 2 ^ k → b < 2 ^ k → bit_xor a b < 2 ^ k
bit_xor-lt = op-lt bit_xor differ xor_op

-- Two fields at once: the operators act on the parts above and below bit `k` apart.
pub bit_and_split :
    (k q r s t : ℕ)
    → r < 2 ^ k
    → t < 2 ^ k
    → bit_and (q * 2 ^ k + r) (s * 2 ^ k + t) ≡ bit_and q s * 2 ^ k + bit_and r t
bit_and_split = op_split bit_and min and_op

pub bit_or_split :
    (k q r s t : ℕ)
    → r < 2 ^ k
    → t < 2 ^ k
    → bit_or (q * 2 ^ k + r) (s * 2 ^ k + t) ≡ bit_or q s * 2 ^ k + bit_or r t
bit_or_split = op_split bit_or max or_op

pub bit_xor_split :
    (k q r s t : ℕ)
    → r < 2 ^ k
    → t < 2 ^ k
    → bit_xor (q * 2 ^ k + r) (s * 2 ^ k + t) ≡ bit_xor q s * 2 ^ k + bit_xor r t
bit_xor_split = op_split bit_xor differ xor_op

pub bit_and-div : (k a b : ℕ) → bit_and a b / 2 ^ k ≡ bit_and (a / 2 ^ k) (b / 2 ^ k)
bit_and-div k a b = (op_parts bit_and min and_op k a b).0

pub bit_or-div : (k a b : ℕ) → bit_or a b / 2 ^ k ≡ bit_or (a / 2 ^ k) (b / 2 ^ k)
bit_or-div k a b = (op_parts bit_or max or_op k a b).0

pub bit_xor-div : (k a b : ℕ) → bit_xor a b / 2 ^ k ≡ bit_xor (a / 2 ^ k) (b / 2 ^ k)
bit_xor-div k a b = (op_parts bit_xor differ xor_op k a b).0

pub bit_and-mod : (k a b : ℕ) → bit_and a b % 2 ^ k ≡ bit_and (a % 2 ^ k) (b % 2 ^ k)
bit_and-mod k a b = (op_parts bit_and min and_op k a b).1

pub bit_or-mod : (k a b : ℕ) → bit_or a b % 2 ^ k ≡ bit_or (a % 2 ^ k) (b % 2 ^ k)
bit_or-mod k a b = (op_parts bit_or max or_op k a b).1

half_induct : (P : ℕ → Type 0) → P 0 → ((n : ℕ) → P (suc n / 2) → P (suc n)) → (n : ℕ) → P n
half_induct P base step n = WellFounded.induction lt_wf {C = P} n go
  where
    go : (n : ℕ) → ((m : ℕ) → m < n → P m) → P n
    go zero ih = base
    go (suc n) ih = step n (ih (suc n / 2) (omega arith))

pub zero-bit_and : (b : ℕ) → bit_and 0 b ≡ 0
zero-bit_and b = bit_and-bitwise 0 b

pub zero-bit_or : (b : ℕ) → bit_or 0 b ≡ b
zero-bit_or b = bit_or-bitwise 0 b

pub zero-bit_xor : (b : ℕ) → bit_xor 0 b ≡ b
zero-bit_xor b = bit_xor-bitwise 0 b

pub bit_and-zero : (a : ℕ) → bit_and a 0 ≡ 0
bit_and-zero =
    half_induct (λ a. bit_and a 0 ≡ 0) refl (λ n ih. omega (arith, bit_and_digit (suc n) 0, ih))

pub bit_or-zero : (a : ℕ) → bit_or a 0 ≡ a
bit_or-zero =
    half_induct (λ a. bit_or a 0 ≡ a) refl (λ n ih. omega (arith, bit_or_digit (suc n) 0, ih))

differ_same : (x : ℕ) → differ x x ≡ 0
differ_same zero = refl
differ_same (suc x) = differ_same x

differ-zero : (x : ℕ) → differ x 0 ≡ x
differ-zero zero = refl
differ-zero (suc x) = refl

differ-one : (x : ℕ) → x < 2 → differ x 1 ≡ 1 - x
differ-one zero h = refl
differ-one (suc zero) h = refl
differ-one (suc (suc x)) h = absurd (omega arith)

pub bit_xor_same : (a : ℕ) → bit_xor a a ≡ 0
bit_xor_same =
    half_induct (λ a. bit_xor a a ≡ 0) refl
      (λ n ih. omega (arith, bit_xor_digit (suc n) (suc n), differ_same (suc n % 2), ih))

pub bit_xor-zero : (a : ℕ) → bit_xor a 0 ≡ a
bit_xor-zero =
    half_induct (λ a. bit_xor a 0 ≡ a) refl
      (λ n ih. omega (arith, bit_xor_digit (suc n) 0, differ-zero (suc n % 2), ih))

-- A mask of ones.
and_ones : (k r : ℕ) → r < 2 ^ k → bit_and r (2 ^ k - 1) ≡ r
and_ones zero zero h = refl
and_ones zero (suc r) h = absurd (omega arith)
and_ones (suc k) r h = ground (
  arith,
  pow-suc 2 k,
  one-le-pow k 2,
  bit_and_digit r (2 ^ suc k - 1),
  and_ones k (r / 2) (half-pow r k h),
)

-- `a & ((1 << k) - 1)` keeps the low `k` bits.
pub bit_and_mask : (k a : ℕ) → bit_and a (2 ^ k - 1) ≡ a % 2 ^ k
bit_and_mask k a = ground (
  arith,
  one-le-pow k 2,
  div-add-mod' a (2 ^ k),
  mod-lt a (one-le-pow k 2 (omega arith)),
  bit_and_split k (a / 2 ^ k) (a % 2 ^ k) 0 (2 ^ k - 1),
  bit_and-zero (a / 2 ^ k),
  and_ones k (a % 2 ^ k),
)

-- `(q << k) | r` of fields that do not overlap is their sum.
pub bit_or_fields : (k q r : ℕ) → r < 2 ^ k → bit_or (q * 2 ^ k) r ≡ q * 2 ^ k + r
bit_or_fields k q r h =
    ground (arith, bit_or_split k q 0 0 r, one-le-pow k 2, bit_or-zero q, zero-bit_or r)

pub bit_or_fields' : (k q r : ℕ) → r < 2 ^ k → bit_or r (q * 2 ^ k) ≡ q * 2 ^ k + r
bit_or_fields' k q r h =
    ground (arith, bit_or_split k 0 r q 0, one-le-pow k 2, zero-bit_or q, bit_or-zero r)

-- `r ^ ones` is the complement.
pub bit_xor_ones : (k r : ℕ) → r < 2 ^ k → bit_xor r (2 ^ k - 1) ≡ 2 ^ k - 1 - r
bit_xor_ones zero zero h = refl
bit_xor_ones zero (suc r) h = absurd (omega arith)
bit_xor_ones (suc k) r h = ground (
  arith,
  pow-suc 2 k,
  one-le-pow k 2,
  bit_xor_digit r (2 ^ suc k - 1),
  differ-one (r % 2),
  bit_xor_ones k (r / 2) (half-pow r k h),
)

pub two_pow_add : (m n : ℕ) → 2 ^ (m + n) ≡ 2 ^ m * 2 ^ n
two_pow_add zero n = ground arith
two_pow_add (suc m) n =
    let e : suc m + n ≡ suc (m + n) = omega arith in
    rw e
      (omega (arith, pow-suc 2 (m + n), two_pow_add m n, ap (λ (t : ℕ). t * 2 ^ n) (pow-suc 2 m)))

pub bit_or_same : (a : ℕ) → bit_or a a ≡ a
bit_or_same =
    half_induct (λ a. bit_or a a ≡ a) refl (λ n ih. omega (arith, bit_or_digit (suc n) (suc n), ih))

pub bit_and_same : (a : ℕ) → bit_and a a ≡ a
bit_and_same =
    half_induct (λ a. bit_and a a ≡ a) refl
      (λ n ih. omega (arith, bit_and_digit (suc n) (suc n), ih))

-- The lowest `n + 1` bits are the lowest one and the `n` above it.
pub mod-pow-suc : (x n : ℕ) → x % 2 ^ suc n ≡ x % 2 + 2 * (x / 2 % 2 ^ n)
mod-pow-suc x n =
    let low : ℕ = x % 2 + 2 * (x / 2 % 2 ^ n) in
    let fits : low < 2 ^ suc n =
      omega (arith, pow-suc 2 n, mod-lt (x / 2) {m = 2 ^ n} (one-le-pow n 2 (omega arith))) in
    let sum : x ≡ x / 2 / 2 ^ n * 2 ^ suc n + low =
      omega
        (arith, ap (λ (t : ℕ). x / 2 / 2 ^ n * t) (pow-suc 2 n), div-add-mod' (x / 2) (2 ^ n)) in
    ap (λ (t : ℕ). t % 2 ^ suc n) sum
    ∙ mul-add-mod_self_right (x / 2 / 2 ^ n) (2 ^ suc n) low
    ∙ mod-eq_of_lt fits

pub pow-add-one : (k : ℕ) → 2 ^ (k + 1) ≡ 2 * 2 ^ k
pow-add-one k = let e : k + 1 ≡ suc k = omega arith in rw e (omega (arith, pow-suc 2 k))
