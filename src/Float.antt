-- ===== src/Float.antt =====
-- Python floats, which the client uses for times and delays, as an interface: the operations that
-- the source calls, and the laws of IEEE doubles that it relies on. NaN is left out (the source
-- computes none), so `<` is a strict weak order, and integers below 2 ** 53 are represented exactly.
use native.Mathlib.Nat.{pow-le-pow_left, pow-le-pow_right}
use modal_client.Prelude.{
  zero, suc, leb, if◌then◌else◌, Option, none, some, ℕ, ◌<◌, ◌≤◌, ◌+◌, ◌-◌, ◌*◌, ◌/◌, ◌^◌, min, ◌≡◌,
  refl, Bool, true, false, not, ◌||◌, ltb, ◌==◌, arith,
}

pub record Floats : Type 1 where
  pub R : Type 0
  pub of_nat : ℕ → R
  pub infinity : R
  pub add : R → R → R
  pub sub : R → R → R
  pub mul : R → R → R
  pub div : R → R → R
  -- `a ** n`, or none where Python raises OverflowError
  pub pow : R → ℕ → Option R
  -- the nearest 32-bit float, which is what a `float` field of a message holds
  pub to_float32 : R → R
  pub lt : R → R → Bool
  pub eq : R → R → Bool
  -- the microseconds of `timedelta(seconds=x)`, for an x that is not negative
  pub micros : R → ℕ
  pub lt_irrefl : (a : R) → lt a a ≡ false
  pub lt_trans : (a b c : R) → lt a b ≡ true → lt b c ≡ true → lt a c ≡ true
  -- `a >= b` and `b >= c` give `a >= c`
  pub le_trans : (a b c : R) → lt a b ≡ false → lt b c ≡ false → lt a c ≡ false
  pub lt-infinity : (a : R) → lt infinity a ≡ false
  pub eq_lem : (a b : R) → eq a b ≡ not (lt a b || lt b a)
  pub lt-of_nat : (a b : ℕ) → a < 2 ^ 53 → b < 2 ^ 53 → lt (of_nat a) (of_nat b) ≡ ltb a b
  pub pow_fits :
      (a : R) (n : ℕ)
      → lt a (of_nat 1) ≡ false
      → lt (of_nat 10) a ≡ false
      → n ≤ 10
      → (d : R) × (pow a n ≡ some d)
  pub to_float32_mono : (a b : R) → lt b a ≡ false → lt (to_float32 b) (to_float32 a) ≡ false
  pub to_float32-of_nat : (n : ℕ) → n ≤ 2 ^ 24 → to_float32 (of_nat n) ≡ of_nat n
  pub micros_mono : (a b : R) → lt b a ≡ false → micros a ≤ micros b
  pub micros-of_nat : (n : ℕ) → n < 2 ^ 33 → micros (of_nat n) ≡ n * 1_000_000

-- The naturals with a greatest value, on which tests and examples run.
pub data Extended : Type 0 where
  finite : ℕ → Extended
  top : Extended

abbrev pub on_finite : (ℕ → ℕ → ℕ) → Extended → Extended → Extended
on_finite f (finite a) (finite b) = finite (f a b)
on_finite f _ _ = top

abbrev pub extended_lt : Extended → Extended → Bool
extended_lt (finite a) (finite b) = ltb a b
extended_lt (finite a) top = true
extended_lt top b = false

-- `a ** n`, with the overflow of a double, near 2 ** 1024
abbrev pub extended_pow : Extended → ℕ → Option Extended
extended_pow (finite a) n = if leb (2 ^ 1024) (a ^ n) then none else some (finite (a ^ n))
extended_pow top zero = some (finite 1)
extended_pow top (suc n) = some top

below_limit : (p q : ℕ) → p ≤ q → q ≤ 10 ^ 10 → leb (2 ^ 1024) p ≡ false
below_limit p q first second = ground arith

pub extended_pow_fits :
    (a : Extended) (n : ℕ)
    → extended_lt a (finite 1) ≡ false
    → extended_lt (finite 10) a ≡ false
    → n ≤ 10
    → (d : Extended) × (extended_pow a n ≡ some d)
extended_pow_fits (finite a) n low high few =
    let small : a ≤ 10 = ground (arith, high) in
    let by_base : a ^ n ≤ 10 ^ n = pow-le-pow_left small n in
    let by_exponent : 10 ^ n ≤ 10 ^ 10 = pow-le-pow_right (omega arith) few in
    let fits : leb (2 ^ 1024) (a ^ n) ≡ false = below_limit (a ^ n) (10 ^ n) by_base by_exponent in
    (finite (a ^ n), rw fits refl)
extended_pow_fits top n low high few = absurd (ground (arith, high))

abbrev pub extended_eq : Extended → Extended → Bool
extended_eq (finite a) (finite b) = a == b
extended_eq top top = true
extended_eq _ _ = false

pub extended_lt_irrefl : (a : Extended) → extended_lt a a ≡ false
extended_lt_irrefl (finite a) = ground arith
extended_lt_irrefl top = refl

pub extended_lt_trans :
    (a b c : Extended) → extended_lt a b ≡ true → extended_lt b c ≡ true → extended_lt a c ≡ true
extended_lt_trans a b c p q = ground arith

pub extended_le_trans :
    (a b c : Extended) → extended_lt a b ≡ false → extended_lt b c ≡ false → extended_lt a c ≡ false
extended_le_trans a b c p q = ground arith

pub extended_lt-top : (a : Extended) → extended_lt top a ≡ false
extended_lt-top a = refl

pub extended_eq_lem : (a b : Extended) → extended_eq a b ≡ not (extended_lt a b || extended_lt b a)
extended_eq_lem a b = ground arith

-- cut at a largest `timedelta`, past every delay that the client uses
abbrev pub extended_micros : Extended → ℕ
extended_micros (finite a) = min (a * 1_000_000) (2 ^ 60)
extended_micros top = 2 ^ 60

pub extended_micros_mono :
    (a b : Extended) → extended_lt b a ≡ false → extended_micros a ≤ extended_micros b
extended_micros_mono a b h = ground arith

pub extended_micros-of_nat : (n : ℕ) → n < 2 ^ 33 → extended_micros (finite n) ≡ n * 1_000_000
extended_micros-of_nat n h = omega arith

abbrev pub extended : Floats
extended = record {
  R = Extended;
  of_nat = finite;
  infinity = top;
  add = on_finite ◌+◌;
  sub = on_finite ◌-◌;
  mul = on_finite ◌*◌;
  div = on_finite ◌/◌;
  pow = extended_pow;
  to_float32 = λ a. a;
  lt = extended_lt;
  eq = extended_eq;
  micros = extended_micros;
  lt_irrefl = extended_lt_irrefl;
  lt_trans = extended_lt_trans;
  le_trans = extended_le_trans;
  lt-infinity = extended_lt-top;
  eq_lem = extended_eq_lem;
  lt-of_nat = λ a b p q. refl;
  pow_fits = extended_pow_fits;
  to_float32_mono = λ a b h. h;
  to_float32-of_nat = λ n h. refl;
  micros_mono = extended_micros_mono;
  micros-of_nat = extended_micros-of_nat;
}
