-- ===== src/Strategy/FixedPoint.antt =====
-- Fixed-point numbers with four decimals, as an instance of the interface to `f64`: the laws that the
-- strategies rely on can hold.
use native.Mathlib.Nat.{
  le-div_iff_mul-le, mul-le-mul_right, le_of_mul-le-mul_right, div-mul-le_self,
}
use fluidbgoperator.Base.{ℕ, ◌*◌, ◌/◌, ◌≤◌, ◌<◌, ◌≡◌, true, false, arith, ltb, leb}
use fluidbgoperator.Strategy.Float64.{Floats}

abbrev scale : ℕ
scale = 10000

pub divides_below :
    (a b c d : ℕ)
    → 0 < b
    → 0 < d
    → a * d ≤ c * b
    → (a * scale * scale) / (b * scale) ≤ (c * scale * scale) / (d * scale)
divides_below a b c d hb hd h =
    let q = (a * scale * scale) / (b * scale) in
    let below : q * (b * scale) ≤ a * scale * scale =
      div-mul-le_self (a * scale * scale) (b * scale) in
    let scaled : q * (b * scale) * d ≤ a * scale * scale * d = mul-le-mul_right d below in
    let cross : (q * (d * scale)) * b ≤ (c * scale * scale) * b =
      omega (arith, scaled, mul-le-mul_right (scale * scale) h) in
    (le-div_iff_mul-le (omega arith)).1 (le_of_mul-le-mul_right cross hb)

pub leb_trans : (x y z : ℕ) → leb x y ≡ true → leb y z ≡ true → leb x z ≡ true
leb_trans x y z h k = ground arith

pub leb-ltb_trans : (x y z : ℕ) → leb x y ≡ true → ltb y z ≡ true → ltb x z ≡ true
leb-ltb_trans x y z h k = ground arith

pub leb_not_ltb : (x y : ℕ) → leb x y ≡ true → ltb y x ≡ false
leb_not_ltb x y h = ground arith

pub le→leb : (x y : ℕ) → x ≤ y → leb x y ≡ true
le→leb x y h = ground arith

abbrev pub fixed_point : Floats
fixed_point = record {
  F64 = ℕ;
  of_i64 = λ a. a * scale;
  divide = λ x y. (x * scale) / y;
  lt_f64 = ltb;
  le_f64 = leb;
  zero_f64 = 0;
  rate_098 = 9800;
  le_trans = leb_trans;
  le_lt_trans = leb-ltb_trans;
  le_not_lt = leb_not_ltb;
  divide_mono = λ a b c d ha hb hc hd pb pd h. le→leb _ _ (divides_below a b c d pb pd h);
  divide_nonneg = λ c d hc hd pd. le→leb 0 ((c * scale * scale) / (d * scale)) (omega arith);
}
