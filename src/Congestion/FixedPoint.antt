-- ===== src/Congestion/FixedPoint.antt =====
-- Numbers with 16 binary digits after the point behave as `Double` asks of C++ `double`; the tests of
-- the parts that use the congestion window of server/backend/worker.cpp run on them.
use clean_slate_inc.Prelude.{ℕ, ◌+◌, ◌-◌, ◌*◌, ◌/◌, ◌<◌, ◌≡◌, arith, ltb, u32_mod}
use clean_slate_inc.Congestion.{Double}

abbrev one : ℕ
one = 65536

pub fixed_lt-num : (m n : ℕ) → m < u32_mod → n < u32_mod → ltb (m * one) (n * one) ≡ ltb m n
fixed_lt-num m n hm hn = ground arith

pub fixed_to_u32-num : (n : ℕ) → n < u32_mod → n * one / one ≡ n
fixed_to_u32-num n h = omega arith

abbrev pub fixed_point : Double
fixed_point = record {
  F = ℕ;
  num = λ n. n * one;
  add = λ x y. x + y;
  sub = λ x y. x - y;
  mul = λ x y. x * y / one;
  div = λ x y. x * one / y;
  lt = ltb;
  to_u32 = λ x. x / one;
  lt-num = fixed_lt-num;
  to_u32-num = fixed_to_u32-num;
}
