-- ===== src/Money/Rounding.antt =====
-- `roundRatToInt64` rounds to the nearest integer, halves away from zero.
use native.Mathlib.Nat.{div-add-mod', mod-lt, mul-le-mul_right, le_refl}
use native.Mathlib.Decide.{dec_lt}
use fin_arch.Base.{
  ℕ, zero, suc, ◌+◌, ◌*◌, ◌≤◌, ◌<◌, ◌≡◌, refl, ◌↔◌, true, false, some, arith, if◌then◌else◌, ℤ, pos,
  negsuc, pos_part, neg_part, abs, is_int64, Bool-cases, inl, inr, Bool, sym, subst, ap, ◌∙◌,
}
use fin_arch.Money.{
  Rat, ok, err, out_of_range, signed, is_negative, round_quotient, round_rat_to_int64,
}

-- `k` is n / d rounded, halves up: n / d - 1/2 < k ≤ n / d + 1/2.
pub record IsNearest (n d k : ℕ) : Type 0 where
  pub not_above : 2 * (k * d) ≤ 2 * n + d
  pub not_below : 2 * n < 2 * (k * d) + d

-- `z` is the fraction rounded by its size, with the fraction's sign.
pub record IsRounded (v : Rat) (z : ℤ) : Type 0 where
  pub nearest : IsNearest (abs v.num) v.den (abs z)
  pub not_negative : is_negative v.num ≡ false → neg_part z ≡ 0
  pub not_positive : is_negative v.num ≡ true → pos_part z ≡ 0

round_quotient-IsNearest : (n d : ℕ) → 0 < d → IsNearest n d (round_quotient n d)
unfolding round_quotient
round_quotient-IsNearest n d h = grind (arith, div-add-mod' n d, mod-lt n h)

-- A larger fraction has no smaller nearest integer.
pub IsNearest-mono : (m n d k j : ℕ) → m ≤ n → IsNearest m d k → IsNearest n d j → k ≤ j
IsNearest-mono m n d k j le b a = elim (dec_lt j k) [
  | yes h ↦ absurd (omega (arith, mul-le-mul_right {m = suc j} {n = k} d h))
  | no h ↦ omega arith
]

IsNearest-unique : (n d j k : ℕ) → IsNearest n d j → IsNearest n d k → j ≡ k
IsNearest-unique n d j k a b =
    let le = le_refl n in
    omega (arith, IsNearest-mono n n d j k le a b, IsNearest-mono n n d k j le b a)

signed-abs : (v : Rat) (z : ℤ) → IsRounded v z → z ≡ signed (is_negative v.num) (abs z)
signed-abs v z r = elim (Bool-cases (is_negative v.num)) [
  | inl neg ↦ rw neg (negative z (r.not_positive neg))
  | inr not_neg ↦ rw not_neg (positive z (r.not_negative not_neg))
]
  where
    negative : (y : ℤ) → pos_part y ≡ 0 → y ≡ signed true (abs y)
    negative (pos zero) e = refl
    negative (pos (suc n)) e = absurd (omega arith)
    negative (negsuc n) e = refl

    positive : (y : ℤ) → neg_part y ≡ 0 → y ≡ signed false (abs y)
    positive (pos n) e = refl
    positive (negsuc n) e = absurd (omega arith)

pub abs-signed : (b : Bool) (n : ℕ) → abs (signed b n) ≡ n
abs-signed false n = refl
abs-signed true zero = refl
abs-signed true (suc n) = refl

signed_not_negative : (b : Bool) (n : ℕ) → b ≡ false → neg_part (signed b n) ≡ 0
signed_not_negative false n e = refl
signed_not_negative true n e = cc

signed_not_positive : (b : Bool) (n : ℕ) → b ≡ true → pos_part (signed b n) ≡ 0
signed_not_positive false n e = cc
signed_not_positive true zero e = refl
signed_not_positive true (suc n) e = refl

rounded : Rat → ℤ
rounded v = signed (is_negative v.num) (round_quotient (abs v.num) v.den)

rounded-IsRounded : (v : Rat) → 0 < v.den → IsRounded v (rounded v)
unfolding rounded
rounded-IsRounded v h = record {
  nearest =
      subst (IsNearest (abs v.num) v.den) (sym (abs-signed (is_negative v.num) _))
        (round_quotient-IsNearest (abs v.num) v.den h);
  not_negative = signed_not_negative (is_negative v.num) _;
  not_positive = signed_not_positive (is_negative v.num) _;
}

eq_of_IsRounded : (v : Rat) (y z : ℤ) → IsRounded v y → IsRounded v z → y ≡ z
eq_of_IsRounded v y z a b =
    signed-abs v y a
    ∙ ap (signed (is_negative v.num))
        (IsNearest-unique (abs v.num) v.den (abs y) (abs z) a.nearest b.nearest)
    ∙ sym (signed-abs v z b)

round_rat_to_int64_lem :
    (v : Rat)
    → round_rat_to_int64 (some v)
      ≡ (if is_int64 (rounded v) then ok (rounded v) else err out_of_range)
unfolding round_rat_to_int64 rounded
round_rat_to_int64_lem v = refl

-- A fraction with a positive denominator is rounded to `z` exactly if `z` is the nearest integer,
-- with halves away from zero, and fits an int64.
pub round_rat_to_int64_iff :
    (v : Rat) (z : ℤ)
    → 0 < v.den
    → (round_rat_to_int64 (some v) ≡ ok z) ↔ (IsRounded v z × (is_int64 z ≡ true))
round_rat_to_int64_iff v z h = (to, from)
  where
    to : round_rat_to_int64 (some v) ≡ ok z → IsRounded v z × (is_int64 z ≡ true)
    to e = elim (Bool-cases (is_int64 (rounded v))) [
      | inl fits ↦
          let same : rounded v ≡ z = cc (e, fits, round_rat_to_int64_lem v) in
          (subst (IsRounded v) same (rounded-IsRounded v h), ap is_int64 (sym same) ∙ fits)
      | inr big ↦ absurd (ground (arith, e, big, round_rat_to_int64_lem v))
    ]

    from : IsRounded v z × (is_int64 z ≡ true) → round_rat_to_int64 (some v) ≡ ok z
    from (r, fits) =
        let same = eq_of_IsRounded v (rounded v) z (rounded-IsRounded v h) r in
        round_rat_to_int64_lem v ∙ rw (same, fits) refl
