-- ===== src/Money/Conversion.antt =====
-- `ConvertCentsByRate` and `convertByRate`: what a conversion returns, and for which inputs.
use native.Mathlib.Nat.{mul-le-mul_right}
use fin_arch.Base.{
  ℕ, suc, ◌*◌, ◌≤◌, ◌<◌, ◌≡◌, refl, ◌↔◌, true, some, arith, ℤ, pos, negsuc, is_int64, ◌≤ℤ◌,
  int64_bound, subst, sym,
}
use fin_arch.Money.{
  Float, finite, ok, round_rat_to_int64, scale, cents, convert_cents_by_rate,
  validate_transaction_amount_cents, convert_by_rate, max_transaction_amount_cents,
}
use fin_arch.Money.Rounding.{
  IsNearest, IsRounded, IsNearest-mono, abs-signed, round_rat_to_int64_iff,
}

-- A positive fraction p / d.
abbrev pub ratio : ℕ → ℕ → Float
ratio p d = finite (record { num = pos p; den = d })

-- A converted amount is positive and at most the largest amount of a transaction, whatever the
-- amount and the rate.
pub convert_by_rate_range :
    (amount : ℤ) (rate : Float) {c : ℤ}
    → convert_by_rate amount rate ≡ ok c
    → (pos 1 ≤ℤ c) × (c ≤ℤ pos max_transaction_amount_cents)
unfolding convert_by_rate validate_transaction_amount_cents
convert_by_rate_range amount rate h = ground arith

IsNearest-scaled :
    (n p d k : ℕ)
    → 0 < d
    → (round_rat_to_int64 (some (scale n (record { num = pos p; den = d }))) ≡ ok (pos k))
      ↔ (IsNearest (n * p) d k × (k < int64_bound))
IsNearest-scaled n p d k h =
    let (to, from) = round_rat_to_int64_iff (scale n (record { num = pos p; den = d })) (pos k) h in
    (
      λ e. ((to e).0.nearest, ground (arith, (to e).1)),
      λ (near, fits). from (
        record {
          nearest = near;
          not_negative = λ _. refl;
          not_positive = λ b. absurd (ground arith);
        },
        ground arith,
      ),
    )

converted :
    (n p d k : ℕ)
    → convert_by_rate (pos n) (ratio p d) ≡ ok (pos k)
    → (round_rat_to_int64 (some (scale n (record { num = pos p; den = d }))) ≡ ok (pos k))
      × (0 < k)
      × (k ≤ max_transaction_amount_cents)
unfolding convert_by_rate convert_cents_by_rate validate_transaction_amount_cents
converted n p d k e = ground arith

-- A positive amount at a positive rate p / d converts to k cents exactly if k is the nearest
-- number of cents, halves up, and is a positive amount within the limit.
pub convert_by_rate_iff :
    (n p d k : ℕ)
    → 0 < n
    → 0 < p
    → 0 < d
    → (convert_by_rate (pos n) (ratio p d) ≡ ok (pos k))
      ↔ (IsNearest (n * p) d k × (0 < k) × (k ≤ max_transaction_amount_cents))
unfolding convert_by_rate convert_cents_by_rate validate_transaction_amount_cents
convert_by_rate_iff n p d k hn hp hd =
    let (to, from) = IsNearest-scaled n p d k hd in
    (
      λ e. let (r, low, high) = converted n p d k e in ((to r).0, low, high),
      λ (near, low, high). ground (arith, from (near, omega arith)),
    )

-- At rate 1 a valid amount stays what it is.
pub convert_by_rate_identity :
    (n : ℕ)
    → 0 < n
    → n ≤ max_transaction_amount_cents
    → convert_by_rate (pos n) (ratio 1 1) ≡ ok (pos n)
convert_by_rate_identity n h k =
    (convert_by_rate_iff n 1 1 n h (omega arith) (omega arith)).1 (omega arith, h, k)

-- At one rate the larger amount converts to no less.
pub convert_by_rate_mono :
    (n m p d j k : ℕ)
    → 0 < n
    → 0 < p
    → 0 < d
    → n ≤ m
    → convert_by_rate (pos n) (ratio p d) ≡ ok (pos j)
    → convert_by_rate (pos m) (ratio p d) ≡ ok (pos k)
    → j ≤ k
convert_by_rate_mono n m p d j k hn hp hd le ej ek =
    let (a, _, _) = (convert_by_rate_iff n p d j hn hp hd).0 ej in
    let (b, _, _) = (convert_by_rate_iff m p d k (omega arith) hp hd).0 ek in
    IsNearest-mono (n * p) (m * p) d j k (mul-le-mul_right p le) a b

hundredth-IsRounded : (n : ℤ) → IsRounded (scale 100 (record { num = n; den = 100 })) n
hundredth-IsRounded (pos n) = record {
  nearest = omega arith;
  not_negative = λ e. refl;
  not_positive = λ e. absurd (ground arith);
}
hundredth-IsRounded (negsuc n) = record {
  nearest =
      subst (λ m. IsNearest m 100 (suc n)) (sym (abs-signed true (100 * suc n))) (omega arith);
  not_negative = λ e. absurd (ground arith);
  not_positive = λ e. refl;
}

-- A number of yuan that is written with two decimals has exactly those cents, if they fit.
pub cents_of_decimal :
    (n : ℤ) → is_int64 n ≡ true → cents (finite (record { num = n; den = 100 })) ≡ ok n
unfolding cents
cents_of_decimal n h =
    (round_rat_to_int64_iff (scale 100 (record { num = n; den = 100 })) n (omega arith)).1
      (hundredth-IsRounded n, h)
