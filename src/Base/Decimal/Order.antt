-- ===== src/Base/Decimal/Order.antt =====
-- The comparison of finite decimals is a total preorder.
use native.Mathlib.Nat.{le_of_mul-le-mul_right, mul-le-mul_right, pow-suc, one-le-pow}
use playbook_redline.Base.{
  ℕ, zero, suc, ◌+◌, ◌*◌, ◌^◌, ◌≤◌, ◌<◌, ◌≡◌, sym, ap, ◌∙◌, true, false, arith, subst,
}
use playbook_redline.Base.Int.{ℤ, pos_part, neg_part}
use playbook_redline.Base.Decimal.{less}

pow_add : (k m : ℕ) → 10 ^ (k + m) ≡ 10 ^ k * 10 ^ m
pow_add zero m = grind arith
pow_add (suc k) m =
    let next : suc k + m ≡ suc (k + m) = omega arith in
    let left : 10 ^ (suc k + m) ≡ 10 ^ (k + m) * 10 = ap (λ x. 10 ^ x) next ∙ pow-suc 10 (k + m) in
    let swap : 10 ^ k * 10 ^ m * 10 ≡ 10 ^ k * 10 * 10 ^ m = grind arith in
    left ∙ ap (λ x. x * 10) (pow_add k m) ∙ swap ∙ ap (λ x. x * 10 ^ m) (sym (pow-suc 10 k))

cross :
    (n m k A A' B B' C C' : ℕ)
    → 0 < B'
    → n * (A * B') ≤ m * (B * A')
    → m * (B * C') ≤ k * (C * B')
    → n * (A * C') ≤ k * (C * A')
cross n m k A A' B B' C C' b' h g =
    let p : n * (A * B') * C' ≤ m * (B * A') * C' = mul-le-mul_right C' h in
    let q : m * (B * C') * A' ≤ k * (C * B') * A' = mul-le-mul_right A' g in
    let same : m * (B * A') * C' ≡ m * (B * C') * A' = grind arith in
    let left : n * (A * C') * B' ≡ n * (A * B') * C' = grind arith in
    let right : k * (C * B') * A' ≡ k * (C * A') * B' = grind arith in
    le_of_mul-le-mul_right (omega (arith, p, q, same, left, right)) b'

module _ (n : ℕ) (e : ℤ) (m : ℕ) (f : ℤ) where
  -- `less` fails exactly when the scaled coefficients are in order.
  not_less :
      less (m, f) (n, e) ≡ false
      → n * (10 ^ pos_part e * 10 ^ neg_part f) ≤ m * (10 ^ pos_part f * 10 ^ neg_part e)
  not_less h =
      let p : n * 10 ^ (pos_part e + neg_part f) ≤ m * 10 ^ (pos_part f + neg_part e) =
        ground arith in
      subst (λ x. n * x ≤ m * (10 ^ pos_part f * 10 ^ neg_part e))
        (pow_add (pos_part e) (neg_part f))
        (subst (λ x. n * 10 ^ (pos_part e + neg_part f) ≤ m * x) (pow_add (pos_part f) (neg_part e))
          p)

  less_not :
      n * (10 ^ pos_part e * 10 ^ neg_part f) ≤ m * (10 ^ pos_part f * 10 ^ neg_part e)
      → less (m, f) (n, e) ≡ false
  less_not h =
      let p : n * 10 ^ (pos_part e + neg_part f) ≤ m * 10 ^ (pos_part f + neg_part e) =
        subst (λ x. n * x ≤ m * 10 ^ (pos_part f + neg_part e))
          (sym (pow_add (pos_part e) (neg_part f)))
          (subst (λ x. n * (10 ^ pos_part e * 10 ^ neg_part f) ≤ m * x)
            (sym (pow_add (pos_part f) (neg_part e))) h) in
      ground arith

-- `a <= b` and `b <= c` give `a <= c`.
pub not_less_trans : (a b c : ℕ × ℤ) → less b a ≡ false → less c b ≡ false → less c a ≡ false
not_less_trans (n, e) (m, f) (k, g) h l = less_not n e k g (
    cross n m k _ _ _ _ _ _ (one-le-pow (neg_part f) 10 (omega arith)) (not_less n e m f h)
      (not_less m f k g l))

pub less_asym : (a b : ℕ × ℤ) → less a b ≡ true → less b a ≡ false
less_asym a b h = ground arith

pub not_less_refl : (a : ℕ × ℤ) → less a a ≡ false
not_less_refl a = ground arith
