-- ===== src/Cache/Masks.antt =====
-- Masking by one less than a power of two, on which the positions of src/bpe/pretoken_cache.rs rest.
use Prim.Native.Nat.{bit_and, bit_and-bitwise, digits}
use supergigatoken.Base.{ℕ, zero, suc, ◌+◌, ◌*◌, ◌-◌, ◌/◌, ◌%◌, ◌≤◌, ◌<◌, min, ◌≡◌, refl, ap, arith}

unfoldable pub pow2 : ℕ → ℕ
pow2 zero = 1
pow2 (suc k) = pow2 k + pow2 k

pub pow2-pos : (k : ℕ) → 0 < pow2 k
unfolding pow2
pow2-pos zero = omega arith
pow2-pos (suc k) = omega (arith, pow2-pos k)

-- The digits of the native operation do not depend on the fuel.
digits-fuel : (n m a b : ℕ) → a ≤ n → a ≤ m → digits (λ y. 0) min n a b ≡ digits (λ y. 0) min m a b
digits-fuel zero zero a b p q = refl
digits-fuel zero (suc m) zero b p q = refl
digits-fuel zero (suc m) (suc a) b p q = absurd (omega arith)
digits-fuel (suc n) zero zero b p q = refl
digits-fuel (suc n) zero (suc a) b p q = absurd (omega arith)
digits-fuel (suc n) (suc m) zero b p q = refl
digits-fuel (suc n) (suc m) (suc a) b p q =
    omega (arith, digits-fuel n m (suc a / 2) (b / 2) (omega arith) (omega arith))

bit_and-zero_left : (b : ℕ) → bit_and 0 b ≡ 0
bit_and-zero_left b = bit_and-bitwise 0 b

pub bit_and-digit : (a b : ℕ) → bit_and a b ≡ bit_and (a / 2) (b / 2) * 2 + min (a % 2) (b % 2)
bit_and-digit zero b = omega (arith, bit_and-zero_left b, bit_and-zero_left (b / 2))
bit_and-digit (suc a) b = omega (
  arith,
  bit_and-bitwise (suc a) b,
  bit_and-bitwise (suc a / 2) (b / 2),
  digits-fuel a (suc a / 2) (suc a / 2) (b / 2) (omega arith) (omega arith),
)

-- The mask of one digit more, without its lowest digit.
half_mask : (k : ℕ) → (pow2 (suc k) - 1) / 2 ≡ pow2 k - 1
unfolding pow2
half_mask k = omega (arith, pow2-pos k)

mask-odd : (k : ℕ) → (pow2 (suc k) - 1) % 2 ≡ 1
unfolding pow2
mask-odd k = omega (arith, pow2-pos k)

mask-digit : (k a : ℕ) → bit_and a (pow2 (suc k) - 1) ≡ bit_and (a / 2) (pow2 k - 1) * 2 + a % 2
mask-digit k a =
    let odd : min (a % 2) ((pow2 (suc k) - 1) % 2) ≡ a % 2 = omega (arith, mask-odd k) in
    omega (arith, bit_and-digit a (pow2 (suc k) - 1), odd, ap (bit_and (a / 2)) (half_mask k))

no_mask : (n a : ℕ) → a ≤ n → bit_and a 0 ≡ 0
no_mask n zero h = refl
no_mask zero (suc a) h = absurd (omega arith)
no_mask (suc n) (suc a) h =
    omega (arith, bit_and-digit (suc a) 0, no_mask n (suc a / 2) (omega arith))

pub bit_and-below : (k a : ℕ) → a < pow2 k → bit_and a (pow2 k - 1) ≡ a
unfolding pow2
bit_and-below zero zero h = refl
bit_and-below zero (suc a) h = absurd (omega arith)
bit_and-below (suc k) a h = omega (arith, mask-digit k a, bit_and-below k (a / 2) (omega arith))

pub bit_and_self : (k : ℕ) → bit_and (pow2 k) (pow2 k - 1) ≡ 0
unfolding pow2
bit_and_self zero = refl
bit_and_self (suc k) =
    let half : pow2 (suc k) / 2 ≡ pow2 k = omega arith in
    omega
      (arith, mask-digit k (pow2 (suc k)), ap (λ a. bit_and a (pow2 k - 1)) half, bit_and_self k)

pub bit_and-lt : (k a : ℕ) → bit_and a (pow2 k - 1) < pow2 k
unfolding pow2
bit_and-lt zero a = omega (arith, no_mask a a (omega arith))
bit_and-lt (suc k) a = omega (arith, mask-digit k a, bit_and-lt k (a / 2))
