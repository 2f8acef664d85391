-- ===== src/Common/Bits.antt =====
-- The laws of `&`, `|` and `^` at variables, from the recursion on binary digits that the native
-- operations stand for.
use Prim.Native.Nat.{
  ℕ, zero, suc, ◌+◌, ◌-◌, ◌*◌, ◌/◌, ◌%◌, ◌^◌, ◌≤◌, ◌<◌, min, max, bit_and, bit_or, bit_xor, differ,
  digits, bitwise, bit_and-bitwise, bit_or-bitwise, bit_xor-bitwise,
}
use mathlib.Core.Path.{◌≡◌, refl, ap, sym, ◌∙◌}
use native.Mathlib.Nat.{pow-suc, pow-succ', one-le-pow, div-div-eq-div-mul, mod-add-div, mul_assoc}
use native.Mathlib.Omega.{arith}

-- Induction from the half of a number to the number.
halving_upto :
    (P : ℕ → Type 0) (base : P 0) (up : (x : ℕ) → 0 < x → P (x / 2) → P x) (bound x : ℕ)
    → x ≤ bound
    → P x
halving_upto P base up bound zero below = base
halving_upto P base up zero (suc x) below = absurd (omega arith)
halving_upto P base up (suc bound) (suc x) below =
    up (suc x) (omega arith) (halving_upto P base up bound (suc x / 2) (omega arith))

pub halving : (P : ℕ → Type 0) → P 0 → ((x : ℕ) → 0 < x → P (x / 2) → P x) → (x : ℕ) → P x
halving P base up x = halving_upto P base up x x (omega arith)

module _ (z : ℕ → ℕ) (f : ℕ → ℕ → ℕ) where
  no_digits : (n b : ℕ) → digits z f n 0 b ≡ z b
  no_digits zero b = refl
  no_digits (suc n) b = refl

  -- More digits to go than the number has make no difference.
  spare_digits : (a b n m : ℕ) → a ≤ n → n ≤ m → digits z f m a b ≡ digits z f n a b
  spare_digits zero b n m enough more = no_digits m b ∙ sym (no_digits n b)
  spare_digits (suc a) b zero m enough more = absurd (omega arith)
  spare_digits (suc a) b (suc n) zero enough more = absurd (omega arith)
  spare_digits (suc a) b (suc n) (suc m) enough more =
      ap (λ (high : ℕ). high * 2 + f (suc a % 2) (b % 2))
        (spare_digits (suc a / 2) (b / 2) n m (omega arith) (omega arith))

  -- The lowest digit, for an operation that is the same one past the end of its first number.
  lowest_digit :
      ((b : ℕ) → z b ≡ z (b / 2) * 2 + f 0 (b % 2))
      → (a b : ℕ) → bitwise z f a b ≡ bitwise z f (a / 2) (b / 2) * 2 + f (a % 2) (b % 2)
  lowest_digit at_end zero b = at_end b
  lowest_digit at_end (suc a) b =
      let half = suc a / 2 in
      ap (λ (high : ℕ). high * 2 + f (suc a % 2) (b % 2))
        (spare_digits half (b / 2) half a (omega arith) (omega arith))

pub bit_or_step : (a b : ℕ) → bit_or a b ≡ bit_or (a / 2) (b / 2) * 2 + max (a % 2) (b % 2)
bit_or_step a b = simp bit_or-bitwise (lowest_digit (λ y. y) max (λ y. omega arith) a b)

pub bit_and_step : (a b : ℕ) → bit_and a b ≡ bit_and (a / 2) (b / 2) * 2 + min (a % 2) (b % 2)
bit_and_step a b = simp bit_and-bitwise (lowest_digit (λ y. 0) min (λ y. omega arith) a b)

pub bit_xor_step : (a b : ℕ) → bit_xor a b ≡ bit_xor (a / 2) (b / 2) * 2 + differ (a % 2) (b % 2)
bit_xor_step a b = simp bit_xor-bitwise (lowest_digit (λ y. y) differ xor_end a b)
  where
    xor_end : (y : ℕ) → y ≡ y / 2 * 2 + differ 0 (y % 2)
    xor_end y = omega arith

-- `x` is covered by the mask `f`: every bit of `x` is set in `f`, which C tests by `(f & x) == x`.
abbrev pub Covers : ℕ → ℕ → Type 0
Covers f x = bit_and f x ≡ x

pub Covers-zero : (a : ℕ) → Covers a 0
Covers-zero = halving (λ a. Covers a 0) refl (λ x pos half. omega (arith, bit_and_step x 0, half))

pub Covers-self : (a : ℕ) → Covers a a
Covers-self = halving (λ a. Covers a a) refl (λ x pos half. omega (arith, bit_and_step x x, half))

Covers-halves : (f x : ℕ) → Covers f x → Covers (f / 2) (x / 2) × (x % 2 ≤ f % 2)
Covers-halves f x c = omega (arith, bit_and_step f x)

Covers-join : (f x : ℕ) → Covers (f / 2) (x / 2) → x % 2 ≤ f % 2 → Covers f x
Covers-join f x c h = omega (arith, bit_and_step f x)

bit_or-half : (f g : ℕ) → bit_or f g / 2 ≡ bit_or (f / 2) (g / 2)
bit_or-half f g = omega (arith, bit_or_step f g)

bit_or-mod : (f g : ℕ) → bit_or f g % 2 ≡ max (f % 2) (g % 2)
bit_or-mod f g = omega (arith, bit_or_step f g)

-- A mask keeps what it covers when bits are added to it, on either side.
Covers-or :
    (x f g : ℕ) → (Covers f x → Covers (bit_or f g) x) × (Covers g x → Covers (bit_or f g) x)
Covers-or =
    halving
      (λ x. (f g : ℕ) → (Covers f x → Covers (bit_or f g) x) × (Covers g x → Covers (bit_or f g) x))
      (λ f g. (λ c. Covers-zero (bit_or f g), λ c. Covers-zero (bit_or f g)))
      (λ x pos half f g. (
        λ c.
            let halves = Covers-halves f x c in
            Covers-join (bit_or f g) x (rw bit_or-half ((half (f / 2) (g / 2)).0 halves.0))
              (omega (arith, bit_or-mod f g, halves.1)),
        λ c.
            let halves = Covers-halves g x c in
            Covers-join (bit_or f g) x (rw bit_or-half ((half (f / 2) (g / 2)).1 halves.0))
              (omega (arith, bit_or-mod f g, halves.1)),
      ))

pub Covers-or_left : (f g x : ℕ) → Covers f x → Covers (bit_or f g) x
Covers-or_left f g x = (Covers-or x f g).0

pub Covers-or_right : (f g x : ℕ) → Covers g x → Covers (bit_or f g) x
Covers-or_right f g x = (Covers-or x f g).1

pow_two_suc : (k : ℕ) → 2 ^ suc k ≡ 2 * 2 ^ k
pow_two_suc k = omega (arith, pow-suc 2 k)

pub bit_or-lt : (k a b : ℕ) → a < 2 ^ k → b < 2 ^ k → bit_or a b < 2 ^ k
bit_or-lt zero a b p q = omega (
  arith,
  (let e : a ≡ 0 = omega arith in
      let d : b ≡ 0 = omega arith in let r : bit_or a b ≡ 0 = rw (e, d) refl in r),
)
bit_or-lt (suc k) a b p q = omega (
  arith,
  bit_or_step a b,
  pow_two_suc k,
  bit_or-lt k (a / 2) (b / 2) (omega (arith, pow_two_suc k)) (omega (arith, pow_two_suc k)),
)

differ-le : (a b : ℕ) → a ≤ 1 → b ≤ 1 → differ a b ≤ 1
differ-le zero b p q = q
differ-le (suc a) zero p q = p
differ-le (suc a) (suc b) p q = differ-le a b (omega arith) (omega arith)

pub bit_xor-lt : (k a b : ℕ) → a < 2 ^ k → b < 2 ^ k → bit_xor a b < 2 ^ k
bit_xor-lt zero a b p q = omega (
  arith,
  (let e : a ≡ 0 = omega arith in
      let d : b ≡ 0 = omega arith in let r : bit_xor a b ≡ 0 = rw (e, d) refl in r),
)
bit_xor-lt (suc k) a b p q = omega (
  arith,
  bit_xor_step a b,
  pow_two_suc k,
  differ-le (a % 2) (b % 2) (omega arith) (omega arith),
  bit_xor-lt k (a / 2) (b / 2) (omega (arith, pow_two_suc k)) (omega (arith, pow_two_suc k)),
)

pub bit_and-le_right : (a b : ℕ) → bit_and a b ≤ b
bit_and-le_right a b =
    halving (λ y. (x : ℕ) → bit_and x y ≤ y) (λ x. omega (arith, Covers-zero x))
      (λ y pos half x. omega (arith, bit_and_step x y, half (x / 2))) b a

bit_or-zero : (a : ℕ) → bit_or a 0 ≡ a
bit_or-zero =
    halving (λ a. bit_or a 0 ≡ a) refl (λ x pos half. omega (arith, bit_or_step x 0, half))

-- A number that is shifted by one place more.
place : (k q : ℕ) → q * 2 ^ suc k ≡ 2 * (q * 2 ^ k)
place k q = omega (arith, ap (λ (t : ℕ). q * t) (pow-suc 2 k))

-- `(high << k) | low` is a sum when `low` fits `k` bits.
pub bit_or_fields : (k high low : ℕ) → low < 2 ^ k → bit_or (high * 2 ^ k) low ≡ high * 2 ^ k + low
bit_or_fields zero high low small =
    let none_low : low ≡ 0 = omega arith in rw none_low (ground (arith, bit_or-zero high))
bit_or_fields (suc k) high low small =
    let upper = bit_or_fields k high (low / 2) (omega (arith, pow_two_suc k)) in
    ground (arith, upper, place k high, bit_or_step (high * 2 ^ suc k) low)

-- `|` on the upper bits leaves the `k` lower ones.
pub bit_or-above :
    (k x y low : ℕ) → low < 2 ^ k → bit_or (x * 2 ^ k + low) (y * 2 ^ k) ≡ bit_or x y * 2 ^ k + low
bit_or-above zero x y low small = let none_low : low ≡ 0 = omega arith in rw none_low (ground arith)
bit_or-above (suc k) x y low small =
    let upper = bit_or-above k x y (low / 2) (omega (arith, pow_two_suc k)) in
    ground (
      arith,
      upper,
      place k x,
      place k y,
      place k (bit_or x y),
      bit_or_step (x * 2 ^ suc k + low) (y * 2 ^ suc k),
    )

-- The remainder by an even number, from the remainder of the half.
mod_double : (a w : ℕ) → a % (2 * w) ≡ 2 * (a / 2 % w) + a % 2
mod_double a w =
    let quotients = div-div-eq-div-mul a 2 w in
    let whole = rw (sym quotients) at (mod-add-div a (2 * w)) in
    let half = mod-add-div (a / 2) w in
    let twice : 2 * w * (a / 2 / w) ≡ 2 * (w * (a / 2 / w)) = mul_assoc 2 w (a / 2 / w) in
    omega (arith, whole, half, twice)

-- A mask of `k` low bits is the remainder by `2 ^ k`.
pub bit_and_mask : (k a : ℕ) → bit_and a (2 ^ k - 1) ≡ a % 2 ^ k
bit_and_mask zero a = omega (arith, Covers-zero a)
bit_and_mask (suc k) a =
    let whole : 2 ^ suc k ≡ 2 * 2 ^ k = pow_two_suc k in
    let some_bit = one-le-pow k 2 in
    let half_mask : (2 ^ suc k - 1) / 2 ≡ 2 ^ k - 1 = ground arith in
    let upper = rw (sym half_mask) at (bit_and_mask k (a / 2)) in
    rw (whole, mod_double) (ground (arith, upper, bit_and_step a (2 ^ suc k - 1)))

div_pow_suc : (x k : ℕ) → x / 2 ^ suc k ≡ x / 2 / 2 ^ k
div_pow_suc x k = rw (pow-succ' 2 k) (sym (div-div-eq-div-mul x 2 (2 ^ k)))

-- A mask over a field is the mask of the shifted word.
pub bit_and_shift : (k m x : ℕ) → bit_and x (m * 2 ^ k) ≡ bit_and (x / 2 ^ k) m * 2 ^ k
bit_and_shift zero m x = ground arith
bit_and_shift (suc k) m x = ground (
  arith,
  bit_and_step x (m * 2 ^ suc k),
  place k m,
  place k (bit_and (x / 2 ^ suc k) m),
  div_pow_suc x k,
  bit_and_shift k m (x / 2),
)

pub bit_or_comm : (a b : ℕ) → bit_or a b ≡ bit_or b a
bit_or_comm =
    halving (λ a. (b : ℕ) → bit_or a b ≡ bit_or b a)
      (λ b. omega (arith, bit_or-zero b, bit_or-bitwise 0 b))
      (λ a pos half b. omega (arith, half (b / 2), bit_or_step a b, bit_or_step b a))
