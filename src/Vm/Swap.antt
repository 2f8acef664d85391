-- ===== src/Vm/Swap.antt =====
-- libebpf/src/ebpf_types.h: the byte swaps behind the byte order instructions. The masked values
-- fit the width after each left shift, so only the casts cut bits off.
use mathlib.Core.List.{reverse}
use rapid_patch_runtime_ae.Common.{
  zero, suc, List, [], ◌∷◌, ℕ, ◌+◌, ◌*◌, ◌/◌, ◌%◌, ◌^◌, ◌<◌, ◌≡◌, ap, ◌∙◌, arith, u16, u32, u64,
  bit_and, bit_or,
}
use rapid_patch_runtime_ae.Common.Bits.{bit_or_fields, bit_and_mask, bit_and_shift}

unfoldable pub swap16 : ℕ → ℕ
swap16 v = let x = u16 v in u16 (bit_or (bit_and x 0x00ff * 2 ^ 8) (bit_and x 0xff00 / 2 ^ 8))

unfoldable pub swap32 : ℕ → ℕ
swap32 v =
    let x = u32 v in
    u32 (
      bit_or
        (bit_or (bit_or (bit_and x 0x000000ff * 2 ^ 24) (bit_and x 0x0000ff00 * 2 ^ 8))
          (bit_and x 0x00ff0000 / 2 ^ 8))
        (bit_and x 0xff000000 / 2 ^ 24))

unfoldable pub swap64 : ℕ → ℕ
swap64 v =
    let x = u64 v in
    let b0 = bit_and x 0x00000000000000ff * 2 ^ 56 in
    let b1 = bit_and x 0x000000000000ff00 * 2 ^ 40 in
    let b2 = bit_and x 0x0000000000ff0000 * 2 ^ 24 in
    let b3 = bit_and x 0x00000000ff000000 * 2 ^ 8 in
    let b4 = bit_and x 0x000000ff00000000 / 2 ^ 8 in
    let b5 = bit_and x 0x0000ff0000000000 / 2 ^ 24 in
    let b6 = bit_and x 0x00ff000000000000 / 2 ^ 40 in
    let b7 = bit_and x 0xff00000000000000 / 2 ^ 56 in
    u64 (bit_or (bit_or (bit_or (bit_or (bit_or (bit_or (bit_or b0 b1) b2) b3) b4) b5) b6) b7)

-- Byte `i` of a word, from the lowest.
abbrev pub byte : ℕ → ℕ → ℕ
byte x i = x / 256 ^ i % 256

field : (k x : ℕ) → bit_and x (255 * 2 ^ k) ≡ x / 2 ^ k % 256 * 2 ^ k
field k x = bit_and_shift k 255 x ∙ ap (λ (t : ℕ). t * 2 ^ k) (bit_and_mask 8 (x / 2 ^ k))

swap16_as_sum : (v : ℕ) → swap16 v ≡ v % 256 * 256 + v / 256 % 256
unfolding swap16
swap16_as_sum v =
    let x = v % 2 ^ 16 in
    ground (arith, field 0 x, field 8 x, bit_or_fields 8 (x % 256) (x / 256 % 256) (omega arith))

swap32_as_sum :
    (v : ℕ)
    → swap32 v
      ≡ v % 256 * 2 ^ 24 + v / 2 ^ 8 % 256 * 2 ^ 16 + v / 2 ^ 16 % 256 * 2 ^ 8 + v / 2 ^ 24 % 256
unfolding swap32
swap32_as_sum v =
    let x = v % 2 ^ 32 in
    let a = x % 256 in
    let b = x / 2 ^ 8 % 256 in
    let c = x / 2 ^ 16 % 256 in
    let d = x / 2 ^ 24 % 256 in
    ground (
      arith,
      field 0 x,
      field 8 x,
      field 16 x,
      field 24 x,
      bit_or_fields 24 a (b * 2 ^ 16) (omega arith),
      bit_or_fields 16 (a * 2 ^ 8 + b) (c * 2 ^ 8) (omega arith),
      bit_or_fields 8 (a * 2 ^ 16 + b * 2 ^ 8 + c) d (omega arith),
    )

or_below : (k q a r : ℕ) → a ≡ q * 2 ^ k → r < 2 ^ k → bit_or a r ≡ a + r
or_below k q a r e h = rw e (bit_or_fields k q r h)

module _ (b0 b1 b2 b3 b4 b5 b6 b7 : ℕ) (h0 : b0 < 256) (h1 : b1 < 256) (h2 : b2 < 256)
    (h3 : b3 < 256) (h4 : b4 < 256) (h5 : b5 < 256) (h6 : b6 < 256) (h7 : b7 < 256) where
  or_bytes :
      bit_or
        (bit_or
          (bit_or
            (bit_or
              (bit_or (bit_or (bit_or (b0 * 2 ^ 56) (b1 * 2 ^ 48)) (b2 * 2 ^ 40)) (b3 * 2 ^ 32))
              (b4 * 2 ^ 24))
            (b5 * 2 ^ 16))
          (b6 * 2 ^ 8))
        b7
      ≡ b0 * 2 ^ 56
        + b1 * 2 ^ 48
        + b2 * 2 ^ 40
        + b3 * 2 ^ 32
        + b4 * 2 ^ 24
        + b5 * 2 ^ 16
        + b6 * 2 ^ 8
        + b7
  or_bytes = rw (
    or_below 56 (b0) (b0 * 2 ^ 56) (b1 * 2 ^ 48) (omega arith) (omega arith),
    or_below 48 (b0 * 2 ^ 8 + b1) (b0 * 2 ^ 56 + b1 * 2 ^ 48) (b2 * 2 ^ 40) (omega arith)
        (omega arith),
    or_below 40 (b0 * 2 ^ 16 + b1 * 2 ^ 8 + b2) (b0 * 2 ^ 56 + b1 * 2 ^ 48 + b2 * 2 ^ 40)
        (b3 * 2 ^ 32) (omega arith) (omega arith),
    or_below 32 (b0 * 2 ^ 24 + b1 * 2 ^ 16 + b2 * 2 ^ 8 + b3)
        (b0 * 2 ^ 56 + b1 * 2 ^ 48 + b2 * 2 ^ 40 + b3 * 2 ^ 32) (b4 * 2 ^ 24) (omega arith)
        (omega arith),
    or_below 24 (b0 * 2 ^ 32 + b1 * 2 ^ 24 + b2 * 2 ^ 16 + b3 * 2 ^ 8 + b4)
        (b0 * 2 ^ 56 + b1 * 2 ^ 48 + b2 * 2 ^ 40 + b3 * 2 ^ 32 + b4 * 2 ^ 24) (b5 * 2 ^ 16)
        (omega arith) (omega arith),
    or_below 16 (b0 * 2 ^ 40 + b1 * 2 ^ 32 + b2 * 2 ^ 24 + b3 * 2 ^ 16 + b4 * 2 ^ 8 + b5)
        (b0 * 2 ^ 56 + b1 * 2 ^ 48 + b2 * 2 ^ 40 + b3 * 2 ^ 32 + b4 * 2 ^ 24 + b5 * 2 ^ 16)
        (b6 * 2 ^ 8) (omega arith) (omega arith),
    or_below 8
        (b0 * 2 ^ 48 + b1 * 2 ^ 40 + b2 * 2 ^ 32 + b3 * 2 ^ 24 + b4 * 2 ^ 16 + b5 * 2 ^ 8 + b6)
        (b0 * 2 ^ 56
          + b1 * 2 ^ 48
          + b2 * 2 ^ 40
          + b3 * 2 ^ 32
          + b4 * 2 ^ 24
          + b5 * 2 ^ 16
          + b6 * 2 ^ 8)
        (b7) (omega arith) (omega arith),
  )

-- Each masked byte of the 64-bit swap, moved to its new place.
module _ (v : ℕ) where
  moved0 : bit_and (u64 v) 0x00000000000000ff * 2 ^ 56 ≡ v % 256 * 2 ^ 56
  moved0 = omega (arith, field 0 (u64 v))

  moved1 : bit_and (u64 v) 0x000000000000ff00 * 2 ^ 40 ≡ v / 2 ^ 8 % 256 * 2 ^ 48
  moved1 = omega (arith, field 8 (u64 v))

  moved2 : bit_and (u64 v) 0x0000000000ff0000 * 2 ^ 24 ≡ v / 2 ^ 16 % 256 * 2 ^ 40
  moved2 = omega (arith, field 16 (u64 v))

  moved3 : bit_and (u64 v) 0x00000000ff000000 * 2 ^ 8 ≡ v / 2 ^ 24 % 256 * 2 ^ 32
  moved3 = omega (arith, field 24 (u64 v))

  moved4 : bit_and (u64 v) 0x000000ff00000000 / 2 ^ 8 ≡ v / 2 ^ 32 % 256 * 2 ^ 24
  moved4 = omega (arith, field 32 (u64 v))

  moved5 : bit_and (u64 v) 0x0000ff0000000000 / 2 ^ 24 ≡ v / 2 ^ 40 % 256 * 2 ^ 16
  moved5 = omega (arith, field 40 (u64 v))

  moved6 : bit_and (u64 v) 0x00ff000000000000 / 2 ^ 40 ≡ v / 2 ^ 48 % 256 * 2 ^ 8
  moved6 = omega (arith, field 48 (u64 v))

  moved7 : bit_and (u64 v) 0xff00000000000000 / 2 ^ 56 ≡ v / 2 ^ 56 % 256
  moved7 = omega (arith, field 56 (u64 v))

swap64_as_sum :
    (v : ℕ)
    → swap64 v
      ≡ v % 256 * 2 ^ 56
        + v / 2 ^ 8 % 256 * 2 ^ 48
        + v / 2 ^ 16 % 256 * 2 ^ 40
        + v / 2 ^ 24 % 256 * 2 ^ 32
        + v / 2 ^ 32 % 256 * 2 ^ 24
        + v / 2 ^ 40 % 256 * 2 ^ 16
        + v / 2 ^ 48 % 256 * 2 ^ 8
        + v / 2 ^ 56 % 256
unfolding swap64
swap64_as_sum v =
    rw
      (
        moved0 v,
        moved1 v,
        moved2 v,
        moved3 v,
        moved4 v,
        moved5 v,
        moved6 v,
        moved7 v,
        or_bytes (v % 256) (v / 2 ^ 8 % 256) (v / 2 ^ 16 % 256) (v / 2 ^ 24 % 256)
            (v / 2 ^ 32 % 256) (v / 2 ^ 40 % 256) (v / 2 ^ 48 % 256) (v / 2 ^ 56 % 256)
            (omega arith) (omega arith) (omega arith) (omega arith) (omega arith) (omega arith)
            (omega arith) (omega arith),
      )
      (omega arith)

-- The bytes of a word in memory order, lowest first.
abbrev pub little_bytes : ℕ → ℕ → List ℕ
little_bytes zero x = []
little_bytes (suc n) x = x % 256 ∷ little_bytes n (x / 256)

-- `__swap16`, `__swap32` and `__swap64` reverse the bytes of a value of their width.
pub swap-reverse :
    (v : ℕ)
    → (little_bytes 2 (swap16 v) ≡ reverse (little_bytes 2 v))
      × (little_bytes 4 (swap32 v) ≡ reverse (little_bytes 4 v))
      × (little_bytes 8 (swap64 v) ≡ reverse (little_bytes 8 v))
swap-reverse v = (
  ground (arith, swap16_as_sum v),
  ground (arith, swap32_as_sum v),
  ground (arith, swap64_as_sum v),
)

-- Swapping twice gives the value back, cut to the width.
pub swap_twice :
    (v : ℕ)
    → (swap16 (swap16 v) ≡ u16 v) × (swap32 (swap32 v) ≡ u32 v) × (swap64 (swap64 v) ≡ u64 v)
swap_twice v = (
  omega (arith, swap16_as_sum v, swap16_as_sum (swap16 v)),
  omega (arith, swap32_as_sum v, swap32_as_sum (swap32 v)),
  omega (arith, swap64_as_sum v, swap64_as_sum (swap64 v)),
)
