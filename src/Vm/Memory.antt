-- ===== src/Vm/Memory.antt =====
-- The flat, little endian memory that the loads and stores of ebpf_vm.c dereference addresses in.
-- Unmapped addresses hold nothing: an access to one is undefined.
use native.Mathlib.Nat.{pow-succ', mod-add-div, div-div-eq-div-mul}
use mathlib.Core.Option.{some-injective}
use rapid_patch_runtime_ae.Common.{
  ◌↔◌, sym, ap, ◌∙◌, ℕ, zero, suc, ◌+◌, ◌*◌, ◌/◌, ◌%◌, ◌^◌, ◌≤◌, ◌<◌, ◌≡◌, ◌≢◌, ◌⊎◌, inl, inr, refl,
  arith, Option, none, some, ◌==◌, if◌then◌else◌, Option-cases,
}

abbrev pub Memory : Type 0
Memory = ℕ → Option ℕ

abbrev pub put : Memory → ℕ → ℕ → Memory
put m a v = λ b. if b == a then some v else m b

-- `*(T *) a` for an unsigned type `T` of `n` bytes.
unfoldable pub load : Memory → ℕ → ℕ → Option ℕ
load m a zero = some 0
load m a (suc n) = elim (m a) [
  | none ↦ none
  | some low ↦ elim (load m (a + 1) n) [ none ↦ none | some high ↦ some (low + 256 * high) ]
]

-- `*(T *) a = v`, which cuts `v` to the `n` bytes of `T`.
unfoldable pub store : Memory → ℕ → ℕ → ℕ → Option Memory
store m a zero v = some m
store m a (suc n) v = elim (m a) [
  | none ↦ none
  | some old ↦ store (put m a (v % 256)) (a + 1) n (v / 256)
]

put_self : (m : Memory) (a v : ℕ) → put m a v a ≡ some v
put_self m a v = ground arith

put_ne : (m : Memory) (a v b : ℕ) → b ≢ a → put m a v b ≡ m b
put_ne m a v b h = ground arith

-- What the first byte of a successful access says.
store-suc :
    (m : Memory) (a n v : ℕ) {m' : Memory}
    → store m a (suc n) v ≡ some m'
    → (old : ℕ) × (m a ≡ some old) × (store (put m a (v % 256)) (a + 1) n (v / 256) ≡ some m')
unfolding store
store-suc m a n v e = elim (Option-cases (m a)) [
  | inl gone ↦ absurd (let x = rw (gone, store) at e in cc)
  | inr (old, here) ↦ (old, here, rw (here, store) at e)
]

load-suc :
    (m : Memory) (a n : ℕ) {x : ℕ}
    → load m a (suc n) ≡ some x
    → (low high : ℕ) × (m a ≡ some low) × (load m (a + 1) n ≡ some high)
unfolding load
load-suc m a n e = ground arith

-- A store leaves every byte outside its range alone.
pub store-frame :
    (m : Memory) (a n v : ℕ) {m' : Memory}
    → store m a n v ≡ some m'
    → (b : ℕ) → (b < a) ⊎ (a + n ≤ b)
    → m' b ≡ m b
unfolding store
store-frame m a zero v {m'} e b h = ap (λ (f : Memory). f b) (sym (some-injective m m' e))
store-frame m a (suc n) v e b h =
    let (old, here, rest) = store-suc m a n v e in
    store-frame (put m a (v % 256)) (a + 1) n (v / 256) rest b (ground arith)
    ∙ put_ne m a (v % 256) b (ground arith)

-- What a load reads depends on its own bytes alone.
load-ext :
    (m m' : Memory) (a n : ℕ)
    → ((b : ℕ) → a ≤ b → b < a + n → m b ≡ m' b)
    → load m a n ≡ load m' a n
unfolding load
load-ext m m' a zero h = refl
load-ext m m' a (suc n) h =
    ground (arith, h a, load-ext m m' (a + 1) n (λ b p q. h b (omega arith) (omega arith)))

mod-pow-suc : (v k : ℕ) → v % 256 + 256 * (v / 256 % k) ≡ v % (256 * k)
mod-pow-suc v k = omega (
  arith,
  mod-add-div (v / 256) k,
  mod-add-div v (256 * k),
  ap (λ (t : ℕ). 256 * k * t) (div-div-eq-div-mul v 256 k),
)

-- Loading what was stored gives the value back, cut to the width.
pub load-store :
    (m : Memory) (a n v : ℕ) {m' : Memory}
    → store m a n v ≡ some m'
    → load m' a n ≡ some (v % 256 ^ n)
unfolding load store
load-store m a zero v e = ap some (omega arith)
load-store m a (suc n) v {m'} e =
    let (old, here, rest) = store-suc m a n v e in
    let low : m' a ≡ some (v % 256) =
      store-frame (put m a (v % 256)) (a + 1) n (v / 256) rest a (inl (omega arith))
      ∙ put_self m a (v % 256) in
    rw (pow-succ' 256 n) (
      ground (
        arith,
        low,
        load-store (put m a (v % 256)) (a + 1) n (v / 256) rest,
        mod-pow-suc v (256 ^ n),
      ))

pub store_of_load :
    (m : Memory) (a n v : ℕ) {x : ℕ}
    → load m a n ≡ some x
    → (m' : Memory) × (store m a n v ≡ some m')
unfolding store
store_of_load m a zero v e = (m, refl)
store_of_load m a (suc n) v e =
    let (low, high, here, rest) = load-suc m a n e in
    let same =
      load-ext m (put m a (v % 256)) (a + 1) n
        (λ b p q. sym (put_ne m a (v % 256) b (omega arith))) in
    let (m', done) = store_of_load (put m a (v % 256)) (a + 1) n (v / 256) (sym same ∙ rest) in
    (m', rw (here, store) done)

load_of_store :
    (m : Memory) (a n v : ℕ)
    → ((m' : Memory) × (store m a n v ≡ some m'))
    → (x : ℕ) × (load m a n ≡ some x)
unfolding load
load_of_store m a zero v e = (0, refl)
load_of_store m a (suc n) v (m', e) =
    let (old, here, rest) = store-suc m a n v e in
    let same =
      load-ext m (put m a (v % 256)) (a + 1) n
        (λ b p q. sym (put_ne m a (v % 256) b (omega arith))) in
    let (high, read) = load_of_store (put m a (v % 256)) (a + 1) n (v / 256) (m', rest) in
    (old + 256 * high, ground (arith, same))

-- A store succeeds exactly where a load does.
pub store_iff_load :
    (m : Memory) (a n v : ℕ)
    → ((m' : Memory) × (store m a n v ≡ some m')) ↔ ((x : ℕ) × (load m a n ≡ some x))
store_iff_load m a n v = (load_of_store m a n v, λ (x, e). store_of_load m a n v e)
