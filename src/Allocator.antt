-- ===== src/Allocator.antt =====
-- libebpf/src/ebpf_allocator.c: the allocator in front of the system's own, with its count of bytes.
use rapid_patch_runtime_ae.Common.{
  ℕ, zero, suc, ◌+◌, ◌-◌, ◌≡◌, ◌≢◌, ◌≤◌, ◌<◌, ◌^◌, refl, ap, ◌∙◌, arith, List, [], ◌∷◌, ◌++◌,
  Option, none, some, true, false, ◌==◌, leb, if◌then◌else◌, length, take, drop, u32,
}
use rapid_patch_runtime_ae.Patch.Context.{Heap, ◌>>=◌, deref, assign}
use rapid_patch_runtime_ae.Patch.Notify.{deref-assign}

-- The bytes of the blocks by their address.
abbrev pub Blocks : Type 0
Blocks = Heap (List ℕ)

-- `my_os_malloc`, `my_os_calloc` and `my_os_free`.
pub record Os : Type 0 where
  pub malloc : ℕ → Blocks → Blocks × ℕ
  pub calloc : ℕ → ℕ → Blocks → Blocks × ℕ
  pub free : ℕ → Blocks → Blocks

pub record Allocator : Type 0 where
  pub mem_size : ℕ
  pub blocks : Blocks

-- `memcpy`; a block that is not there, or that is too short, is not copied from or to.
unfoldable pub memcpy : ℕ → ℕ → ℕ → Blocks → Option Blocks
memcpy to from count blocks = deref blocks from >>= λ source. deref blocks to >>= λ target.
    if leb count (length source)
    then (if leb count (length target)
        then some (assign blocks to (take count source ++ drop count target))
        else none)
    else none

module _ (os : Os) where
  unfoldable pub ebpf_malloc : ℕ → Allocator → Allocator × ℕ
  ebpf_malloc size s =
      let (blocks, p) = os.malloc size s.blocks in
      (record { mem_size = u32 (s.mem_size + size); blocks = blocks }, p)

  unfoldable pub ebpf_calloc : ℕ → ℕ → Allocator → Allocator × ℕ
  ebpf_calloc nelem elmsize s =
      let (blocks, p) = os.calloc nelem elmsize s.blocks in
      (record { mem_size = u32 (s.mem_size + elmsize); blocks = blocks }, p)

  unfoldable pub ebpf_free : ℕ → Allocator → Allocator
  ebpf_free rmem s = record s { blocks = os.free rmem s.blocks }

  -- `none` where C has no meaning.
  unfoldable pub ebpf_realloc : ℕ → ℕ → ℕ → Allocator → Option (Allocator × ℕ)
  unfolding ebpf_malloc ebpf_free
  ebpf_realloc rmem orisize newsize old =
      let s : Allocator = record old {
        mem_size = u32 (old.mem_size + newsize + 2 ^ 32 - orisize);
      } in
      let (t, pnew) = ebpf_malloc newsize s in
      if newsize == 0
      then some (ebpf_free rmem s, 0)
      else if rmem == 0
      then some (t, pnew)
      else if leb newsize orisize
      then some (s, rmem)
      else if pnew == 0
      then some (t, 0)
      else (memcpy pnew rmem orisize t.blocks >>= λ blocks.
          some (ebpf_free rmem (record t { blocks = blocks }), pnew))

-- What the system promises for a request of `size` bytes that it grants, and for a block given back.
pub record Grants (os : Os) (size : ℕ) (blocks : Blocks) (p : ℕ) (fresh : List ℕ) : Type 0 where
  pub granted : (os.malloc size blocks).1 ≡ p
  pub not_null : p ≢ 0
  pub there : deref (os.malloc size blocks).0 p ≡ some fresh
  pub bytes : length fresh ≡ size
  pub others :
      (q : ℕ) (bs : List ℕ)
      → deref blocks q ≡ some bs
      → (q ≢ p) × (deref (os.malloc size blocks).0 q ≡ some bs)

abbrev pub FreesOnly : Os → Type 0
FreesOnly os = (q p : ℕ) (blocks : Blocks) → q ≢ p → deref (os.free q blocks) p ≡ deref blocks p

memcpy-copies :
    (to from count : ℕ) (blocks : Blocks) (source target : List ℕ)
    → deref blocks from ≡ some source
    → deref blocks to ≡ some target
    → count ≤ length source
    → count ≤ length target
    → memcpy to from count blocks ≡ some (assign blocks to (take count source ++ drop count target))
unfolding memcpy
memcpy-copies to from count blocks source target here there long wide =
    let l : leb count (length source) ≡ true = ground arith in
    let w : leb count (length target) ≡ true = ground arith in rw (here, there, l, w) refl

take_all : (bytes : List ℕ) (n : ℕ) → length bytes ≡ n → take n bytes ≡ bytes
take_all [] zero e = refl
take_all [] (suc n) e = absurd (omega arith)
take_all (b ∷ bytes) zero e = absurd (omega arith)
take_all (b ∷ bytes) (suc n) e = ap (λ xs. b ∷ xs) (take_all bytes n (omega arith))

not_null_of : (blocks : Blocks) (p : ℕ) (bs : List ℕ) → deref blocks p ≡ some bs → (p == 0) ≡ false
not_null_of blocks p bs e = ground arith

-- A block that grows, where the system grants the new one and `free` leaves the other blocks alone:
-- the new block starts with the bytes of the old one and has the new size, and the count of bytes
-- grows by the difference of the sizes and by the whole new size as well.
pub ebpf_realloc-grows :
    (os : Os) (rmem orisize newsize p : ℕ) (s : Allocator) (bytes fresh : List ℕ)
    → FreesOnly os
    → Grants os newsize s.blocks p fresh
    → deref s.blocks rmem ≡ some bytes
    → length bytes ≡ orisize
    → orisize < newsize
    → newsize < 2 ^ 32
    → s.mem_size < 2 ^ 32
    → (t : Allocator) × (ebpf_realloc os rmem orisize newsize s ≡ some (t, p))
      × (deref t.blocks p ≡ some (bytes ++ drop orisize fresh))
      × (t.mem_size ≡ u32 (s.mem_size + (newsize - orisize) + newsize))
unfolding ebpf_realloc ebpf_malloc ebpf_free
ebpf_realloc-grows os rmem orisize newsize p s bytes fresh frees grants old size more word count =
    let (apart, kept) = grants.others rmem bytes old in
    let some_size : (newsize == 0) ≡ false = ground arith in
    let grows : leb newsize orisize ≡ false = ground arith in
    let rmem0 : (rmem == 0) ≡ false = not_null_of s.blocks rmem bytes old in
    let p0 : (p == 0) ≡ false = let n = grants.not_null in ground arith in
    let room : orisize ≤ length fresh = omega (arith, grants.bytes) in
    let copied =
      memcpy-copies p rmem orisize (os.malloc newsize s.blocks).0 bytes fresh kept grants.there
        (omega arith) room in
    let after =
      assign (os.malloc newsize s.blocks).0 p (take orisize bytes ++ drop orisize fresh) in
    (
      record {
        mem_size = u32 (u32 (s.mem_size + newsize + 2 ^ 32 - orisize) + newsize);
        blocks = os.free rmem after;
      },
      rw (some_size, rmem0, grows, grants.granted, p0, copied) refl,
      frees rmem p after apart
          ∙ deref-assign (os.malloc newsize s.blocks).0 p _ grants.not_null
          ∙ ap (λ xs. some (xs ++ drop orisize fresh)) (take_all bytes orisize size),
      omega arith,
    )
