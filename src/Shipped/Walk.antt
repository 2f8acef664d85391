-- ===== src/Shipped/Walk.antt =====
-- The loop in the source of `amnesia33_cve_2020_17445`, round by round.
use rapid_patch_runtime_ae.Common.{
  ℕ, zero, suc, ◌+◌, ◌-◌, ◌*◌, ◌%◌, ◌^◌, ◌<◌, ◌≡◌, ◌≢◌, refl, sym, arith, true, false, u32, Option,
  some, none, inl, inr, ◌⊎◌, Option-cases, ◌==◌, if◌then◌else◌,
}
use rapid_patch_runtime_ae.Patch.Filter.{some_inj}
use rapid_patch_runtime_ae.Vm.Inst.{Cond}
use rapid_patch_runtime_ae.Vm.Memory.{Memory, load}
use rapid_patch_runtime_ae.Vm.Alu.{holds}
use rapid_patch_runtime_ae.Shipped.Sources.{filter_destopt, refused, walk_options, intercept}

-- A byte is below 256.
abbrev pub IsBytes : Memory → Type 0
IsBytes m = (a v : ℕ) → m a ≡ some v → v < 256

pub load-byte : (m : Memory) (a v : ℕ) → IsBytes m → load m a 1 ≡ some v → v < 256
unfolding load
load-byte m a v bytes e = elim (Option-cases (m a)) [
  | inl gone ↦ absurd (let z = rw (gone, load) at e in cc)
  | inr (w, here) ↦ let z = some_inj (rw (here, load) at e) in omega (arith, bytes a w here, z)
]

pub walk_options-suc :
    (m : Memory) (n ptr option len : ℕ) (r : Option ℕ)
    → len ≢ 0
    → walk_options m (suc n) ptr option len ≡ some r
    → (b : ℕ) × (load m (u32 (option + 1)) 1 ≡ some b)
      × ((if refused ptr option len ((b + 2) % 256)
            then some (some (2 ^ 32 - 1))
            else walk_options m n
                (u32 (ptr + (b + 2) % 256))
                (option + (b + 2) % 256)
                ((len + 256 - (b + 2) % 256) % 256))
          ≡ some r)
unfolding walk_options
walk_options-suc m n ptr option len r some_len e =
    let going : (len == 0) ≡ false = ground arith in
    elim (Option-cases (load m (u32 (option + 1)) 1)) [
      | inl gone ↦ absurd (let z = rw (going, gone) at e in cc)
      | inr (b, here) ↦ (b, here, rw (going, here) at e)
    ]

pub walk_options-end :
    (m : Memory) (n ptr option : ℕ) (r : Option ℕ)
    → walk_options m n ptr option 0 ≡ some r
    → ((r ≡ none) × (n ≡ 0)) ⊎ ((r ≡ some 0) × (0 < n))
unfolding walk_options
walk_options-end m zero ptr option r e = inl (sym (some_inj e), refl)
walk_options-end m (suc n) ptr option r e = inr (sym (some_inj e), omega arith)

-- The source's test against the program's two.
pub refused_none :
    (ptr option len optlen : ℕ)
    → holds Cond.jeq optlen 0 ≡ true
    → refused (u32 ptr) option len optlen ≡ true
unfolding refused holds
refused_none ptr option len optlen h = ground arith

pub refused_wrapped :
    (ptr option len optlen : ℕ)
    → holds Cond.jge (u32 ptr) (u32 (ptr + optlen)) ≡ true
    → refused (u32 ptr) option len optlen ≡ true
unfolding refused holds
refused_wrapped ptr option len optlen h =
    let sum : u32 (u32 ptr + optlen) ≡ u32 (ptr + optlen) = omega arith in rw sum (ground arith)

pub not_refused :
    (ptr option len optlen : ℕ)
    → holds Cond.jeq optlen 0 ≡ false
    → holds Cond.jge (u32 ptr) (u32 (ptr + optlen)) ≡ false
    → refused (u32 ptr) option len optlen ≡ false
unfolding refused holds
not_refused ptr option len optlen g h =
    let sum : u32 (u32 ptr + optlen) ≡ u32 (ptr + optlen) = omega arith in rw sum (ground arith)

-- What a result of the source's filter comes from.
pub filter_destopt-some :
    (m : Memory) (n header ptr result : ℕ)
    → filter_destopt m n header ptr ≡ some (some result)
    → (d ret : ℕ) × (load m (u32 (header + 1)) 1 ≡ some d)
      × (walk_options m n (u32 (ptr + 2)) (header + 2) (((d + 1) * 8 + 254) % 256)
          ≡ some (some ret))
      × (intercept ret ≡ result)
unfolding filter_destopt
filter_destopt-some m n header ptr result e = elim (Option-cases (load m (u32 (header + 1)) 1)) [
  | inl gone ↦ absurd (let z = rw (gone, filter_destopt) at e in cc)
  | inr (d, read) ↦
      let len = ((d + 1) * 8 + 254) % 256 in
      let z = rw (read, filter_destopt) at e in
      elim (Option-cases (walk_options m n (u32 (ptr + 2)) (header + 2) len)) [
        | inl gone ↦ absurd (let y = rw gone at z in cc)
        | inr (none, out) ↦ absurd (let y = rw out at z in cc)
        | inr (some ret, walked) ↦ (d, ret, read, walked, some_inj (some_inj (rw walked at z)))
      ]
]

-- What the source's filter comes from when its loop does not end.
pub filter_destopt-none :
    (m : Memory) (n header ptr : ℕ)
    → filter_destopt m n header ptr ≡ some none
    → (d : ℕ) × (load m (u32 (header + 1)) 1 ≡ some d)
      × (walk_options m n (u32 (ptr + 2)) (header + 2) (((d + 1) * 8 + 254) % 256) ≡ some none)
unfolding filter_destopt
filter_destopt-none m n header ptr e = elim (Option-cases (load m (u32 (header + 1)) 1)) [
  | inl gone ↦ absurd (let z = rw (gone, filter_destopt) at e in cc)
  | inr (d, read) ↦
      let len = ((d + 1) * 8 + 254) % 256 in
      let z = rw (read, filter_destopt) at e in
      elim (Option-cases (walk_options m n (u32 (ptr + 2)) (header + 2) len)) [
        | inl gone ↦ absurd (let y = rw gone at z in cc)
        | inr (none, out) ↦ (d, read, out)
        | inr (some ret, walked) ↦ absurd (let y = rw walked at z in cc)
      ]
]
