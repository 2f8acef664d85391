-- ===== src/Service/Ending.antt =====
-- The loop of hotpatch/src/patch_service.c ends when the peer has no more to send.
use rapid_patch_runtime_ae.Common.{
  ℕ, zero, suc, ◌+◌, ◌-◌, ◌^◌, ◌≤◌, ◌<◌, ◌≡◌, refl, sym, ap, arith, ◌⊎◌, inl, inr, List, [], ◌∷◌,
  Option, none, some, false, ◌==◌, length, take, u32, ==_iff, Bool-cases, Option-cases,
}
use rapid_patch_runtime_ae.Patch.Filter.{some_inj}
use rapid_patch_runtime_ae.Container.ArrayMap.{Slack}
use rapid_patch_runtime_ae.Point.Address.{byte2int}
use rapid_patch_runtime_ae.Point.Comparators.{Image}
use rapid_patch_runtime_ae.Patch.Context.{assign}
use rapid_patch_runtime_ae.Patch.Registry.{notify_new_patch}
use rapid_patch_runtime_ae.Service.Commands.{
  Outside, Service, running, wait_for_init, overwrite, desc_of, linux_dis_connect, install_packet,
  load_packet, load_patch, dispatch_patch_command, wait_round, wait_for_patch,
}

-- The bytes that the peer has still to send are a finite number, which each byte received takes one
-- off and nothing else adds to.
pub record Finite {W : Type 0} (o : Outside W) (left : W → ℕ) : Type 0 where
  pub after_receive : (w : W) (n : ℕ) → left (o.receive w n).0 + length (o.receive w n).1 ≤ left w
  pub after_send : (w : W) (bytes : List ℕ) → left (o.send w bytes).0 ≤ left w
  pub after_close : (w : W) → left (o.close w) ≤ left w
  pub after_malloc : (w : W) (n : ℕ) → left (o.malloc w n).0 ≤ left w
  pub after_init : (w : W) → left (o.init_ebpf_vm w).0 ≤ left w

-- The loop has come to an end with no connection, or to something that C gives no meaning.
abbrev pub Ended : {W : Type 0} → Option (Option (Service W)) → Type 0
Ended {W} r = (r ≡ none) ⊎ ((t : Service W) × (r ≡ some (some t)) × ((t.status == running) ≡ false))

module _ {W : Type 0} (o : Outside W) (image : Image) (sl : Slack) (left : W → ℕ)
    (fin : Finite o left) where
  dis_connect-left : (s : Service W) → left (linux_dis_connect o image sl s).world ≤ left s.world
  unfolding linux_dis_connect
  dis_connect-left s = elim (Bool-cases (s.status == wait_for_init)) [
    | inl e ↦ rw e (omega arith)
    | inr e ↦ rw e (fin.after_close s.world)
  ]

  install_packet-world :
      (s u : Service W) (pkt vm fresh : ℕ) (bytes : List ℕ)
      → install_packet o image sl s pkt vm fresh bytes ≡ some u
      → u.world ≡ s.world
  unfolding install_packet
  install_packet-world s u pkt vm fresh bytes e = elim (Bool-cases (pkt == 0)) [
    | inl z ↦ absurd (let x = rw z at e in cc)
    | inr z ↦ elim (Option-cases (desc_of bytes)) [
      | inl d ↦ absurd (let x = rw (z, d) at e in cc)
      | inr (desc, d) ↦
          let held = record s.patches { descs = assign s.patches.descs pkt desc } in
          elim (Option-cases (notify_new_patch image sl vm fresh held pkt)) [
            | inl n ↦ absurd (let x = rw (z, d, n) at e in cc)
            | inr (patches, n) ↦
                let x = rw (z, d, n) at e in ap (λ (t : Service W). t.world) (sym (some_inj x))
          ]
    ]
  ]

  load_packet-left :
      (s u : Service W) (len : ℕ)
      → load_packet o image sl s len ≡ some u
      → left u.world ≤ left s.world
  unfolding load_packet
  load_packet-left s u len e =
      let n = u32 (len + 2 ^ 32 - 16) in
      let w2 = (o.malloc s.world n).0 in
      let w3 = (o.receive w2 16).0 in
      let w4 = (o.receive w3 n).0 in
      let w5 = (o.init_ebpf_vm w4).0 in
      let w6 = (o.malloc w5 12).0 in
      let same : u.world ≡ w6 =
        install_packet-world (record s { world = w6 }) u (o.malloc s.world n).1
          (o.init_ebpf_vm w4).1 (o.malloc w5 12).1
          (overwrite (o.receive w3 n).1 (o.garbage w2 (o.malloc s.world n).1)) e in
      rw same (
        omega (
          arith,
          fin.after_malloc s.world n,
          fin.after_receive w2 16,
          fin.after_receive w3 n,
          fin.after_init w4,
          fin.after_malloc w5 12,
        ))

  load_patch-left :
      (s u : Service W) → load_patch o image sl s ≡ some u → left u.world ≤ left s.world
  unfolding load_patch
  load_patch-left s u e =
      let w = (o.receive s.world 2).0 in
      let buf = overwrite (o.receive s.world 2).1 s.buf in
      elim (Option-cases (byte2int (take 2 buf))) [
        | inl h ↦ absurd (let x = rw h at e in cc)
        | inr (len, h) ↦
            let x = rw h at e in
            omega (
              arith,
              fin.after_receive s.world 2,
              load_packet-left (record s { world = w; buf = buf }) u len x,
            )
      ]

  dispatch-left :
      (s u : Service W) (cmd : ℕ)
      → dispatch_patch_command o image sl s cmd ≡ some u
      → left u.world ≤ left s.world
  unfolding dispatch_patch_command
  dispatch-left s u cmd e = elim (Bool-cases (cmd == 0)) [
    | inl c0 ↦ let x = rw c0 at e in rw (sym (some_inj x)) (dis_connect-left s)
    | inr c0 ↦ elim (Bool-cases (cmd == 1)) [
      | inl c1 ↦ load_patch-left s u (rw (c0, c1) at e)
      | inr c1 ↦ elim (Bool-cases (cmd == 2)) [
        | inl c2 ↦
            let w = (o.send s.world (2 ∷ [])).0 in
            let sent = record s { world = w; status = running } in
            let less = fin.after_send s.world (2 ∷ []) in
            elim (Bool-cases ((o.send s.world (2 ∷ [])).1 == 1)) [
              | inl ok ↦ let x = rw (c0, c1, c2, ok) at e in rw (sym (some_inj x)) less
              | inr ok ↦
                  let x = rw (c0, c1, c2, ok) at e in
                  rw (sym (some_inj x)) (omega (arith, less, dis_connect-left sent))
            ]
        | inr c2 ↦ let x = rw (c0, c1, c2) at e in rw (sym (some_inj x)) (omega arith)
      ]
    ]
  ]

  -- When the bytes that the peer has still to send are finite in number, as `Finite` says, and fewer
  -- than the rounds allowed, the loop of the service ends within them: with no connection, or with a
  -- command that C gives no meaning (a write through NULL, or out of an array).
  pub wait_for_patch-ends :
      (fuel : ℕ) (s : Service W) → left s.world < fuel → Ended (wait_for_patch o image sl fuel s)
  unfolding wait_for_patch wait_round linux_dis_connect
  wait_for_patch-ends zero s less = absurd (omega arith)
  wait_for_patch-ends (suc fuel) s less = elim (Bool-cases (s.status == running)) [
    | inr idle ↦ inr (s, rw idle refl, idle)
    | inl going ↦
        let w = (o.receive s.world 1).0 in
        let got = (o.receive s.world 1).1 in
        let t = record s { world = w; buf = overwrite got s.buf } in
        let count = fin.after_receive s.world 1 in
        elim (Bool-cases (length got == 1)) [
          | inr gone ↦ inr (linux_dis_connect o image sl t, rw (going, gone) refl, refl)
          | inl one ↦ elim (Option-cases (byte2int (take 1 t.buf))) [
            | inl h ↦ inl (rw (going, one, h) refl)
            | inr (cmd, h) ↦ elim (Option-cases (dispatch_patch_command o image sl t cmd)) [
              | inl d ↦ inl (rw (going, one, h, d) refl)
              | inr (u, d) ↦
                  let single : length got ≡ 1 = (==_iff (length got) 1).0 one in
                  let lower : left u.world < fuel =
                    omega (arith, dispatch-left t u cmd d, count, single) in
                  rw (going, one, h, d) (wait_for_patch-ends fuel u lower)
            ]
          ]
        ]
  ]
