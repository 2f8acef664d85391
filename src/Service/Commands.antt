-- ===== src/Service/Commands.antt =====
-- hotpatch/src/patch_service.c: the connection's status and the commands.
use rapid_patch_runtime_ae.Common.{
  ℕ, zero, suc, ◌+◌, ◌-◌, ◌*◌, ◌^◌, List, [], ◌∷◌, Option, none, some, Bool, true, false, not, ◌==◌,
  if◌then◌else◌, length, take, u32,
}
use rapid_patch_runtime_ae.Container.ArrayMap.{Slack}
use rapid_patch_runtime_ae.Point.Address.{byte2int}
use rapid_patch_runtime_ae.Point.Comparators.{Image}
use rapid_patch_runtime_ae.Patch.Context.{PatchType, Desc, Context, ◌>>=◌, assign, init_patch_sys}
use rapid_patch_runtime_ae.Patch.Registry.{notify_new_patch}

-- What the service takes from outside, over the state `W` of the world: the functions of
-- `patch_service` without their change of `status`, and the allocator. `receive` returns the bytes
-- that it has put into the buffer, `malloc` an address; `garbage` is what the memory there holds.
pub record Outside (W : Type 0) : Type 0 where
  pub connect : W → W × Bool
  pub receive : W → ℕ → W × List ℕ
  pub send : W → List ℕ → W × ℕ
  pub close : W → W
  pub malloc : W → ℕ → W × ℕ
  pub garbage : W → ℕ → List ℕ
  pub init_ebpf_vm : W → W × ℕ

-- `svr_ctx.status`, the buffer `buf` of four bytes, and the patches.
pub record Service (W : Type 0) : Type 0 where
  pub world : W
  pub status : ℕ
  pub buf : List ℕ
  pub patches : Context

abbrev pub wait_for_init : ℕ
wait_for_init = 0

abbrev pub running : ℕ
running = 1

-- The start of a buffer is overwritten with what has come.
abbrev pub overwrite : List ℕ → List ℕ → List ℕ
overwrite [] old = old
overwrite (b ∷ bs) [] = []
overwrite (b ∷ bs) (o ∷ old) = b ∷ overwrite bs old

-- The fields of the packed `patch_desc` in the first eight bytes, low byte first.
unfoldable pub desc_of : List ℕ → Option Desc
desc_of (t0 ∷ t1 ∷ l0 ∷ l1 ∷ a0 ∷ a1 ∷ a2 ∷ a3 ∷ code) =
    let type = t0 + t1 * 2 ^ 8 in
    let kind : PatchType =
      if type == 1
      then PatchType.fixed_patch_point
      else if type == 2
      then PatchType.dynamic_patch_point
      else PatchType.other_type in
    some (record { kind = kind; target = a0 + a1 * 2 ^ 8 + a2 * 2 ^ 16 + a3 * 2 ^ 24 })
desc_of _ = none

module _ {W : Type 0} (o : Outside W) (image : Image) (sl : Slack) where
  unfoldable pub linux_dis_connect : Service W → Service W
  linux_dis_connect s =
      let closed = if s.status == wait_for_init then s.world else o.close s.world in
      record s { world = closed; status = wait_for_init }

  unfoldable pub linux_setup_connect : Service W → Service W × Bool
  linux_setup_connect s =
      let (w, connected) = o.connect s.world in
      (record s { world = w; status = if connected then running else s.status }, connected)

  -- The packet at `pkt` becomes a patch, for which the memory at `vm` and `fresh` is taken. NULL
  -- from malloc cannot be written to.
  unfoldable pub install_packet : Service W → ℕ → ℕ → ℕ → List ℕ → Option (Service W)
  install_packet s pkt vm fresh bytes =
      if pkt == 0
      then none
      else (desc_of bytes >>= λ desc.
          notify_new_patch image sl vm fresh
            (record s.patches { descs = assign s.patches.descs pkt desc }) pkt
          >>= λ patches. some (record s { patches = patches }))

  -- The command `LOAD`, once the length of the packet is known. A length below 16 wraps around, as
  -- `int` to `size_t`. The results of `receive_buf` are not looked at.
  unfoldable pub load_packet : Service W → ℕ → Option (Service W)
  load_packet s len =
      let pkt_len = u32 (len + 2 ^ 32 - 16) in
      let (w2, pkt) = o.malloc s.world pkt_len in
      let (w3, sign) = o.receive w2 16 in
      let (w4, packet) = o.receive w3 pkt_len in
      let (w5, vm) = o.init_ebpf_vm w4 in
      let (w6, fresh) = o.malloc w5 12 in
      install_packet (record s { world = w6 }) pkt vm fresh (overwrite packet (o.garbage w2 pkt))

  unfoldable pub load_patch : Service W → Option (Service W)
  load_patch s =
      let (w, head) = o.receive s.world 2 in
      let buf = overwrite head s.buf in
      byte2int (take 2 buf) >>= λ len. load_packet (record s { world = w; buf = buf }) len

  -- `EXIT`, `LOAD` and `HEARTBEAT`; other numbers are passed over.
  unfoldable pub dispatch_patch_command : Service W → ℕ → Option (Service W)
  dispatch_patch_command s cmd =
      if cmd == 0
      then some (linux_dis_connect s)
      else if cmd == 1
      then load_patch s
      else if cmd == 2
      then (let (w, sz) = o.send s.world (2 ∷ []) in
          let sent = record s { world = w; status = running } in
          some (if sz == 1 then sent else linux_dis_connect sent))
      else some s

  -- One round of the loop of `wait_for_patch`, with whether it goes on.
  unfoldable pub wait_round : Service W → Option (Service W × Bool)
  wait_round s =
      if not (s.status == running)
      then some (s, false)
      else (let (w, got) = o.receive s.world 1 in
          let t = record s { world = w; buf = overwrite got s.buf } in
          if not (length got == 1)
          then some (linux_dis_connect t, false)
          else (byte2int (take 1 t.buf) >>= λ cmd.
              dispatch_patch_command t cmd >>= λ u. some (u, true)))

  -- The loop, on fuel: `none` where C has no meaning; `some none` when the fuel is used up.
  unfoldable pub wait_for_patch : ℕ → Service W → Option (Option (Service W))
  wait_for_patch zero s = some none
  wait_for_patch (suc fuel) s =
      wait_round s >>= λ r. if r.1 then wait_for_patch fuel r.0 else some (some r.0)

  -- `run_patch_task`: without a connection the service does not wait.
  unfoldable pub run_patch_task : ℕ → Service W → Option (Option (Service W))
  run_patch_task fuel s =
      let (t, connected) = linux_setup_connect s in
      if connected then wait_for_patch fuel t else some (some t)

  -- `start_patch_service` with `linux_patch_service_init`; its thread runs to the end here.
  unfoldable pub start_patch_service : ℕ → List ℕ → List ℕ → Service W → Option (Option (Service W))
  start_patch_service fuel fresh_keys fresh_vals s =
      init_patch_sys fresh_keys fresh_vals s.patches >>= λ patches.
      let ready = record s { patches = patches } in
      if ready.status == wait_for_init then run_patch_task fuel ready else some (some ready)
