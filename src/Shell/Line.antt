-- ===== src/Shell/Line.antt =====
-- The buffer of the shell of app/ihp_cli.c and its loop over the characters received.
use rapid_patch_runtime_ae.Common.{
  ℕ, ◌+◌, ◌-◌, List, [], ◌∷◌, ◌++◌, Bool, true, false, ◌==◌, ◌||◌, ◌&&◌, not, leb, if◌then◌else◌,
  set, get_or, replicate,
}
use rapid_patch_runtime_ae.Shell.Text.{Command, arguments, shell_dispatch_cmd}

abbrev pub shell_buffer_size : ℕ
shell_buffer_size = 128

-- `shell_cli`.
pub record ShellContext : Type 0 where
  pub rx_pos : ℕ
  pub rx_buffer : List ℕ

-- What the shell does to the outside: a character put out, and a command. What the functions that it
-- calls do is theirs.
pub data Action : Type 0 where
  put_char : ℕ → Action
  call : Command → Action

-- `memset(&shell_cli, 0, sizeof(shell_cli))`.
unfoldable pub cleared : ShellContext
cleared = record { rx_pos = 0; rx_buffer = replicate shell_buffer_size 0 }

abbrev pub prompt : List Action
prompt = put_char b'$' ∷ put_char b' ' ∷ []

unfoldable pub shell_last_char : ShellContext → ℕ
shell_last_char s = get_or s.rx_buffer (s.rx_pos - 1) 0

abbrev pub calls : List (List ℕ) → List Action
calls [] = []
calls (name ∷ rest) = call (shell_dispatch_cmd (name ∷ rest)) ∷ []

unfoldable pub shell_process : ShellContext → ShellContext × List Action
unfolding shell_last_char
shell_process s =
    let c = shell_last_char s in
    if not (c == b'\n') && not (c == b'\r')
    then (s, [])
    else (cleared, calls (arguments s.rx_buffer s.rx_pos) ++ prompt)

-- Whether `exit_shell` has been set.
abbrev pub exits : List Action → Bool
exits [] = false
exits (call Command.exit_shell ∷ rest) = true
exits (action ∷ rest) = exits rest

-- `qemu` tells whether `DEV_QEMU` is defined: without it a carriage return is passed over.
module _ (qemu : Bool) where
  unfoldable pub shell_receive_char : ShellContext → ℕ → ShellContext × List Action
  unfolding shell_process
  shell_receive_char s c =
      let passed_over = (not qemu && c == b'\r') || leb shell_buffer_size s.rx_pos in
      if passed_over
      then (s, put_char c ∷ [])
      else (let stored : ShellContext = record {
        rx_pos = s.rx_pos + 1;
        rx_buffer = set s.rx_buffer s.rx_pos c;
      } in
          let (t, actions) = shell_process stored in (t, put_char c ∷ actions))

  -- `while (!exit_shell)` on the characters that come in: the state and all that was done.
  unfoldable pub shell_loop : ShellContext → List ℕ → ShellContext × List Action
  unfolding shell_receive_char
  shell_loop s [] = (s, [])
  shell_loop s (c ∷ cs) =
      let (t, actions) = shell_receive_char s c in
      let (u, later) = shell_loop t cs in
      if exits actions then (t, actions) else (u, actions ++ later)

  -- `run_shell_cli`.
  unfoldable pub run_shell_cli : List ℕ → ShellContext × List Action
  unfolding shell_loop
  run_shell_cli chars =
      let (s, actions) = shell_loop cleared chars in (s, call Command.help ∷ (prompt ++ actions))
