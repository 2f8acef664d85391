-- ===== src/Shell/Text.antt =====
-- The words of a line in the shell of app/ihp_cli.c, and the command that they name.
use rapid_patch_runtime_ae.Common.{
  ℕ, zero, suc, ◌+◌, ◌-◌, ◌*◌, ◌^◌, List, [], ◌∷◌, ◌++◌, Option, none, some, Bool, ◌==◌, ◌||◌, leb,
  if◌then◌else◌, length, set, get_or, drop, map, u32,
}
use rapid_patch_runtime_ae.Table.Hash.{str_equal_fn}

-- The variables of the loop in `shell_process`: the buffer, `next_arg` and `argv`, as positions.
pub record Scan : Type 0 where
  pub buffer : List ℕ
  pub next_arg : Option ℕ
  pub argv : List ℕ

abbrev pub max_args : ℕ
max_args = 5

-- What ends a word: a newline or a blank; at `last` every character does.
abbrev pub is_break : ℕ → Bool
is_break c = c == b'\n' || c == b' '

-- One round at position `i`.
unfoldable pub scan_char : ℕ → ℕ → Scan → Scan
scan_char last i s =
    let c = get_or s.buffer i 0 in
    if is_break c || i == last
    then elim s.next_arg [
      | none ↦ record s { buffer = set s.buffer i 0 }
      | some start ↦ record {
        buffer = set s.buffer i 0;
        next_arg = none;
        argv = s.argv ++ (start ∷ []);
      }
    ]
    else elim s.next_arg [ none ↦ record s { next_arg = some i } | some start ↦ s ]

-- The rounds that are left, `count` at most.
unfoldable pub scan : ℕ → ℕ → ℕ → Scan → Scan
scan last zero i s = s
scan last (suc count) i s =
    let rest = scan last count (i + 1) (scan_char last i s) in
    if leb max_args (length s.argv) then s else rest

-- The string at the start of a list of characters, or all of it if no NUL follows.
unfoldable pub c_string : List ℕ → List ℕ
c_string [] = []
c_string (c ∷ cs) = let rest = c_string cs in if c == 0 then [] else c ∷ rest

-- `argv` after the loop over the first `rx_pos` characters.
unfoldable pub arguments : List ℕ → ℕ → List (List ℕ)
unfolding scan scan_char c_string
arguments buffer rx_pos =
    let s = scan (rx_pos - 1) rx_pos 0 (record { buffer = buffer; next_arg = none; argv = [] }) in
    map (λ start. c_string (drop start s.buffer)) s.argv

-- `str2int`, in 32 bits; nothing tells a digit from another character.
unfoldable pub str2int_from : ℕ → List ℕ → ℕ
str2int_from val [] = val
str2int_from val (c ∷ cs) = str2int_from (u32 (u32 (val * 10) + c + (2 ^ 32 - b'0'))) cs

unfoldable pub str2int : List ℕ → ℕ
unfolding str2int_from
str2int str = str2int_from 0 str

-- What `shell_dispatch_cmd` does: the functions that it calls with their arguments.
pub data Command : Type 0 where
  exit_shell help : Command
  run_test trigger patch run_vm : ℕ → Command
  trigger_usage patch_usage vm_usage transfer nothing not_found : Command

-- The second argument, if there is one.
abbrev pub with_number : (ℕ → Command) → Command → List (List ℕ) → Command
with_number f missing [] = missing
with_number f missing (a ∷ rest) = f (str2int a)

unfoldable pub shell_dispatch_cmd : List (List ℕ) → Command
unfolding str_equal_fn str2int
shell_dispatch_cmd [] = Command.nothing
shell_dispatch_cmd (name ∷ rest) =
    if str_equal_fn name (b'q' ∷ [])
    then Command.exit_shell
    else if str_equal_fn name (b'h' ∷ []) || str_equal_fn name (b'h' ∷ b'e' ∷ b'l' ∷ b'p' ∷ [])
    then Command.help
    else if str_equal_fn name (b'r' ∷ b'u' ∷ b'n' ∷ [])
    then with_number Command.run_test Command.nothing rest
    else if str_equal_fn name (b't' ∷ b'r' ∷ b'i' ∷ b'g' ∷ b'g' ∷ b'e' ∷ b'r' ∷ [])
    then with_number Command.trigger Command.trigger_usage rest
    else if str_equal_fn name (b'p' ∷ b'a' ∷ b't' ∷ b'c' ∷ b'h' ∷ [])
    then with_number Command.patch Command.patch_usage rest
    else if str_equal_fn name (b'v' ∷ b'm' ∷ [])
    then with_number Command.run_vm Command.vm_usage rest
    else if str_equal_fn name (b't' ∷ b'r' ∷ b'a' ∷ b'n' ∷ b's' ∷ b'f' ∷ b'e' ∷ b'r' ∷ [])
    then Command.transfer
    else Command.not_found
