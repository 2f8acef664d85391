-- ===== src/Tests/Shell.antt =====
-- The shell at concrete lines.
use rapid_patch_runtime_ae.Common.{
  ℕ, ◌≡◌, ◌≤◌, refl, arith, Bool, ◌&&◌, leb, List, [], ◌∷◌, ◌++◌, map, true, false, replicate,
}
use rapid_patch_runtime_ae.Shell.Text.{Command, shell_dispatch_cmd, str2int}
use rapid_patch_runtime_ae.Shell.Line.{Action, put_char, call, cleared, shell_loop}
use rapid_patch_runtime_ae.Shell.Words.{words_after, NoNul}
use rapid_patch_runtime_ae.Shell.Typing.{NoEnd, holding, shell_loop-deaf}
use rapid_patch_runtime_ae.Shell.Session.{
  session, answer, typed_lines, AreLines, shell_loop-session,
}

-- "vm  12" and "q".
abbrev vm_12 : List ℕ
vm_12 = b'v' ∷ b'm' ∷ b' ' ∷ b' ' ∷ b'1' ∷ b'2' ∷ []

abbrev lines : List (List ℕ)
lines = vm_12 ∷ (b'q' ∷ []) ∷ vm_12 ∷ []

-- Characters from the blank on.
abbrev is_plain : List ℕ → Bool
is_plain [] = true
is_plain (c ∷ cs) = leb 32 c && is_plain cs

plain-head : (a b : Bool) → (a && b) ≡ true → (a ≡ true) × (b ≡ true)
plain-head true true e = (refl, refl)
plain-head true false e = absurd (ground arith)
plain-head false b e = absurd (ground arith)

plain-NoEnd : (cs : List ℕ) → is_plain cs ≡ true → NoEnd cs × NoNul cs
plain-NoEnd [] e = (tt, tt)
plain-NoEnd (c ∷ cs) e =
    let (first, rest) = plain-head (leb 32 c) (is_plain cs) e in
    let printed : 32 ≤ c = ground arith in
    let (ends, nuls) = plain-NoEnd cs rest in
    ((omega arith, omega arith, ends), (omega arith, nuls))

lines-AreLines : AreLines lines
lines-AreLines =
    let (vm_ends, vm_nuls) = plain-NoEnd vm_12 refl in
    let (q_ends, q_nuls) = plain-NoEnd (b'q' ∷ []) refl in
    (
      omega arith,
      vm_ends,
      vm_nuls,
      (omega arith, q_ends, q_nuls, (omega arith, vm_ends, vm_nuls, tt)),
    )

-- The commands among the actions.
abbrev commands : List Action → List Command
commands [] = []
commands (put_char c ∷ rest) = commands rest
commands (call c ∷ rest) = c ∷ commands rest

lines_run : commands (session lines) ≡ Command.run_vm 12 ∷ Command.exit_shell ∷ []
unfolding session answer words_after shell_dispatch_cmd str2int
lines_run = refl

shell_loop-session_example : shell_loop true cleared (typed_lines lines) ≡ (cleared, session lines)
shell_loop-session_example = shell_loop-session true lines lines-AreLines

abbrev long : List ℕ
long = replicate 128 b'x'

long_ends : NoEnd long
long_ends = (plain-NoEnd long refl).0

shell_loop-deaf_example :
    shell_loop false cleared (long ++ (b'\n' ∷ b'q' ∷ b'\n' ∷ []))
    ≡ (holding long, map put_char (long ++ (b'\n' ∷ b'q' ∷ b'\n' ∷ [])))
shell_loop-deaf_example = shell_loop-deaf false long (b'\n' ∷ b'q' ∷ b'\n' ∷ []) refl long_ends
