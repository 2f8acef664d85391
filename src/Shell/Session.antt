-- ===== src/Shell/Session.antt =====
-- A session with the shell of app/ihp_cli.c, line by line.
use rapid_patch_runtime_ae.Common.{
  ℕ, suc, ◌+◌, ◌-◌, ◌<◌, ◌≡◌, refl, arith, List, [], ◌∷◌, ◌++◌, map, none, Bool, false, leb,
  if◌then◌else◌, inl, inr, Bool-cases, length, get_or, replicate, take, append_nil, append_assoc,
}
use rapid_patch_runtime_ae.Shell.Text.{max_args, arguments}
use rapid_patch_runtime_ae.Shell.Line.{
  Action, put_char, shell_buffer_size, cleared, prompt, calls, exits, shell_last_char,
  shell_process, shell_receive_char, shell_loop,
}
use rapid_patch_runtime_ae.Shell.Words.{words_after, NoNul}
use rapid_patch_runtime_ae.Shell.Scanning.{Scanned-all}
use rapid_patch_runtime_ae.Shell.Typing.{holding, NoEnd, set-next, get_or-next, passed_none, typed}

-- What the shell does at the end of a line: at most five of its words are a command.
unfoldable pub answer : List ℕ → List Action
answer line = put_char b'\n' ∷ (calls (take max_args (words_after none line)) ++ prompt)

-- A session, line by line, until a command exits.
unfoldable pub session : List (List ℕ) → List Action
session [] = []
session (line ∷ lines) =
    let rest = session lines in
    map put_char line ++ (answer line ++ (if exits (answer line) then [] else rest))

-- The characters of the lines, each with its newline.
abbrev pub typed_lines : List (List ℕ) → List ℕ
typed_lines [] = []
typed_lines (line ∷ lines) = line ++ (b'\n' ∷ typed_lines lines)

-- Lines that fit into the buffer with their newlines, without another end and without NULs.
abbrev pub AreLines : List (List ℕ) → Type 0
AreLines [] = Unit
AreLines (line ∷ lines) =
    (length line < shell_buffer_size) × NoEnd line × NoNul line × AreLines lines

arguments-words :
    (line tail : List ℕ)
    → NoEnd line
    → NoNul line
    → arguments ((line ++ (b'\n' ∷ [])) ++ tail) (length line + 1)
      ≡ take max_args (words_after none line)
unfolding arguments
arguments-words line tail no_end no_nul =
    let back : length line + 1 - 1 ≡ length line = omega arith in
    let one : length line + 1 ≡ suc (length line) = omega arith in
    let all =
      Scanned-all (length line) tail line no_end no_nul [] [] [] none none (omega arith)
        (λ rest. refl) tt in
    rw (append_assoc line (b'\n' ∷ []) tail, back, one) all

module _ (qemu : Bool) where
  entered :
      (line : List ℕ)
      → length line < shell_buffer_size
      → NoEnd line
      → NoNul line
      → shell_receive_char qemu (holding line) b'\n' ≡ (cleared, answer line)
  unfolding shell_receive_char shell_process shell_last_char answer
  entered line room no_end no_nul =
      let k = 127 - length line in
      let one_less : shell_buffer_size - length line ≡ suc k = omega arith in
      let last : length line + 1 - 1 ≡ length line = omega arith in
      let not_full : leb shell_buffer_size (length line) ≡ false = ground arith in
      let here : get_or ((line ++ (b'\n' ∷ [])) ++ replicate k 0) (length line) 0 ≡ b'\n' =
        get_or-next line (replicate k 0) b'\n' in
      let found = arguments-words line (replicate k 0) no_end no_nul in
      rw (one_less, set-next line k b'\n', last, here, not_full, passed_none qemu, found) refl

  -- Lines that fit into the buffer with their newlines and hold no other newline, no carriage return
  -- and no NUL, typed from the empty buffer: each line is echoed; at its newline the shell calls the
  -- command that its first five words name, parted by blanks, or none if the line has no word, and
  -- puts out the prompt; it stops after a line whose command exits, and the buffer is empty at the
  -- end.
  pub shell_loop-session :
      (lines : List (List ℕ))
      → AreLines lines
      → shell_loop qemu cleared (typed_lines lines) ≡ (cleared, session lines)
  unfolding shell_loop session cleared
  shell_loop-session [] lines = refl
  shell_loop-session (line ∷ lines) (room, no_end, no_nul, others) =
      let rest = shell_loop-session lines others in
      let run = typed qemu [] line (b'\n' ∷ typed_lines lines) (omega arith) no_end in
      let enter = entered line room no_end no_nul in
      elim (Bool-cases (exits (answer line))) [
        | inl quit ↦ rw (run, enter, quit, append_nil (answer line)) refl
        | inr on ↦ rw (run, enter, on, rest) refl
      ]
