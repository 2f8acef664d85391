-- ===== src/Shell/Typing.antt =====
-- Characters typed into the shell of app/ihp_cli.c before the end of the line.
use rapid_patch_runtime_ae.Common.{
  ℕ, suc, ◌+◌, ◌-◌, ◌≤◌, ◌<◌, ◌≡◌, ◌≢◌, refl, ap, arith, List, [], ◌∷◌, ◌++◌, map, Bool, true,
  false, ◌==◌, ◌||◌, ◌&&◌, not, leb, length, set, get_or, replicate, length-append, append_nil,
  append_assoc,
}
use rapid_patch_runtime_ae.Shell.Line.{
  ShellContext, put_char, shell_buffer_size, cleared, shell_last_char, shell_process,
  shell_receive_char, shell_loop,
}

-- The buffer holds some characters, and zeros behind them.
abbrev pub holding : List ℕ → ShellContext
holding done = record {
  rx_pos = length done;
  rx_buffer = done ++ replicate (shell_buffer_size - length done) 0;
}

-- No character ends the line.
abbrev pub NoEnd : List ℕ → Type 0
NoEnd [] = Unit
NoEnd (c ∷ cs) = (c ≢ b'\n') × (c ≢ b'\r') × NoEnd cs

pub set-next :
    (done : List ℕ) (k c : ℕ)
    → set (done ++ replicate (suc k) 0) (length done) c ≡ (done ++ (c ∷ [])) ++ replicate k 0
set-next [] k c = refl
set-next (d ∷ done) k c = ap (λ xs. d ∷ xs) (set-next done k c)

pub get_or-next :
    (done rest : List ℕ) (c : ℕ) → get_or ((done ++ (c ∷ [])) ++ rest) (length done) 0 ≡ c
get_or-next [] rest c = refl
get_or-next (d ∷ done) rest c = get_or-next done rest c

pub passed_none : (qemu : Bool) → ((not qemu && false) || false) ≡ false
passed_none true = refl
passed_none false = refl

passed_all : (b : Bool) → (b || true) ≡ true
passed_all true = refl
passed_all false = refl

map-append : {A B : Type 0} (f : A → B) (xs ys : List A) → map f (xs ++ ys) ≡ map f xs ++ map f ys
map-append f [] ys = refl
map-append f (x ∷ xs) ys = ap (λ zs. f x ∷ zs) (map-append f xs ys)

module _ (qemu : Bool) where
  -- A character that does not end the line is stored.
  stored :
      (done : List ℕ) (c : ℕ)
      → length done < shell_buffer_size
      → c ≢ b'\n'
      → c ≢ b'\r'
      → shell_receive_char qemu (holding done) c ≡ (holding (done ++ (c ∷ [])), put_char c ∷ [])
  unfolding shell_receive_char shell_process shell_last_char
  stored done c room newline return =
      let k = 127 - length done in
      let one_less : shell_buffer_size - length done ≡ suc k = omega arith in
      let last : length done + 1 - 1 ≡ length done = omega arith in
      let more : length (done ++ (c ∷ [])) ≡ length done + 1 = length-append done (c ∷ []) in
      let left : shell_buffer_size - (length done + 1) ≡ k = omega arith in
      let not_full : leb shell_buffer_size (length done) ≡ false = ground arith in
      let not_newline : (c == b'\n') ≡ false = ground arith in
      let not_return : (c == b'\r') ≡ false = ground arith in
      let here : get_or ((done ++ (c ∷ [])) ++ replicate k 0) (length done) 0 ≡ c =
        get_or-next done (replicate k 0) c in
      rw
        (
          one_less,
          set-next done k c,
          last,
          here,
          not_full,
          not_newline,
          not_return,
          more,
          left,
          passed_none qemu,
        )
        refl

  -- So is a run of such characters, as long as there is room; what is done is the echo.
  pub typed :
      (done cs later : List ℕ)
      → length done + length cs ≤ shell_buffer_size
      → NoEnd cs
      → shell_loop qemu (holding done) (cs ++ later) ≡ (
        (shell_loop qemu (holding (done ++ cs)) later).0,
        map put_char cs ++ (shell_loop qemu (holding (done ++ cs)) later).1,
      )
  unfolding shell_loop
  typed done [] later room no_end = rw (append_nil done) refl
  typed done (c ∷ cs) later room (newline, return, no_end) =
      let one = stored done c (omega arith) newline return in
      let size : length (done ++ (c ∷ [])) ≡ length done + 1 = length-append done (c ∷ []) in
      let rest = typed (done ++ (c ∷ [])) cs later (rw size (omega arith)) no_end in
      rw (one, rest, append_assoc done (c ∷ []) cs) refl

  -- A full buffer hears nothing any more, the end of a line included.
  full_ignores :
      (s : ShellContext) (cs : List ℕ)
      → shell_buffer_size ≤ s.rx_pos
      → shell_loop qemu s cs ≡ (s, map put_char cs)
  unfolding shell_loop shell_receive_char
  full_ignores s [] full = refl
  full_ignores s (c ∷ cs) full =
      let is_full : leb shell_buffer_size s.rx_pos ≡ true = ground arith in
      rw (is_full, passed_all (not qemu && c == b'\r'), full_ignores s cs full) refl

  -- From the empty buffer, a line of 128 characters without an end leaves the shell deaf: whatever
  -- comes after it, commands and ends of lines too, is only echoed.
  pub shell_loop-deaf :
      (line later : List ℕ)
      → length line ≡ shell_buffer_size
      → NoEnd line
      → shell_loop qemu cleared (line ++ later) ≡ (holding line, map put_char (line ++ later))
  unfolding cleared
  shell_loop-deaf line later full no_end =
      let run = typed [] line later (omega arith) no_end in
      let ignored = full_ignores (holding line) later (omega arith) in
      rw (run, ignored, map-append put_char line later) refl
