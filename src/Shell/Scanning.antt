-- ===== src/Shell/Scanning.antt =====
-- The loop of `shell_process` in app/ihp_cli.c over a line whose last character is the newline.
use rapid_patch_runtime_ae.Common.{
  ℕ, zero, suc, ◌+◌, ◌-◌, ◌≤◌, ◌<◌, ◌≡◌, ◌≢◌, refl, sym, ap, ◌∙◌, arith, List, [], ◌∷◌, ◌++◌, map,
  Option, none, some, true, false, ◌==◌, leb, inl, inr, Bool-cases, length, take, length-append,
  append_nil, append_assoc,
}
use rapid_patch_runtime_ae.Shell.Text.{Scan, max_args, is_break, scan_char, scan}
use rapid_patch_runtime_ae.Shell.Typing.{NoEnd}
use rapid_patch_runtime_ae.Shell.Words.{
  words_after, longer, NoNul, at, Read, Begun, Read-next, Read-ended, Begun-first, Begun-longer,
  scan_char-letter_first, scan_char-letter_later, scan_char-break_idle, scan_char-break_ends,
}

abbrev strings : Scan → List (List ℕ)
strings s = map (at s.buffer) s.argv

scan-full :
    (last n i : ℕ) (s : Scan) → leb max_args (length s.argv) ≡ true → scan last (suc n) i s ≡ s
unfolding scan
scan-full last n i s full = rw full refl

scan-step :
    (last n i : ℕ) (s : Scan)
    → leb max_args (length s.argv) ≡ false
    → scan last (suc n) i s ≡ scan last n (i + 1) (scan_char last i s)
unfolding scan
scan-step last n i s room = rw room refl

length-map : (f : ℕ → List ℕ) (xs : List ℕ) → length (map f xs) ≡ length xs
length-map f [] = refl
length-map f (x ∷ xs) = ap suc (length-map f xs)

Read-length :
    (done argv : List ℕ) (ws : List (List ℕ)) → Read done argv ws → length argv ≡ length ws
Read-length done argv ws read = sym (length-map (at (done ++ [])) argv) ∙ ap length (read [])

more :
    (done argv : List ℕ) (ws : List (List ℕ))
    → Read done argv ws
    → leb max_args (length argv) ≡ false
    → max_args - length ws ≡ suc (4 - length ws)
more done argv ws read room =
    let size = Read-length done argv ws read in
    let few : length argv < max_args = ground arith in omega arith

take_nil : (n : ℕ) → take {A = List ℕ} n [] ≡ []
take_nil zero = refl
take_nil (suc n) = refl

-- Five words found: the loop is over.
strings-full :
    (done argv rest : List ℕ) (ws more : List (List ℕ))
    → Read done argv ws
    → leb max_args (length argv) ≡ true
    → map (at (done ++ rest)) argv ≡ ws ++ take (max_args - length ws) more
strings-full done argv rest ws more read full =
    let size = Read-length done argv ws read in
    let many : max_args ≤ length argv = ground arith in
    let none_left : max_args - length ws ≡ 0 = omega arith in
    rw (none_left, append_nil ws) (read rest)

-- What the loop still has to do at `todo`, whatever has been done.
module _ (last : ℕ) (tail : List ℕ) where
  abbrev Scanned : List ℕ → Type 0
  Scanned todo =
      (done argv : List ℕ) (ws : List (List ℕ)) (p : Option ℕ) (w : Option (List ℕ))
      → last ≡ length done + length todo
      → Read done argv ws
      → Begun done p w
      → strings (
          scan last (suc (length todo)) (length done)
            (record { buffer = done ++ (todo ++ (b'\n' ∷ tail)); next_arg = p; argv = argv }))
        ≡ ws ++ take (max_args - length ws) (words_after w todo)

  Scanned-end_room :
      (done argv : List ℕ) (ws : List (List ℕ)) (p : Option ℕ) (w : Option (List ℕ))
      → Read done argv ws
      → Begun done p w
      → leb max_args (length argv) ≡ false
      → strings (
          scan last 1
            (length done)
            (record { buffer = done ++ (b'\n' ∷ tail); next_arg = p; argv = argv }))
        ≡ ws ++ take (max_args - length ws) (words_after w [])
  unfolding words_after scan
  Scanned-end_room done argv ws none none read begun room =
      let idle = scan_char-break_idle last done tail b'\n' argv refl in
      let kept = Read-next done argv ws 0 read tail in
      rw (room, idle, take_nil (max_args - length ws), append_nil ws) kept
  Scanned-end_room done argv ws none (some w) read begun room = absurd begun
  Scanned-end_room done argv ws (some start) none read begun room = absurd begun
  Scanned-end_room done argv ws (some start) (some w) read begun room =
      let ends = scan_char-break_ends last done tail b'\n' argv start refl in
      let one_more : max_args - length ws ≡ suc (4 - length ws) = more done argv ws read room in
      rw (room, ends, one_more, take_nil (4 - length ws))
        (Read-ended done argv ws start w read begun tail)

  Scanned-end : Scanned []
  Scanned-end done argv ws p w ends read begun = elim (Bool-cases (leb max_args (length argv))) [
    | inl full ↦
        rw
          (scan-full last 0 (length done)
            (record { buffer = done ++ (b'\n' ∷ tail); next_arg = p; argv = argv }) full)
          (strings-full done argv (b'\n' ∷ tail) ws (words_after w []) read full)
    | inr room ↦ Scanned-end_room done argv ws p w read begun room
  ]

  -- A letter.
  Scanned-letter_room :
      (c : ℕ) (todo done argv : List ℕ) (ws : List (List ℕ)) (p : Option ℕ) (w : Option (List ℕ))
      → Scanned todo
      → is_break c ≡ false
      → c ≢ 0
      → last ≡ length done + length (c ∷ todo)
      → Read done argv ws
      → Begun done p w
      → leb max_args (length argv) ≡ false
      → strings (
          scan last
            (suc (length (c ∷ todo)))
            (length done)
            (record { buffer = done ++ (c ∷ (todo ++ (b'\n' ∷ tail))); next_arg = p; argv = argv }))
        ≡ ws ++ take (max_args - length ws) (words_after (some (longer w c)) todo)
  Scanned-letter_room c todo done argv ws none none rest letter char at_end read begun room =
      let size : length (done ++ (c ∷ [])) ≡ length done + 1 = length-append done (c ∷ []) in
      let inner : (length done == last) ≡ false = ground arith in
      let later = todo ++ (b'\n' ∷ tail) in
      let first = scan_char-letter_first last done later c argv letter inner in
      let start = some (length done) in
      let ih =
        rest (done ++ (c ∷ [])) argv ws start (some (c ∷ [])) (rw size (omega arith))
          (Read-next done argv ws c read) (Begun-first done c char) in
      let now : Scan = record { buffer = done ++ (c ∷ later); next_arg = none; argv = argv } in
      rw (scan-step last (suc (length todo)) (length done) now room, first)
        (rw (size, append_assoc done (c ∷ []) later) at ih)
  Scanned-letter_room c todo done argv ws none (some w) rest letter char at_end read begun room =
      absurd begun
  Scanned-letter_room c todo done argv ws (some s) none rest letter char at_end read begun room =
      absurd begun
  Scanned-letter_room c todo done argv ws (some s) (some w) rest letter char at_end read begun
        room =
      let size : length (done ++ (c ∷ [])) ≡ length done + 1 = length-append done (c ∷ []) in
      let inner : (length done == last) ≡ false = ground arith in
      let later = todo ++ (b'\n' ∷ tail) in
      let next = scan_char-letter_later last done later c argv s letter inner in
      let ih =
        rest (done ++ (c ∷ [])) argv ws (some s) (some (w ++ (c ∷ []))) (rw size (omega arith))
          (Read-next done argv ws c read) (Begun-longer done c s w char begun) in
      let now : Scan = record { buffer = done ++ (c ∷ later); next_arg = some s; argv = argv } in
      rw (scan-step last (suc (length todo)) (length done) now room, next)
        (rw (size, append_assoc done (c ∷ []) later) at ih)

  -- A blank.
  Scanned-blank_room :
      (todo done argv : List ℕ) (ws : List (List ℕ)) (p : Option ℕ) (w : Option (List ℕ))
      → Scanned todo
      → last ≡ length done + length (b' ' ∷ todo)
      → Read done argv ws
      → Begun done p w
      → leb max_args (length argv) ≡ false
      → strings (
          scan last (suc (length (b' ' ∷ todo))) (length done) (record {
            buffer = done ++ (b' ' ∷ (todo ++ (b'\n' ∷ tail)));
            next_arg = p;
            argv = argv;
          }))
        ≡ ws ++ take (max_args - length ws) (words_after w (b' ' ∷ todo))
  unfolding words_after
  Scanned-blank_room todo done argv ws none none rest at_end read begun room =
      let size : length (done ++ (0 ∷ [])) ≡ length done + 1 = length-append done (0 ∷ []) in
      let later = todo ++ (b'\n' ∷ tail) in
      let idle = scan_char-break_idle last done later b' ' argv refl in
      let ih =
        rest (done ++ (0 ∷ [])) argv ws none none (rw size (omega arith))
          (Read-next done argv ws 0 read) tt in
      let now : Scan = record { buffer = done ++ (b' ' ∷ later); next_arg = none; argv = argv } in
      rw (scan-step last (suc (length todo)) (length done) now room, idle) (rw size at ih)
  Scanned-blank_room todo done argv ws none (some w) rest at_end read begun room = absurd begun
  Scanned-blank_room todo done argv ws (some s) none rest at_end read begun room = absurd begun
  Scanned-blank_room todo done argv ws (some s) (some w) rest at_end read begun room =
      let size : length (done ++ (0 ∷ [])) ≡ length done + 1 = length-append done (0 ∷ []) in
      let later = todo ++ (b'\n' ∷ tail) in
      let ends = scan_char-break_ends last done later b' ' argv s refl in
      let one_more : max_args - length ws ≡ suc (4 - length ws) = more done argv ws read room in
      let found : length (ws ++ (w ∷ [])) ≡ length ws + 1 = length-append ws (w ∷ []) in
      let left : max_args - (length ws + 1) ≡ 4 - length ws = omega arith in
      let ih =
        rest (done ++ (0 ∷ [])) (argv ++ (s ∷ [])) (ws ++ (w ∷ [])) none none
          (rw size (omega arith)) (Read-ended done argv ws s w read begun) tt in
      let now : Scan = record { buffer = done ++ (b' ' ∷ later); next_arg = some s; argv = argv } in
      rw (scan-step last (suc (length todo)) (length done) now room, ends, one_more)
        (rw (size, found, left, append_assoc ws (w ∷ [])) at ih)

  words_after-letter :
      (w : Option (List ℕ)) (c : ℕ) (todo : List ℕ)
      → (c == b' ') ≡ false
      → words_after w (c ∷ todo) ≡ words_after (some (longer w c)) todo
  unfolding words_after
  words_after-letter none c todo letter = rw (words_after, letter) refl
  words_after-letter (some w) c todo letter = rw (words_after, letter) refl

  pub Scanned-all : (todo : List ℕ) → NoEnd todo → NoNul todo → Scanned todo
  Scanned-all [] no_end no_nul done argv ws p w at_end read begun =
      Scanned-end done argv ws p w at_end read begun
  Scanned-all (c ∷ todo) (newline, return, no_end) (char, no_nul) done argv ws p w at_end read
        begun =
      let rest = Scanned-all todo no_end no_nul in
      let later = todo ++ (b'\n' ∷ tail) in
      let now : Scan = record { buffer = done ++ (c ∷ later); next_arg = p; argv = argv } in
      elim (Bool-cases (leb max_args (length argv))) [
        | inl full ↦
            rw (scan-full last (suc (length todo)) (length done) now full)
              (strings-full done argv (c ∷ later) ws (words_after w (c ∷ todo)) read full)
        | inr room ↦ elim (Bool-cases (c == b' ')) [
          | inl blank ↦
              let is : c ≡ b' ' = ground arith in
              rw is (Scanned-blank_room todo done argv ws p w rest at_end read begun room)
          | inr letter ↦
              let no_break : is_break c ≡ false = ground arith in
              rw (words_after-letter w c todo letter) (
                Scanned-letter_room c todo done argv ws p w rest no_break char at_end read begun
                  room)
        ]
      ]
