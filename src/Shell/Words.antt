-- ===== src/Shell/Words.antt =====
-- The words of a typed line, and the loop of `shell_process` in app/ihp_cli.c that finds them.
use rapid_patch_runtime_ae.Common.{
  ℕ, ◌≡◌, ◌≢◌, refl, sym, ap, arith, List, [], ◌∷◌, ◌++◌, map, Option, none, some, true, false,
  ◌==◌, length, set, get_or, drop, append_nil, append_assoc,
}
use rapid_patch_runtime_ae.Shell.Text.{is_break, scan_char, c_string}

-- A word that has been begun, with one more character.
abbrev pub longer : Option (List ℕ) → ℕ → List ℕ
longer none c = c ∷ []
longer (some w) c = w ++ (c ∷ [])

-- The words of a line, parted by one blank or more, after a word that has been begun.
unfoldable pub words_after : Option (List ℕ) → List ℕ → List (List ℕ)
words_after none [] = []
words_after (some w) [] = w ∷ []
words_after begun (c ∷ cs) = elim (c == b' ') [
  | true ↦ elim begun [ none ↦ words_after none cs | some w ↦ w ∷ words_after none cs ]
  | false ↦ words_after (some (longer begun c)) cs
]

-- No character of a line is a NUL.
abbrev pub NoNul : List ℕ → Type 0
NoNul [] = Unit
NoNul (c ∷ cs) = (c ≢ 0) × NoNul cs

-- The string at a position.
abbrev pub at : List ℕ → ℕ → List ℕ
at buffer start = c_string (drop start buffer)

-- What the positions found so far read, and the one where a word has begun, whatever follows the
-- characters that have been passed.
abbrev pub Read : List ℕ → List ℕ → List (List ℕ) → Type 0
Read done argv ws = (rest : List ℕ) → map (at (done ++ rest)) argv ≡ ws

abbrev pub Begun : List ℕ → Option ℕ → Option (List ℕ) → Type 0
Begun done none none = Unit
Begun done none (some w) = ⊥
Begun done (some start) none = ⊥
Begun done (some start) (some w) = (rest : List ℕ) → at (done ++ rest) start ≡ w ++ c_string rest

drop-length : (done rest : List ℕ) → drop (length done) (done ++ rest) ≡ rest
drop-length [] rest = refl
drop-length (d ∷ done) rest = drop-length done rest

get_or-length : (done rest : List ℕ) (c : ℕ) → get_or (done ++ (c ∷ rest)) (length done) 0 ≡ c
get_or-length [] rest c = refl
get_or-length (d ∷ done) rest c = get_or-length done rest c

set-length :
    (done rest : List ℕ) (c v : ℕ)
    → set (done ++ (c ∷ rest)) (length done) v ≡ (done ++ (v ∷ [])) ++ rest
set-length [] rest c v = refl
set-length (d ∷ done) rest c v = ap (λ xs. d ∷ xs) (set-length done rest c v)

map-snoc : (f : ℕ → List ℕ) (xs : List ℕ) (y : ℕ) → map f (xs ++ (y ∷ [])) ≡ map f xs ++ (f y ∷ [])
map-snoc f [] y = refl
map-snoc f (x ∷ xs) y = ap (λ zs. f x ∷ zs) (map-snoc f xs y)

pub Read-next :
    (done argv : List ℕ) (ws : List (List ℕ)) (c : ℕ)
    → Read done argv ws
    → Read (done ++ (c ∷ [])) argv ws
Read-next done argv ws c read rest = rw (append_assoc done (c ∷ []) rest) (read (c ∷ rest))

-- A NUL behind a word that has begun ends it.
pub Read-ended :
    (done argv : List ℕ) (ws : List (List ℕ)) (start : ℕ) (w : List ℕ)
    → Read done argv ws
    → Begun done (some start) (some w)
    → Read (done ++ (0 ∷ [])) (argv ++ (start ∷ [])) (ws ++ (w ∷ []))
unfolding c_string
Read-ended done argv ws start w read begun rest =
    let here : (done ++ (0 ∷ [])) ++ rest ≡ done ++ (0 ∷ rest) = append_assoc done (0 ∷ []) rest in
    let word : at (done ++ (0 ∷ rest)) start ≡ w ++ [] = begun (0 ∷ rest) in
    rw (here, map-snoc (at (done ++ (0 ∷ rest))) argv start, read (0 ∷ rest), word, append_nil w)
      refl

c_string-letter : (c : ℕ) (rest : List ℕ) → c ≢ 0 → c_string (c ∷ rest) ≡ c ∷ c_string rest
unfolding c_string
c_string-letter c rest letter = let f : (c == 0) ≡ false = ground arith in rw f refl

pub Begun-first :
    (done : List ℕ) (c : ℕ) → c ≢ 0 → Begun (done ++ (c ∷ [])) (some (length done)) (some (c ∷ []))
Begun-first done c letter rest =
    rw (append_assoc done (c ∷ []) rest, drop-length done (c ∷ rest))
      (c_string-letter c rest letter)

pub Begun-longer :
    (done : List ℕ) (c start : ℕ) (w : List ℕ)
    → c ≢ 0
    → Begun done (some start) (some w)
    → Begun (done ++ (c ∷ [])) (some start) (some (w ++ (c ∷ [])))
Begun-longer done c start w letter begun rest =
    rw
      (
        append_assoc done (c ∷ []) rest,
        append_assoc w (c ∷ []) (c_string rest),
        sym (c_string-letter c rest letter),
      )
      (begun (c ∷ rest))

-- The rounds of the loop, by the character at hand.
module _ (last : ℕ) (done more : List ℕ) (c : ℕ) (argv : List ℕ) where
  pub scan_char-letter_first :
      is_break c ≡ false
      → (length done == last) ≡ false
      → scan_char last
          (length done)
          (record { buffer = done ++ (c ∷ more); next_arg = none; argv = argv })
        ≡ record { buffer = done ++ (c ∷ more); next_arg = some (length done); argv = argv }
  unfolding scan_char
  scan_char-letter_first letter inner = rw (get_or-length done more c, letter, inner) refl

  pub scan_char-letter_later :
      (start : ℕ)
      → is_break c ≡ false
      → (length done == last) ≡ false
      → scan_char last
          (length done)
          (record { buffer = done ++ (c ∷ more); next_arg = some start; argv = argv })
        ≡ record { buffer = done ++ (c ∷ more); next_arg = some start; argv = argv }
  unfolding scan_char
  scan_char-letter_later start letter inner = rw (get_or-length done more c, letter, inner) refl

  pub scan_char-break_idle :
      is_break c ≡ true
      → scan_char last
          (length done)
          (record { buffer = done ++ (c ∷ more); next_arg = none; argv = argv })
        ≡ record { buffer = (done ++ (0 ∷ [])) ++ more; next_arg = none; argv = argv }
  unfolding scan_char
  scan_char-break_idle ends = rw (get_or-length done more c, ends, set-length done more c 0) refl

  pub scan_char-break_ends :
      (start : ℕ)
      → is_break c ≡ true
      → scan_char last
          (length done)
          (record { buffer = done ++ (c ∷ more); next_arg = some start; argv = argv })
        ≡ record {
          buffer = (done ++ (0 ∷ [])) ++ more;
          next_arg = none;
          argv = argv ++ (start ∷ []);
        }
  unfolding scan_char
  scan_char-break_ends start ends =
      rw (get_or-length done more c, ends, set-length done more c 0) refl
