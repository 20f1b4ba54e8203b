-- ===== src/Conf/Loader/Lines.antt =====
-- The loop of load_routes_from_text of src/file_conf.c against the list of the text's lines.
use tinyproxy.Base.{
  ℕ, zero, suc, ◌≤◌, ◌<◌, ◌≡◌, refl, ap, true, false, List, [], ◌∷◌, Option, none, some, arith,
  ◌==◌, if◌then◌else◌, Bool-cases, inl, inr, Bytes, length, Result, ok, err, ◌>>=◌,
}
use tinyproxy.Text.{push_before, push_first, strchr}
use tinyproxy.Conf.Loader.{
  Loader, Memory, line_of, next_line, one_line, load_loop, start, loaded, finish,
  load_routes_from_text,
}

-- The lines of a text: each ends with a newline, but the last one may lack it.
unfoldable pub file_lines : Bytes → List Bytes
file_lines [] = []
file_lines (c ∷ cs) = if c == b'\n' then [] ∷ file_lines cs else push_first c (file_lines cs)

push_line :
    (c : ℕ) (cs : Bytes) (o : Option (Bytes × Bytes))
    → line_of (c ∷ cs) (push_before c o) ≡ (c ∷ (line_of cs o).0, (line_of cs o).1)
push_line c cs none = refl
push_line c cs (some (a, b)) = refl

next_line-newline : (c : ℕ) (cs : Bytes) → (c == b'\n') ≡ true → next_line (c ∷ cs) ≡ ([], cs)
unfolding next_line
next_line-newline c cs e = rw e

next_line-other :
    (c : ℕ) (cs : Bytes)
    → (c == b'\n') ≡ false
    → next_line (c ∷ cs) ≡ (c ∷ (next_line cs).0, (next_line cs).1)
unfolding next_line
next_line-other c cs e = rw e (push_line c cs (strchr b'\n' cs))

next_line-length : (cs : Bytes) → length (next_line cs).1 ≤ length cs
next_line-length [] = unfold next_line in omega arith
next_line-length (c ∷ cs) = elim (Bool-cases (c == b'\n')) [
  | inl e ↦ rw (next_line-newline c cs e) (omega arith)
  | inr e ↦ rw (next_line-other c cs e) (omega (arith, next_line-length cs))
]

next_line_shorter : (c : ℕ) (cs : Bytes) → length (next_line (c ∷ cs)).1 ≤ length cs
next_line_shorter c cs = elim (Bool-cases (c == b'\n')) [
  | inl e ↦ rw (next_line-newline c cs e) (omega arith)
  | inr e ↦ rw (next_line-other c cs e) (next_line-length cs)
]

file_lines-next_line :
    (c : ℕ) (cs : Bytes)
    → file_lines (c ∷ cs) ≡ (next_line (c ∷ cs)).0 ∷ file_lines (next_line (c ∷ cs)).1
unfolding file_lines
file_lines-next_line c [] = elim (Bool-cases (c == b'\n')) [
  | inl e ↦ rw (next_line-newline c [] e, e)
  | inr e ↦ rw (next_line-other c [] e, e) (unfold next_line in refl)
]
file_lines-next_line c (d ∷ cs) = elim (Bool-cases (c == b'\n')) [
  | inl e ↦ rw (next_line-newline c (d ∷ cs) e, e)
  | inr e ↦ rw (next_line-other c (d ∷ cs) e, e) (ap (push_first c) (file_lines-next_line d cs))
]

goes_on :
    (r : Result Loader) (k : Loader → Option (Result Loader)) (g : Loader → Result Loader)
    → ((st : Loader) → k st ≡ some (g st))
    → (elim r [ ok st ↦ k st | err e ↦ some (err e) ]) ≡ some (r >>= g)
goes_on (ok st) k g h = h st
goes_on (err e) k g h = refl

module _ (mem : Memory) where
  -- Every line in turn, up to the first error.
  unfoldable pub each_line : List Bytes → Loader → Result Loader
  each_line [] st = ok st
  each_line (l ∷ ls) st = one_line mem l st >>= each_line ls

  load_loop-each_line :
      (rounds : ℕ) (text : Bytes) (st : Loader)
      → length text < rounds
      → load_loop mem rounds text st ≡ some (each_line (file_lines text) st)
  unfolding load_loop each_line
  load_loop-each_line zero text st h = absurd (omega arith)
  load_loop-each_line (suc rounds) [] st h = unfold file_lines in refl
  load_loop-each_line (suc rounds) (c ∷ cs) st h = rw (file_lines-next_line c cs) (
      goes_on (one_line mem (next_line (c ∷ cs)).0 st) _ _ λ st'.
        load_loop-each_line rounds (next_line (c ∷ cs)).1 st'
          (omega (arith, next_line_shorter c cs)))

  -- The loop ends by itself on every text, and does to the lines of the text, in order, what its
  -- body does to one line, up to the first error.
  pub load_routes-lines :
      (text : Bytes)
      → load_routes_from_text mem text ≡ some (loaded mem (each_line (file_lines text) (start mem)))
  unfolding load_routes_from_text
  load_routes-lines text =
      ap (finish mem) (load_loop-each_line (suc (length text)) text (start mem) (omega arith))
