-- ===== src/StreamFile/Finished.antt =====
-- A client of src/stream_file.c that reads everything.
use tinyproxy.Base.{
  ◌==◌, ◌≢◌, sym, ◌∙◌, not, append_assoc, take, drop, leb, if◌then◌else◌, ℕ, zero, suc, ◌<◌, ◌≤◌,
  ◌≡◌, refl, ap, subst, Bool, true, false, [], ◌++◌, Option, none, some, arith, Bytes, length,
}
use tinyproxy.Text.{is_nil}
use tinyproxy.Pipe.{read_high_water}
use tinyproxy.StreamFile.{
  file_chunk_size, FileConn, at_eof, after_error, FileRun, serving, file_done, write_loop,
  file_write_cb, start_stream_file,
}
use tinyproxy.StreamFile.Delivered.{
  Delivers, drop-shorter, file_write_cb-Delivers, start_stream_file-Delivers,
}

some-inj : {a b : FileRun} → some a ≡ some b → a ≡ b
some-inj h = cc

not_full : {output : Bytes} → leb read_high_water (length output) ≡ true → output ≢ []
not_full {output} full e = ground arith

not_empty : {output : Bytes} → (length output == 0) ≡ false → output ≢ []
not_empty {output} waiting e = ground arith

-- All of the output goes out.
abbrev pub flushed : FileConn → FileConn
flushed fc = record fc { output = []; sent = fc.sent ++ fc.output }

-- The output goes out and the write callback is called, so many times while the client is served.
unfoldable pub drained : (Bytes → Bool) → ℕ → FileRun → Option FileRun
unfolding file_write_cb
drained write_ok rounds (file_done why fc) = some (file_done why fc)
drained write_ok zero (serving fc) = some (serving fc)
drained write_ok (suc rounds) (serving fc) = elim (file_write_cb write_ok (flushed fc)) [
  | none ↦ none
  | some run ↦ drained write_ok rounds run
]

-- Less is left than before, where nothing was waiting, unless the end was reached.
abbrev Progress : FileConn → FileRun → Type 0
Progress fc (serving next) =
    (next.broken ≡ false)
    × (length next.left ≤ length fc.left)
    × (fc.output ≡ [] → length next.left < length fc.left)
Progress fc (file_done at_eof next) = Unit
Progress fc (file_done after_error next) = ⊥

module _ (write_ok : Bytes → Bool) (takes : (bs : Bytes) → write_ok bs ≡ true) where
  write_loop-Progress :
      (rounds : ℕ) (fc : FileConn) (run : FileRun)
      → fc.broken ≡ false
      → write_loop write_ok rounds fc ≡ some run
      → Progress fc run
  unfolding write_loop
  write_loop-Progress zero fc run whole = λ ends. cc
  write_loop-Progress (suc rounds) fc run whole =
      by_tests (leb read_high_water (length fc.output)) refl (is_nil (take file_chunk_size fc.left))
        refl (write_ok (take file_chunk_size fc.left)) (takes (take file_chunk_size fc.left))
        fc.broken whole (length fc.output == 0) refl (write_loop-Progress rounds next run whole)
    where
      next : FileConn
      next = record fc {
        left = drop file_chunk_size fc.left;
        output = fc.output ++ take file_chunk_size fc.left;
      }

      on_progress :
          (r : FileRun)
          → is_nil (take file_chunk_size fc.left) ≡ false
          → Progress next r
          → Progress fc r
      on_progress (serving later) more (same, less, _) =
          let shorter = drop-shorter 4095 fc.left more in (same, omega arith, λ e. omega arith)
      on_progress (file_done at_eof later) more h = tt
      on_progress (file_done after_error later) more h = h

      by_tests :
          (full : Bool)
          → leb read_high_water (length fc.output) ≡ full
          → (nil : Bool) → is_nil (take file_chunk_size fc.left) ≡ nil
          → (taken : Bool) → taken ≡ true
          → (broken : Bool) → broken ≡ false
          → (empty : Bool) → (length fc.output == 0) ≡ empty
          → (write_loop write_ok rounds next ≡ some run → Progress next run)
          → (if full
              then some (serving fc)
              else if not nil
              then (if taken
                  then write_loop write_ok rounds next
                  else some
                      (file_done after_error (record fc { left = drop file_chunk_size fc.left })))
              else if broken
              then some (file_done after_error fc)
              else if empty
              then some (file_done at_eof fc)
              else some (serving fc))
            ≡ some run
          → Progress fc run
      by_tests true is_full nil is_end taken t broken b empty is_empty again h =
          subst (Progress fc) (some-inj h) (whole, omega arith, λ e. absurd (not_full is_full e))
      by_tests false is_full false is_end true t broken b empty is_empty again h =
          on_progress run is_end (again h)
      by_tests false is_full false is_end false t broken b empty is_empty again h = cc
      by_tests false is_full true is_end taken t true b empty is_empty again h = cc
      by_tests false is_full true is_end taken t false b true is_empty again h =
          subst (Progress fc) (some-inj h) tt
      by_tests false is_full true is_end taken t false b false is_empty again h =
          subst (Progress fc) (some-inj h) (whole, omega arith, λ e. absurd (not_empty is_empty e))

  drained-done :
      (rounds : ℕ) (d : FileConn)
      → drained write_ok rounds (file_done at_eof d) ≡ some (file_done at_eof d)
  unfolding drained
  drained-done zero d = refl
  drained-done (suc rounds) d = refl

  drained-all :
      (contents : Bytes) (rounds : ℕ) (fc : FileConn)
      → length fc.left < rounds
      → fc.broken ≡ false
      → Delivers contents (serving fc)
      → (last : FileConn) × (drained write_ok rounds (serving fc) ≡ some (file_done at_eof last))
        × (last.sent ≡ contents)
  unfolding drained file_write_cb
  drained-all contents zero fc enough whole delivers = absurd (omega arith)
  drained-all contents (suc rounds) fc enough whole (order, bound) =
      let (run, ends, now) =
        file_write_cb-Delivers write_ok contents (flushed fc)
          (order ∙ sym (append_assoc fc.sent fc.output fc.left), omega arith) in
      by_run run ends now (write_loop-Progress (suc (length fc.left)) (flushed fc) run whole ends)
        (drained-all contents rounds)
    where
      by_run :
          (run : FileRun)
          → file_write_cb write_ok (flushed fc) ≡ some run
          → Delivers contents run
          → Progress (flushed fc) run
          → ((d : FileConn)
              → length d.left < rounds
              → d.broken ≡ false
              → Delivers contents (serving d)
              → (last : FileConn) × (drained write_ok rounds (serving d)
                  ≡ some (file_done at_eof last))
                × (last.sent ≡ contents))
          → (last : FileConn) × (drained write_ok (suc rounds) (serving fc)
              ≡ some (file_done at_eof last))
            × (last.sent ≡ contents)
      by_run (serving d) ends now (same, less, shorter) rest =
          let (last, drains, all) = rest d (omega (arith, shorter refl)) same now in
          (last, rw (drained, ends) drains, all)
      by_run (file_done at_eof d) ends now progress rest =
          (d, rw (drained, ends) (drained-done rounds d), now.0)
      by_run (file_done after_error d) ends now progress rest = absurd progress

  -- A file that can be read to its end is served whole, whatever its length, where the client's
  -- bufferevent takes all that is written: after as many rounds as it has bytes, in each of which the
  -- output goes out and the write callback is called, the whole file was sent, it was closed, and the
  -- connection was freed.
  pub start_stream_file-Finishes :
      (contents : Bytes)
      → (first : FileRun) × (last : FileConn) × (start_stream_file write_ok none true contents false
          ≡ (none, some first))
        × (drained write_ok (length contents) first ≡ some (file_done at_eof last))
        × (last.sent ≡ contents)
  unfolding start_stream_file drained
  start_stream_file-Finishes contents =
      let (first, started, _) = start_stream_file-Delivers write_ok contents false in
      let (last, drains, all) =
        drained-all contents (suc (length contents)) begun (omega arith) refl (refl, omega arith) in
      let called : file_write_cb write_ok begun ≡ some first = ap (λ z. z.1) started in
      (first, last, started, from_first first called last drains, all)
    where
      begun : FileConn
      begun = record { left = contents; broken = false; output = []; sent = [] }

      from_first :
          (first : FileRun)
          → file_write_cb write_ok begun ≡ some first
          → (last : FileConn)
          → drained write_ok (suc (length contents)) (serving begun) ≡ some (file_done at_eof last)
          → drained write_ok (length contents) first ≡ some (file_done at_eof last)
      from_first first called last drains = sym (rw (drained, called) refl) ∙ drains
