-- ===== src/StreamFile/Delivered.antt =====
-- A client of src/stream_file.c over the steps of the callbacks and of libevent.
use tinyproxy.Base.{
  ℕ, zero, suc, ◌+◌, ◌==◌, ◌<◌, ◌≤◌, ◌≡◌, refl, sym, ap, ◌∙◌, subst, Bool, true, false, not, [],
  ◌∷◌, ◌++◌, append_assoc, append-nil, Option, none, some, leb, if◌then◌else◌, arith, Bytes, length,
  length-append, length-take, take, drop, take-append-drop,
}
use tinyproxy.Text.{is_nil}
use tinyproxy.Pipe.{read_high_water}
use tinyproxy.StreamFile.{
  file_chunk_size, FileConn, at_eof, after_error, FileRun, serving, file_done, write_loop,
  file_write_cb, start_stream_file, file_event_cb, Step, goes_out, writable, event, Reached,
  at_start, after,
}

-- What was sent, then what waits, then what is left, are the file, and what waits is bounded. At the
-- end everything was sent, and after an error a front of the file.
abbrev pub Delivers : Bytes → FileRun → Type 0
Delivers contents (serving fc) =
    (contents ≡ fc.sent ++ (fc.output ++ fc.left))
    × (length fc.output < read_high_water + file_chunk_size)
Delivers contents (file_done at_eof fc) = (fc.sent ≡ contents) × (fc.broken ≡ false)
Delivers contents (file_done after_error fc) = (rest : Bytes) × (contents ≡ fc.sent ++ rest)

nil-left : (k : ℕ) (xs : Bytes) → is_nil (take (suc k) xs) ≡ true → xs ≡ []
nil-left k [] h = refl
nil-left k (x ∷ xs) h = cc

length-drop_le : (k : ℕ) (xs : Bytes) → length (drop k xs) ≤ length xs
length-drop_le zero xs = omega arith
length-drop_le (suc k) [] = omega arith
length-drop_le (suc k) (x ∷ xs) = omega (arith, length-drop_le k xs)

pub drop-shorter :
    (k : ℕ) (xs : Bytes) → is_nil (take (suc k) xs) ≡ false → length (drop (suc k) xs) < length xs
drop-shorter k [] h = cc
drop-shorter k (x ∷ xs) h = omega (arith, length-drop_le k xs)

length-zero : (xs : Bytes) → length xs ≡ 0 → xs ≡ []
length-zero [] h = refl
length-zero (x ∷ xs) h = absurd (omega arith)

chunk-bound :
    (output left : Bytes)
    → leb read_high_water (length output) ≡ false
    → length (output ++ take file_chunk_size left) < read_high_water + file_chunk_size
chunk-bound output left low =
    let below : length output < read_high_water = ground arith in
    omega
      (arith, length-append output (take file_chunk_size left), length-take file_chunk_size left)

module _ (write_ok : Bytes → Bool) (contents : Bytes) where
  -- With as many rounds as bytes are left, and one more, the loop ends.
  write_loop-Delivers :
      (rounds : ℕ) (fc : FileConn)
      → length fc.left < rounds
      → contents ≡ fc.sent ++ (fc.output ++ fc.left)
      → length fc.output < read_high_water + file_chunk_size
      → (run : FileRun) × (write_loop write_ok rounds fc ≡ some run) × Delivers contents run
  unfolding write_loop
  write_loop-Delivers zero fc enough order bound = absurd (omega arith)
  write_loop-Delivers (suc rounds) fc enough order bound =
      by_tests (leb read_high_water (length fc.output)) refl (is_nil (take file_chunk_size fc.left))
        refl (write_ok (take file_chunk_size fc.left)) fc.broken refl (length fc.output == 0) refl
        (λ low more.
          write_loop-Delivers rounds next (omega (arith, drop-shorter 4095 fc.left more)) next-order
            (chunk-bound fc.output fc.left low))
    where
      next : FileConn
      next = record fc {
        left = drop file_chunk_size fc.left;
        output = fc.output ++ take file_chunk_size fc.left;
      }

      next-order : contents ≡ next.sent ++ (next.output ++ next.left)
      next-order =
          order
          ∙ ap (λ z. fc.sent ++ z)
              (ap (λ z. fc.output ++ z) (sym (take-append-drop file_chunk_size fc.left))
                ∙ sym (append_assoc fc.output _ _))

      Ends : Option FileRun → Type 0
      Ends o = (run : FileRun) × (o ≡ some run) × Delivers contents run

      all_sent :
          is_nil (take file_chunk_size fc.left) ≡ true
          → (length fc.output == 0) ≡ true
          → fc.sent ≡ contents
      all_sent end empty =
          let no_output = length-zero fc.output (ground arith) in
          let none_left = nil-left 4095 fc.left end in
          sym (
            order
            ∙ ap (λ z. fc.sent ++ z) (ap (λ z. z ++ fc.left) no_output ∙ none_left)
            ∙ append-nil fc.sent)

      by_tests :
          (full : Bool)
          → leb read_high_water (length fc.output) ≡ full
          → (nil : Bool) → is_nil (take file_chunk_size fc.left) ≡ nil
          → (taken broken : Bool) → fc.broken ≡ broken
          → (empty : Bool) → (length fc.output == 0) ≡ empty
          → (leb read_high_water (length fc.output) ≡ false
              → is_nil (take file_chunk_size fc.left) ≡ false
              → Ends (write_loop write_ok rounds next))
          → Ends (
              if full
              then some (serving fc)
              else if not nil
              then (if taken
                  then write_loop write_ok rounds next
                  else some
                      (file_done after_error (record fc { left = drop file_chunk_size fc.left })))
              else if broken
              then some (file_done after_error fc)
              else if empty
              then some (file_done at_eof fc)
              else some (serving fc))
      by_tests true is_full nil is_end taken broken is_broken empty is_empty again =
          (serving fc, refl, (order, bound))
      by_tests false is_full false is_end true broken is_broken empty is_empty again =
          again is_full is_end
      by_tests false is_full false is_end false broken is_broken empty is_empty again = (
        file_done after_error (record fc { left = drop file_chunk_size fc.left }),
        refl,
        (fc.output ++ fc.left, order),
      )
      by_tests false is_full true is_end taken true is_broken empty is_empty again =
          (file_done after_error fc, refl, (fc.output ++ fc.left, order))
      by_tests false is_full true is_end taken false is_broken true is_empty again =
          (file_done at_eof fc, refl, (all_sent is_end is_empty, is_broken))
      by_tests false is_full true is_end taken false is_broken false is_empty again =
          (serving fc, refl, (order, bound))

  pub file_write_cb-Delivers :
      (fc : FileConn)
      → Delivers contents (serving fc)
      → (run : FileRun) × (file_write_cb write_ok fc ≡ some run) × Delivers contents run
  unfolding file_write_cb
  file_write_cb-Delivers fc (order, bound) =
      write_loop-Delivers (suc (length fc.left)) fc (omega arith) order bound

  step-Delivers :
      (now next : FileRun) → Step write_ok now next → Delivers contents now → Delivers contents next
  unfolding file_event_cb
  step-Delivers _ _ (goes_out {fc} sending later split) (order, bound) = (
    order
        ∙ ap (λ z. fc.sent ++ z) (ap (λ z. z ++ fc.left) split ∙ append_assoc sending later fc.left)
        ∙ sym (append_assoc fc.sent sending (later ++ fc.left)),
    let shorter : length fc.output ≡ length sending + length later =
          ap length split ∙ length-append sending later in
        omega arith,
  )
  step-Delivers _ _ (writable {fc} {run} called) delivers =
      let (other, ends, done) = file_write_cb-Delivers fc delivers in
      let same : other ≡ run = cc in subst (Delivers contents) same done
  step-Delivers _ _ (event {fc}) (order, bound) = (fc.output ++ fc.left, order)

  Reached-Delivers :
      (start run : FileRun)
      → Reached write_ok start run
      → Delivers contents start
      → Delivers contents run
  Reached-Delivers start _ at_start delivers = delivers
  Reached-Delivers start run (after {now} earlier step) delivers =
      step-Delivers now run step (Reached-Delivers start now earlier delivers)

  -- A file that is opened for a client is served, and the first call of the write callback ends.
  -- However the writes of libevent, its calls for more and its events then follow each other: what
  -- was sent is a front of the file, in order; the output stays below the high water mark and one
  -- chunk; and the callback closes without an error only when the whole file was sent.
  pub start_stream_file-Delivers :
      (broken : Bool)
      → (first : FileRun) × (start_stream_file write_ok none true contents broken
          ≡ (none, some first))
        × ((run : FileRun) → Reached write_ok first run → Delivers contents run)
  unfolding start_stream_file
  start_stream_file-Delivers broken =
      let (first, ends, delivers) =
        file_write_cb-Delivers (record { left = contents; broken = broken; output = []; sent = [] })
          (refl, omega arith) in
      (first, rw ends refl, λ run reached. Reached-Delivers first run reached delivers)
