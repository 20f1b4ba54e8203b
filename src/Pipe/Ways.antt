-- ===== src/Pipe/Ways.antt =====
-- One way through the pipe of src/stream_pipe.c, from the input of one bufferevent to the output of
-- the other.
use tinyproxy.Base.{
  ◌+◌, ◌*◌, ◌≤◌, ◌<◌, ◌≡◌, ap, sym, ◌∙◌, true, false, [], ◌++◌, append_assoc, append-nil,
  Bool-cases, inl, inr, ltb, leb, arith, Bytes, length, length-append,
}
use tinyproxy.Pipe.{Libevent, read_high_water, write_resume_water, pause_if_full, resume_if_low}

-- What libevent documents of the calls: evbuffer_add_buffer moves all bytes to the end of the other
-- buffer, and enabling or disabling reads changes no buffer.
pub record IsLibevent {B : Type 0} (lib : Libevent B) : Type 0 where
  pub moved :
      (dst src : B) → lib.output (lib.add_buffer dst src).0 ≡ lib.output dst ++ lib.input src
  pub emptied : (dst src : B) → lib.input (lib.add_buffer dst src).1 ≡ []
  pub dst_input : (dst src : B) → lib.input (lib.add_buffer dst src).0 ≡ lib.input dst
  pub src_output : (dst src : B) → lib.output (lib.add_buffer dst src).1 ≡ lib.output src
  pub dst_reads : (dst src : B) → lib.reads (lib.add_buffer dst src).0 ≡ lib.reads dst
  pub disabled : (b : B) → lib.reads (lib.disable_read b) ≡ false
  pub disable_input : (b : B) → lib.input (lib.disable_read b) ≡ lib.input b
  pub disable_output : (b : B) → lib.output (lib.disable_read b) ≡ lib.output b
  pub enable_input : (b : B) → lib.input (lib.enable_read b) ≡ lib.input b
  pub enable_output : (b : B) → lib.output (lib.enable_read b) ≡ lib.output b

module _ {B : Type 0} (lib : Libevent B) where
  -- All that was received was sent or is buffered, in order; reads are on only below the high
  -- water mark, and the buffers are bounded.
  pub record Way (received sent : Bytes) (src dst : B) : Type 0 where
    pub order : received ≡ sent ++ (lib.output dst ++ lib.input src)
    pub pressure : lib.reads src ≡ true → length (lib.output dst) < read_high_water
    pub output_bound : length (lib.output dst) < 2 * read_high_water
    pub input_bound : length (lib.input src) ≤ read_high_water

  pub Way-same :
      (received sent : Bytes) (src dst src' dst' : B)
      → lib.input src' ≡ lib.input src
      → (lib.reads src' ≡ true → lib.reads src ≡ true)
      → lib.output dst' ≡ lib.output dst
      → Way received sent src dst
      → Way received sent src' dst'
  Way-same received sent src dst src' dst' i r o w = record {
    order =
        w.order
        ∙ ap (λ z. sent ++ z)
            (ap (λ z. z ++ lib.input src) (sym o) ∙ ap (λ z. lib.output dst' ++ z) (sym i));
    pressure = λ e. rw o (w.pressure (r e));
    output_bound = rw o w.output_bound;
    input_bound = rw i w.input_bound;
  }

  pub Way-arrives :
      (received sent bs : Bytes) (src dst src' : B)
      → lib.reads src ≡ true
      → lib.input src' ≡ lib.input src ++ bs
      → length (lib.input src') ≤ read_high_water
      → Way received sent src dst
      → Way (received ++ bs) sent src' dst
  Way-arrives received sent bs src dst src' on i small w = record {
    order =
        ap (λ z. z ++ bs) w.order
        ∙ append_assoc sent (lib.output dst ++ lib.input src) bs
        ∙ ap (λ z. sent ++ z) (append_assoc (lib.output dst) (lib.input src) bs)
        ∙ ap (λ z. sent ++ (lib.output dst ++ z)) (sym i);
    pressure = λ e. w.pressure on;
    output_bound = w.output_bound;
    input_bound = small;
  }

  pub Way-flushes :
      (received sent bs : Bytes) (src dst dst' : B)
      → lib.output dst ≡ bs ++ lib.output dst'
      → Way received sent src dst
      → Way received (sent ++ bs) src dst'
  Way-flushes received sent bs src dst dst' o w =
      let longer : length (lib.output dst) ≡ length bs + length (lib.output dst') =
        ap length o ∙ length-append bs (lib.output dst') in
      record {
        order =
            w.order
            ∙ ap (λ z. sent ++ (z ++ lib.input src)) o
            ∙ ap (λ z. sent ++ z) (append_assoc bs (lib.output dst') (lib.input src))
            ∙ sym (append_assoc sent bs (lib.output dst' ++ lib.input src));
        pressure = λ e. let small = w.pressure e in omega (arith, small);
        output_bound = let small = w.output_bound in omega (arith, small);
        input_bound = w.input_bound;
      }

  module _ (law : IsLibevent lib) where
    pub Way-reads :
        (received sent : Bytes) (src dst : B)
        → lib.reads src ≡ true
        → Way received sent src dst
        → Way received sent
            (pause_if_full lib (lib.add_buffer dst src).0 (lib.add_buffer dst src).1)
            (lib.add_buffer dst src).0
    Way-reads received sent src dst on w =
        let low : length (lib.output dst) < read_high_water = w.pressure on in
        let few : length (lib.input src) ≤ read_high_water = w.input_bound in
        let d = (lib.add_buffer dst src).0 in
        let s = (lib.add_buffer dst src).1 in
        let longer : length (lib.output d) ≡ length (lib.output dst) + length (lib.input src) =
          ap length (law.moved dst src) ∙ length-append (lib.output dst) (lib.input src) in
        let all : received ≡ sent ++ (lib.output d ++ []) =
          w.order
          ∙ ap (λ z. sent ++ z) (sym (law.moved dst src) ∙ sym (append-nil (lib.output d))) in
        elim (Bool-cases (leb read_high_water (length (lib.output d)))) [
          | inl full ↦
              let nothing : lib.input (lib.disable_read s) ≡ [] =
                law.disable_input s ∙ law.emptied dst src in
              rw full record {
                order = all ∙ ap (λ z. sent ++ (lib.output d ++ z)) (sym nothing);
                pressure = λ e. absurd (false_not_true (sym (law.disabled s) ∙ e));
                output_bound = omega arith;
                input_bound = rw nothing (omega arith);
              }
          | inr room ↦
              let nothing : lib.input s ≡ [] = law.emptied dst src in
              rw room record {
                order = all ∙ ap (λ z. sent ++ (lib.output d ++ z)) (sym nothing);
                pressure = λ e. ground arith;
                output_bound = omega arith;
                input_bound = rw nothing (omega arith);
              }
        ]
      where
        false_not_true : false ≡ true → ⊥
        false_not_true e = cc

    pub Way-resumes :
        (received sent : Bytes) (src dst : B)
        → Way received sent src dst
        → Way received sent (resume_if_low lib (length (lib.output dst)) src) dst
    Way-resumes received sent src dst w =
        elim (Bool-cases (ltb (length (lib.output dst)) write_resume_water)) [
          | inr high ↦ rw high w
          | inl low ↦ rw low record {
            order = w.order ∙ ap (λ z. sent ++ (lib.output dst ++ z)) (sym (law.enable_input src));
            pressure = λ e. ground arith;
            output_bound = w.output_bound;
            input_bound = rw (law.enable_input src) w.input_bound;
          }
        ]
