-- ===== src/Sniff/Hello/Safety.antt =====
-- The parser of src/stream_sniff.c on a buffer and on the same buffer with more bytes behind it.
use tinyproxy.Base.{
  ℕ, zero, suc, ◌+◌, ◌≤◌, ◌<◌, ◌≡◌, ◌≢◌, ◌⊎◌, [], inl, inr, refl, Bool, true, false, ◌++◌, Option,
  some, none, arith, leb, ◌==◌, if◌then◌else◌, Bytes, length, take, drop, length-append,
}
use tinyproxy.Sniff.Reader.{
  SniffStatus, not_observed, need_more, parsed, missing, not_tls, truncated, name_too_long,
  parse_error, Answer, stopped, starved, Parse, answer,
}
use tinyproxy.Sniff.Reader.Agree.{
  Agree, goes_on, returns, Agree->>=, Agree-stop_if, Agree-starved, Agree-answers, Agree-if,
  byte_at-Agree, read_u16_be-Agree, read_u24_be-Agree, slice_at-Agree,
}
use tinyproxy.Sniff.Hello.{
  all_host_chars, valid_sni_name, tls_record, handshake, skip_session_id, skip_cipher_suites,
  skip_compression_methods, extensions_start, host_name, server_names, server_name, extensions,
  hello_body, parse_sni_from_client_hello,
}

-- The statuses that end the reading.
abbrev pub IsFinal : SniffStatus → Type 0
IsFinal not_observed = ⊥
IsFinal need_more = ⊥
IsFinal truncated = ⊥
IsFinal _ = Unit

-- What is written to `out`: a name if and only if the status is `parsed`. The name is a run of
-- bytes of the input, of 1 to 253 host name characters, and it fits `out` with its NUL.
abbrev pub Writes : Bytes → ℕ → SniffStatus → Option Bytes → Type 0
Writes buf out_len s none = s ≢ parsed
Writes buf out_len s (some name) =
    (s ≡ parsed)
    × (all_host_chars name ≡ true)
    × (0 < length name)
    × (length name ≤ 253)
    × (length name < out_len)
    × ((pos : ℕ) × (name ≡ take (length name) (drop pos buf)))

pub record IsSound (buf : Bytes) (out_len : ℕ) (w : Answer) : Type 0 where
  pub final : IsFinal w.status
  pub wants_no_more : w.wants_more ≡ false
  pub writes : Writes buf out_len w.status w.out

module _ (buf more : Bytes) (out_len : ℕ) where
  abbrev Steps : {A : Type 0} → (A → Type 0) → Parse A → Parse A → Type 0
  Steps P m n = Agree (IsSound buf out_len) P m n

  stopped-IsSound : (s : SniffStatus) → IsFinal s → s ≢ parsed → IsSound buf out_len (stopped s)
  stopped-IsSound s f n = record { final = f; wants_no_more = refl; writes = n }

  errs : IsSound buf out_len (stopped parse_error)
  errs = stopped-IsSound parse_error tt (λ e. cc)

  handshake-Steps :
      (record_end : ℕ)
      → record_end ≤ length buf
      → Steps
          (λ hs_end. hs_end ≤ length buf)
          (handshake buf record_end)
          (handshake (buf ++ more) record_end)
  unfolding handshake
  handshake-Steps record_end h = Agree-stop_if _ _ _ _ errs λ long.
      Agree->>= _ _ (byte_at-Agree buf more 5 (ground arith)) λ t _.
        Agree-stop_if _ _ _ _ (stopped-IsSound not_tls tt (λ e. cc)) λ _.
          Agree->>= _ _ (read_u24_be-Agree buf more 6 (ground arith))
            λ hs_len _. Agree-stop_if _ _ _ _ errs λ fits. goes_on _ (ground arith)

  module _ (hs_end : ℕ) (inside : hs_end ≤ length buf) where
    skip_session_id-Steps :
        Steps
          (λ pos. pos ≤ hs_end)
          (skip_session_id buf hs_end)
          (skip_session_id (buf ++ more) hs_end)
    unfolding skip_session_id
    skip_session_id-Steps = Agree-stop_if _ _ _ _ errs λ long.
        Agree->>= _ _ (byte_at-Agree buf more 43 (ground arith))
          λ n _. Agree-stop_if _ _ _ _ errs λ fits. goes_on _ (ground arith)

    skip_cipher_suites-Steps :
        (pos : ℕ)
        → Steps
            (λ next. next ≤ hs_end)
            (skip_cipher_suites buf hs_end pos)
            (skip_cipher_suites (buf ++ more) hs_end pos)
    unfolding skip_cipher_suites
    skip_cipher_suites-Steps pos = Agree-stop_if _ _ _ _ errs λ long.
        Agree->>= _ _ (read_u16_be-Agree buf more pos (ground arith)) λ n _.
          Agree-stop_if _ _ _ _ errs
            λ _. Agree-stop_if _ _ _ _ errs λ fits. goes_on _ (ground arith)

    skip_compression_methods-Steps :
        (pos : ℕ)
        → Steps
            (λ next. next ≤ hs_end)
            (skip_compression_methods buf hs_end pos)
            (skip_compression_methods (buf ++ more) hs_end pos)
    unfolding skip_compression_methods
    skip_compression_methods-Steps pos = Agree-stop_if _ _ _ _ errs λ long.
        Agree->>= _ _ (byte_at-Agree buf more pos (ground arith)) λ n _.
          Agree-stop_if _ _ _ _ errs
            λ _. Agree-stop_if _ _ _ _ errs λ fits. goes_on _ (ground arith)

    extensions_start-Steps :
        (pos : ℕ)
        → Steps
            (λ next. next ≤ hs_end)
            (extensions_start buf hs_end pos)
            (extensions_start (buf ++ more) hs_end pos)
    unfolding extensions_start
    extensions_start-Steps pos = Agree-stop_if _ _ _ _ (stopped-IsSound missing tt (λ e. cc)) λ _.
        Agree-stop_if _ _ _ _ errs λ long.
          Agree->>= _ _ (read_u16_be-Agree buf more pos (ground arith))
            λ n _. Agree-stop_if _ _ _ _ errs λ fits. goes_on _ (ground arith)

  host_name-Steps :
      (pos n : ℕ)
      → pos + n ≤ length buf
      → Steps (λ _. Unit {0}) (host_name buf out_len pos n) (host_name (buf ++ more) out_len pos n)
  unfolding host_name valid_sni_name
  host_name-Steps pos n h =
      Agree-stop_if _ _ _ _ (stopped-IsSound name_too_long tt (λ e. cc)) λ short.
        Agree->>= _ _ (slice_at-Agree buf more pos n h) λ name is_slice.
          Agree-stop_if _ _ _ _ errs λ valid.
            Agree-stop_if _ _ _ _ (stopped-IsSound name_too_long tt (λ e. cc)) λ room.
              returns _ (record {
                final = tt;
                wants_no_more = refl;
                writes = (
                  refl,
                  ground arith,
                  ground arith,
                  ground arith,
                  ground arith,
                  (pos, ground arith),
                );
              })

  server_names-Steps :
      (rounds list_end pos : ℕ)
      → list_end ≤ length buf
      → pos ≤ list_end
      → list_end < pos + rounds
      → Steps
          (λ _. Unit {0})
          (server_names rounds buf out_len list_end pos)
          (server_names rounds (buf ++ more) out_len list_end pos)
  unfolding server_names
  server_names-Steps zero list_end pos h p r = absurd (omega arith)
  server_names-Steps (suc rounds) list_end pos h p r =
      Agree-if (leb (pos + 3) list_end) _ _ _ _
        (λ long. Agree->>= _ _ (byte_at-Agree buf more pos (ground arith)) λ t _.
          Agree->>= _ _ (read_u16_be-Agree buf more (pos + 1) (ground arith)) λ n _.
            Agree-stop_if _ _ _ _ errs λ fits.
              Agree-if (t == 0) _ _ _ _ (λ _. host_name-Steps (pos + 3) n (ground arith))
                (λ _.
                  server_names-Steps rounds list_end (pos + 3 + n) h (ground arith) (ground arith)))
        (λ _. returns _ (stopped-IsSound missing tt (λ e. cc)))

  server_name-Steps :
      (pos n : ℕ)
      → pos + n ≤ length buf
      → Steps
          (λ _. Unit {0})
          (server_name buf out_len pos n)
          (server_name (buf ++ more) out_len pos n)
  unfolding server_name
  server_name-Steps pos n h = Agree-stop_if _ _ _ _ errs λ long.
      Agree->>= _ _ (read_u16_be-Agree buf more pos (ground arith)) λ list_len _.
        Agree-stop_if _ _ _ _ errs λ fits.
          server_names-Steps (suc list_len) (pos + n) (pos + 2) h (ground arith) (ground arith)

  extensions-Steps :
      (rounds extensions_end pos : ℕ)
      → extensions_end ≤ length buf
      → pos ≤ extensions_end
      → extensions_end < pos + rounds
      → Steps
          (λ _. Unit {0})
          (extensions rounds buf out_len extensions_end pos)
          (extensions rounds (buf ++ more) out_len extensions_end pos)
  unfolding extensions
  extensions-Steps zero extensions_end pos h p r = absurd (omega arith)
  extensions-Steps (suc rounds) extensions_end pos h p r =
      Agree-if (leb (pos + 4) extensions_end) _ _ _ _
        (λ long. Agree->>= _ _ (read_u16_be-Agree buf more pos (ground arith)) λ t _.
          Agree->>= _ _ (read_u16_be-Agree buf more (pos + 2) (ground arith)) λ n _.
            Agree-stop_if _ _ _ _ errs λ fits.
              Agree-if (t == 0) _ _ _ _ (λ _. server_name-Steps (pos + 4) n (ground arith))
                (λ _.
                  extensions-Steps rounds extensions_end (pos + 4 + n) h (ground arith)
                    (ground arith)))
        (λ _. returns _ (ended (pos == extensions_end)))
    where
      ended : (b : Bool) → IsSound buf out_len (stopped (if b then missing else parse_error))
      ended true = stopped-IsSound missing tt (λ e. cc)
      ended false = errs

  hello_body-Steps :
      (record_end : ℕ)
      → record_end ≤ length buf
      → Steps
          (λ _. Unit {0})
          (hello_body buf out_len record_end)
          (hello_body (buf ++ more) out_len record_end)
  unfolding hello_body
  hello_body-Steps record_end h = Agree->>= _ _ (handshake-Steps record_end h) λ hs_end i.
      Agree->>= _ _ (skip_session_id-Steps hs_end i) λ ciphers _.
        Agree->>= _ _ (skip_cipher_suites-Steps hs_end i ciphers) λ methods _.
          Agree->>= _ _ (skip_compression_methods-Steps hs_end i methods) λ rest _.
            Agree->>= _ _ (extensions_start-Steps hs_end i rest)
              λ first p. extensions-Steps (suc hs_end) hs_end first i p (omega arith)

  tls_record-Steps :
      Steps (λ record_end. record_end ≤ length buf) (tls_record buf) (tls_record (buf ++ more))
  unfolding tls_record
  tls_record-Steps =
      Agree-starved _ _ _ _ (λ h. ground (arith, grows))
        λ some_byte. Agree->>= _ _ (byte_at-Agree buf more 0 (ground arith)) λ t _.
          Agree-stop_if _ _ _ _ (stopped-IsSound not_tls tt (λ e. cc)) λ _.
            Agree-starved _ _ _ _ (λ h. ground (arith, grows))
              λ header. Agree->>= _ _ (byte_at-Agree buf more 1 (ground arith)) λ major _.
                Agree-stop_if _ _ _ _ errs λ _.
                  Agree->>= _ _ (read_u16_be-Agree buf more 3 (ground arith)) λ n _.
                    Agree-stop_if _ _ _ _ errs λ _.
                      Agree-starved _ _ _ _ (λ h. ground (arith, grows))
                        λ whole. goes_on _ (ground arith)
    where
      grows : length buf ≤ length (buf ++ more)
      grows = omega (arith, length-append buf more)

  parse-Steps :
      Steps
        (λ _. Unit {0})
        (parse_sni_from_client_hello buf out_len)
        (parse_sni_from_client_hello (buf ++ more) out_len)
  unfolding parse_sni_from_client_hello
  parse-Steps = Agree->>= _ _ tls_record-Steps λ record_end h. hello_body-Steps record_end h

-- On every input the parser returns, with no read outside the `len` bytes that it was given and
-- with both loops ended by their own tests. It asks for more bytes, or its answer is sound: a
-- final status, and a name in `out` exactly when the status is `parsed`, taken from the input,
-- valid, and short enough for `out` and its NUL.
pub parse_returns :
    (buf : Bytes) (out_len : ℕ)
    → (w : Answer) × (parse_sni_from_client_hello buf out_len ≡ answer w)
      × ((w ≡ starved) ⊎ IsSound buf out_len w)
parse_returns buf out_len =
    let (w, e, r) = Agree-answers (parse-Steps buf [] out_len) in
    (w, e, elim r [ inl s ↦ inl s | inr q ↦ inr q.1 ])

-- Once the parser has answered other than "more bytes", further bytes change nothing.
pub parse_stable :
    (buf more : Bytes) (out_len : ℕ) (w : Answer)
    → parse_sni_from_client_hello buf out_len ≡ answer w
    → w.status ≢ need_more
    → parse_sni_from_client_hello (buf ++ more) out_len ≡ answer w
parse_stable buf more out_len w e decided =
    let (v, f, r) = Agree-answers (parse-Steps buf more out_len) in
    elim r [
      | inl s ↦ let is_starved : w ≡ starved = cc (e, f, s) in absurd (decided (rw is_starved))
      | inr q ↦ cc (e, f, q.0)
    ]
