-- ===== src/Sniff/Peek/State.antt =====
-- The sniffing state of a connection in src/stream_sniff.c.
use tinyproxy.Base.{
  ℕ, ◌≤◌, ◌<◌, ◌≡◌, refl, Bool, true, false, ◌⊎◌, inl, inr, ◌||◌, [], Option, none, some, arith,
  ◌==◌, Bytes, length, take, min, length-take, Bool-cases, sym, ◌∙◌,
}
use tinyproxy.Sniff.Reader.{
  SniffStatus, not_observed, need_more, parsed, stream_sniff_max, Answer, starved,
}
use tinyproxy.Sniff.Hello.{all_host_chars, parse_sni_from_client_hello}
use tinyproxy.Sniff.Hello.Safety.{IsFinal, IsSound, Writes, parse_returns}
use tinyproxy.Sniff.Peek.{
  StreamSniff, sni_size, write_sni, done_by, is_need_more, settle, sniff_run, sniff_copied,
  stream_sniff_peek_client_input,
}

abbrev pub is_over : SniffStatus → Bool
is_over not_observed = false
is_over need_more = false
is_over _ = true

-- The C string is a host name if the status is `parsed`, and empty otherwise.
abbrev pub Holds : SniffStatus → Bytes → Type 0
Holds parsed sni = (all_host_chars sni ≡ true) × (0 < length sni) × (length sni ≤ 253)
Holds _ sni = sni ≡ []

pub record IsState (s : StreamSniff) : Type 0 where
  pub over : s.done ≡ is_over s.status
  pub name : Holds s.status s.sni

Holds-write_sni :
    (buf : Bytes) (st : SniffStatus) (o : Option Bytes) (sni : Bytes)
    → IsFinal st
    → Writes buf sni_size st o
    → sni ≡ []
    → Holds st (write_sni o sni)
Holds-write_sni buf parsed none sni f w e = absurd (w refl)
Holds-write_sni buf parsed (some n) sni f w e = (w.1, w.2, w.3)
Holds-write_sni buf _ none sni f w e = e
Holds-write_sni buf _ (some n) sni f w e = cc (w.0)

-- A state that is not done holds no name yet.
Holds-nil : (st : SniffStatus) (sni : Bytes) → is_over st ≡ false → Holds st sni → sni ≡ []
Holds-nil parsed sni o h = cc
Holds-nil _ sni o h = h

done_by-final : (st : SniffStatus) (d : Bool) → IsFinal st → done_by st d ≡ is_over st
done_by-final not_observed d f = absurd f
done_by-final need_more d f = absurd f
done_by-final _ d f = refl

final-not-need_more : (st : SniffStatus) → IsFinal st → is_need_more st ≡ false
final-not-need_more need_more f = absurd f
final-not-need_more _ f = refl

settle-IsState :
    (s : StreamSniff) (input_len n : ℕ) (buf : Bytes) (w : Answer)
    → IsState s
    → s.done ≡ false
    → (w ≡ starved) ⊎ IsSound buf sni_size w
    → IsState (settle s input_len n w)
unfolding settle
settle-IsState s input_len n buf w v d (inl e) =
    rw (e, settle) (ground (arith, Holds-nil s.status s.sni (ground (arith, v.over)) v.name))
settle-IsState s input_len n buf w v d (inr q) = rw (final-not-need_more w.status q.final) (record {
  over = done_by-final w.status s.done q.final;
  name = Holds-write_sni buf w.status w.out s.sni q.final q.writes (not_done d);
})
  where
    not_done : s.done ≡ false → s.sni ≡ []
    not_done d = Holds-nil s.status s.sni (sym v.over ∙ d) v.name

-- The state of the next call, from the answer that the parser gave.
abbrev pub Settled : StreamSniff → ℕ → Bytes → Type 0
Settled s input_len buf =
    (w : Answer) × (sniff_run s input_len (length buf) (parse_sni_from_client_hello buf sni_size)
      ≡ settle s input_len (length buf) w)
    × ((w ≡ starved) ⊎ IsSound buf sni_size w)

pub sniff_run-Settled : (s : StreamSniff) (input_len : ℕ) (buf : Bytes) → Settled s input_len buf
unfolding sniff_run
sniff_run-Settled s input_len buf =
    let (w, e, q) = parse_returns buf sni_size in (w, rw (e, sniff_run), q)

sniff_copied-IsState :
    (s : StreamSniff) (input_len : ℕ) (o : Option Bytes)
    → IsState s
    → s.done ≡ false
    → IsState (sniff_copied s input_len o)
unfolding sniff_copied
sniff_copied-IsState s input_len none v d = v
sniff_copied-IsState s input_len (some buf) v d = elim (Bool-cases (length buf == 0)) [
  | inl e ↦ rw e v
  | inr e ↦
      let (w, r, q) = sniff_run-Settled s input_len buf in
      rw (e, r) (settle-IsState s input_len (length buf) buf w v d q)
]

-- Whatever evbuffer_copyout returns, each look at the client's input keeps the state well
-- formed: `done` is set exactly at the final statuses, and the array holds a valid host name of 1
-- to 253 bytes when the status is `parsed`, and the empty string otherwise.
pub peek-IsState :
    (evbuffer_copyout : Bytes → ℕ → Option Bytes) (s : StreamSniff) (input : Bytes)
    → IsState s
    → IsState (stream_sniff_peek_client_input evbuffer_copyout s input)
unfolding stream_sniff_peek_client_input
peek-IsState evbuffer_copyout s input v = elim (Bool-cases (s.done || length input == 0)) [
  | inl e ↦ rw e v
  | inr e ↦ rw e (sniff_copied-IsState s (length input) (evbuffer_copyout input _) v (ground arith))
]

done_by-true : (st : SniffStatus) (d : Bool) → IsFinal st → done_by st d ≡ true
done_by-true not_observed d f = absurd f
done_by-true need_more d f = absurd f
done_by-true _ d f = refl

settle_full :
    (s : StreamSniff) (input_len n : ℕ) (buf : Bytes) (w : Answer)
    → stream_sniff_max ≤ input_len
    → (w ≡ starved) ⊎ IsSound buf sni_size w
    → (settle s input_len n w).done ≡ true
unfolding settle
settle_full s input_len n buf w h (inl e) = rw (e, settle) (ground arith)
settle_full s input_len n buf w h (inr q) =
    rw (final-not-need_more w.status q.final) (done_by-true w.status s.done q.final)

sniff_copied_full :
    (s : StreamSniff) (input_len : ℕ) (buf : Bytes)
    → stream_sniff_max ≤ input_len
    → 0 < length buf
    → (sniff_copied s input_len (some buf)).done ≡ true
unfolding sniff_copied
sniff_copied_full s input_len buf h some_bytes =
    let (w, r, q) = sniff_run-Settled s input_len buf in
    let nonempty : (length buf == 0) ≡ false = ground arith in
    rw (nonempty, r) (settle_full s input_len (length buf) buf w h q)

-- With an evbuffer_copyout that copies the first bytes of the buffer, as libevent documents, a
-- look at 8192 bytes or more ends the reading; no state waits for bytes beyond that.
pub peek_full :
    (evbuffer_copyout : Bytes → ℕ → Option Bytes)
    → ((input : Bytes) (n : ℕ) → evbuffer_copyout input n ≡ some (take n input))
    → (s : StreamSniff) (input : Bytes) → stream_sniff_max ≤ length input
    → (stream_sniff_peek_client_input evbuffer_copyout s input).done ≡ true
unfolding stream_sniff_peek_client_input
peek_full evbuffer_copyout copies s input h = elim (Bool-cases s.done) [
  | inl d ↦ rw d refl
  | inr d ↦
      let reads : (s.done || length input == 0) ≡ false = ground arith in
      rw (reads, copies input (min (length input) stream_sniff_max))
        (sniff_copied_full s (length input) _ h
          (omega (arith, length-take (min (length input) stream_sniff_max) input)))
]
