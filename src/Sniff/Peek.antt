-- ===== src/Sniff/Peek.antt =====
-- struct stream_sniff, stream_sniff_peek_client_input and stream_sniff_log_sni of
-- src/stream_sniff.c. The bytes that libevent copies out of the client's input buffer are an
-- argument: the result of evbuffer_copyout on the input and the wanted length.
pub mod State
pub mod Log
use tinyproxy.Base.{
  ℕ, Bool, true, false, ◌&&◌, ◌||◌, not, [], Option, none, some, ltb, leb, ◌==◌, if◌then◌else◌,
  Bytes, codes, length, min,
}
use tinyproxy.Sniff.Reader.{
  SniffStatus, not_observed, need_more, parsed, missing, not_tls, truncated, name_too_long,
  parse_error, stream_sniff_max, stream_sni_max, Answer, Parse, value, answer, fault, no_fuel,
}
use tinyproxy.Sniff.Hello.{parse_sni_from_client_hello}

-- `sni` is the C string that the array holds.
pub record StreamSniff : Type 0 where
  pub sni : Bytes
  pub status : SniffStatus
  pub observed : ℕ
  pub done : Bool

-- A connection is allocated by calloc.
abbrev pub zeroed : StreamSniff
zeroed = record { sni = []; status = not_observed; observed = 0; done = false }

-- sizeof(s->sni)
abbrev pub sni_size : ℕ
sni_size = 254

abbrev is_need_more : SniffStatus → Bool
is_need_more need_more = true
is_need_more _ = false

-- The switch that sets `done`.
abbrev pub done_by : SniffStatus → Bool → Bool
done_by not_observed d = d
done_by need_more d = d
done_by _ d = true

abbrev pub write_sni : Option Bytes → Bytes → Bytes
write_sni none old = old
write_sni (some name) old = name

-- After the parser returned, on an input of `input_len` bytes of which `n` were read.
pub settle : StreamSniff → ℕ → ℕ → Answer → StreamSniff
settle s input_len n w =
    let seen = record s { sni = write_sni w.out s.sni; observed = n } in
    if is_need_more w.status && w.wants_more
    then (if leb stream_sniff_max input_len
        then record seen { status = truncated; done = true }
        else record seen { status = need_more })
    else record seen { status = w.status; done = done_by w.status s.done }

-- The parser's run; a fault or missing rounds would leave the state, and never occur.
pub sniff_run : StreamSniff → ℕ → ℕ → Parse ⊥ → StreamSniff
sniff_run s input_len n (answer w) = settle s input_len n w
sniff_run s input_len n (value a) = absurd a
sniff_run s input_len n fault = s
sniff_run s input_len n no_fuel = s

-- `none` is a negative result of evbuffer_copyout.
pub sniff_copied : StreamSniff → ℕ → Option Bytes → StreamSniff
sniff_copied s input_len none = s
sniff_copied s input_len (some buf) =
    if length buf == 0
    then s
    else sniff_run s input_len (length buf) (parse_sni_from_client_hello buf sni_size)

unfoldable pub stream_sniff_peek_client_input :
    (Bytes → ℕ → Option Bytes) → StreamSniff → Bytes → StreamSniff
unfolding sniff_copied sniff_run settle
stream_sniff_peek_client_input evbuffer_copyout s input =
    if s.done || length input == 0
    then s
    else sniff_copied s (length input)
        (evbuffer_copyout input (min (length input) stream_sniff_max))

abbrev pub status_text : SniffStatus → Bytes
status_text not_observed = codes "<not_observed>"
status_text need_more = codes "<need_more>"
status_text missing = codes "<missing>"
status_text not_tls = codes "<not_tls>"
status_text truncated = codes "<truncated>"
status_text name_too_long = codes "<name_too_long>"
status_text parse_error = codes "<parse_error>"
status_text parsed = codes "<empty>"

abbrev is_parsed : SniffStatus → Bool
is_parsed parsed = true
is_parsed _ = false

-- `none` is the NULL pointer.
unfoldable pub stream_sniff_log_sni : Option StreamSniff → Bytes
stream_sniff_log_sni none = codes "<not_observed>"
stream_sniff_log_sni (some s) =
    if is_parsed s.status && not (length s.sni == 0) then s.sni else status_text s.status
