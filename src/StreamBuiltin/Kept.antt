-- ===== src/StreamBuiltin/Kept.antt =====
-- The callbacks of src/stream_builtin.c and libevent's writes, over the answer.
use tinyproxy.Base.{
  ℕ, ◌==◌, ◌≡◌, ◌≢◌, refl, sym, ap, ◌∙◌, subst, Bool, true, false, not, inl, inr, ◌⊎◌, [], ◌∷◌,
  ◌++◌, append_assoc, Option, none, some, if◌then◌else◌, arith, Bytes, length,
}
use tinyproxy.Pipe.{Conn, finish_client_write, close_wait_timeout_sec}
use tinyproxy.Pipe.Events.{Events, stream_client_event_cb}
use tinyproxy.StreamBuiltin.{
  ReadCb, no_read_cb, builtin_client_read, WriteCb, no_write_cb, builtin_close_after_write,
  builtin_http_close_after_write, BuiltinConn, BuiltinCalls, builtin_client_read_cb,
  builtin_http_close_after_write_cb, builtin_close_after_write_cb, on_read, with_conn, on_write,
  on_event, Answering, Step, goes_out, comes_in, readable, writable, event, Reached, at_start,
  after,
}

-- What libevent documents of the calls: bufferevent_write adds bytes to the end of the output, and no
-- other call changes it.
pub record IsBuffering {B : Type 0} (calls : BuiltinCalls B) : Type 0 where
  pub appends :
      (bs : Bytes) (b : B) → calls.lib.output (calls.write bs b) ≡ calls.lib.output b ++ bs
  pub drains : (b : B) → calls.lib.output (calls.drain_input b) ≡ calls.lib.output b
  pub enables_write : (b : B) → calls.lib.output (calls.enable_write b) ≡ calls.lib.output b
  pub enables_read : (b : B) → calls.lib.output (calls.lib.enable_read b) ≡ calls.lib.output b
  pub disables_write : (b : B) → calls.lib.output (calls.lib.disable_write b) ≡ calls.lib.output b
  pub shuts : (b : B) → calls.lib.output (calls.lib.shutdown_write b) ≡ calls.lib.output b
  pub waits :
      (n : ℕ) (b : B) → calls.lib.output (calls.lib.set_read_timeout n b) ≡ calls.lib.output b
  pub times : (n : ℕ) (b : B) → calls.lib.output (calls.set_timeouts n b) ≡ calls.lib.output b

-- What went out and what waits are the answer, and its end waits for all of it to go out.
abbrev pub Answers : {B : Type 0} → BuiltinCalls B → Bytes → Answering B → Type 0
Answers calls reply a =
    (a.to_client ++ calls.lib.output a.built.conn.client ≡ reply)
    × (a.built.conn.close_after_client_eof ≡ true → calls.lib.output a.built.conn.client ≡ [])

module _ {B : Type 0} (calls : BuiltinCalls B) (buffers : IsBuffering calls) where
  pub finish-output :
      (conn : Conn B)
      → calls.lib.output (finish_client_write calls.lib conn).client ≡ calls.lib.output conn.client
  unfolding finish_client_write
  finish-output conn = by_fd (calls.lib.has_fd conn.client)
    where
      by_fd :
          (has_fd : Bool)
          → calls.lib.output (
              calls.lib.set_read_timeout close_wait_timeout_sec (
                calls.lib.enable_read (
                  calls.lib.disable_write
                    (if has_fd then calls.lib.shutdown_write conn.client else conn.client))))
            ≡ calls.lib.output conn.client
      by_fd true =
          buffers.waits _ _ ∙ buffers.enables_read _ ∙ buffers.disables_write _ ∙ buffers.shuts _
      by_fd false = buffers.waits _ _ ∙ buffers.enables_read _ ∙ buffers.disables_write _

  pub no_output : (output : Bytes) → (length output == 0) ≡ true → output ≡ []
  no_output [] empty = refl
  no_output (x ∷ xs) empty = ground arith

  pub not_both : true ≢ false
  not_both h = cc

  no_tail : (now later : Bytes) → now ++ later ≡ [] → later ≡ []
  no_tail [] later h = h
  no_tail (x ∷ xs) later h = cc

  -- A connection whose output is the same.
  same-Answers :
      (reply : Bytes) (a : Answering B) (b : BuiltinConn B)
      → calls.lib.output b.conn.client ≡ calls.lib.output a.built.conn.client
      → b.conn.close_after_client_eof ≡ a.built.conn.close_after_client_eof
      → Answers calls reply a
      → Answers calls reply (record a { built = b })
  same-Answers reply a b output flag (same, ended) =
      (ap (λ z. a.to_client ++ z) output ∙ same, λ e. output ∙ ended (sym flag ∙ e))

  read-Answers :
      (reply : Bytes) (a : Answering B)
      → Answers calls reply a
      → Answers calls reply (record a { built = on_read calls a.built })
  unfolding on_read builtin_client_read_cb
  read-Answers reply a answers = by_cb a.built.read_cb
    where
      by_cb :
          (cb : ReadCb)
          → Answers calls reply (record a {
            built = elim cb [
              | no_read_cb ↦ a.built
              | builtin_client_read ↦ record a.built {
                conn = builtin_client_read_cb calls a.built.conn;
              }
            ];
          })
      by_cb no_read_cb = answers
      by_cb builtin_client_read =
          same-Answers reply a (record a.built { conn = builtin_client_read_cb calls a.built.conn })
            (buffers.drains a.built.conn.client) refl answers

  http-Answers :
      (reply : Bytes) (a : Answering B)
      → Answers calls reply a
      → Answers calls reply (record a {
        built = record a.built { conn = builtin_http_close_after_write_cb calls a.built.conn };
      })
  unfolding builtin_http_close_after_write_cb
  http-Answers reply a (same, ended) =
      by_length (length (calls.lib.output a.built.conn.client) == 0) refl
    where
      finished : Conn B
      finished = record (finish_client_write calls.lib a.built.conn) {
        close_after_client_eof = true;
      }

      by_length :
          (empty : Bool)
          → (length (calls.lib.output a.built.conn.client) == 0) ≡ empty
          → Answers calls reply (record a {
            built = record a.built { conn = if not empty then a.built.conn else finished };
          })
      by_length false waits = (same, ended)
      by_length true waits = (
        ap (λ z. a.to_client ++ z) (finish-output a.built.conn) ∙ same,
        λ e. finish-output a.built.conn ∙ no_output _ waits,
      )

  kept-Answers :
      (reply : Bytes) (a : Answering B) (o : Option (Conn B)) (b : BuiltinConn B)
      → (o ≡ none) ⊎ (o ≡ some a.built.conn)
      → with_conn calls a.built o ≡ some b
      → Answers calls reply a
      → Answers calls reply (record a { built = b })
  kept-Answers reply a none b h called answers = cc
  kept-Answers reply a (some conn) b (inl h) called answers = cc
  kept-Answers reply a (some conn) b (inr h) called answers =
      let same : b ≡ a.built = cc in rw same answers

  write-Answers :
      (reply : Bytes) (a : Answering B) (b : BuiltinConn B)
      → on_write calls a.built ≡ some b
      → Answers calls reply a
      → Answers calls reply (record a { built = b })
  unfolding on_write builtin_close_after_write_cb
  write-Answers reply a b called answers = by_cb a.built.write_cb called
    where
      closed :
          (empty : Bool)
          → ((if empty then none else some a.built.conn) ≡ none)
            ⊎ ((if empty then none else some a.built.conn) ≡ some a.built.conn)
      closed true = inl refl
      closed false = inr refl

      by_cb :
          (cb : WriteCb)
          → elim cb [
            | no_write_cb ↦ some a.built
            | builtin_close_after_write ↦
                with_conn calls a.built (builtin_close_after_write_cb calls a.built.conn)
            | builtin_http_close_after_write ↦
                some
                  (record a.built { conn = builtin_http_close_after_write_cb calls a.built.conn })
          ]
            ≡ some b
          → Answers calls reply (record a { built = b })
      by_cb no_write_cb h =
          let same : a.built ≡ b = cc in
          subst (λ z. Answers calls reply (record a { built = z })) same answers
      by_cb builtin_close_after_write h =
          kept-Answers reply a _ b (closed (length (calls.lib.output a.built.conn.client) == 0)) h
            answers
      by_cb builtin_http_close_after_write h =
          let same : record a.built { conn = builtin_http_close_after_write_cb calls a.built.conn }
              ≡ b =
            cc in
          subst (λ z. Answers calls reply (record a { built = z })) same
            (http-Answers reply a answers)

  event-Answers :
      (reply : Bytes) (a : Answering B) (b : BuiltinConn B) (events : Events)
      → on_event calls events a.built ≡ some b
      → Answers calls reply a
      → Answers calls reply (record a { built = b })
  unfolding on_event stream_client_event_cb
  event-Answers reply a b events called answers =
      kept-Answers reply a (stream_client_event_cb events a.built.conn) b
        (by_bits events.timeout events.error events.eof) called answers
    where
      by_bits :
          (timeout error eof : Bool)
          → ((if timeout
                then none
                else if error
                then none
                else if eof
                then none
                else some a.built.conn)
              ≡ none)
            ⊎ ((if timeout
                  then none
                  else if error
                  then none
                  else if eof
                  then none
                  else some a.built.conn)
                ≡ some a.built.conn)
      by_bits true error eof = inl refl
      by_bits false true eof = inl refl
      by_bits false false true = inl refl
      by_bits false false false = inr refl

  step-Answers :
      (reply : Bytes) (a b : Answering B)
      → Step calls a b
      → Answers calls reply a
      → Answers calls reply b
  step-Answers reply a _ (goes_out client now split) (same, ended) = (
    append_assoc a.to_client now (calls.lib.output client)
        ∙ ap (λ z. a.to_client ++ z) (sym split)
        ∙ same,
    λ e. no_tail now (calls.lib.output client) (sym split ∙ ended e),
  )
  step-Answers reply a _ (comes_in client output) (same, ended) =
      (ap (λ z. a.to_client ++ z) output ∙ same, λ e. output ∙ ended e)
  step-Answers reply a _ readable answers = read-Answers reply a answers
  step-Answers reply _ _ (writable {a} {b} called) answers = write-Answers reply a b called answers
  step-Answers reply _ _ (event {a} {b} events called) answers =
      event-Answers reply a b events called answers

  pub Reached-Answers :
      (reply : Bytes) (start a : Answering B)
      → Reached calls start a
      → Answers calls reply start
      → Answers calls reply a
  Reached-Answers reply start _ at_start answers = answers
  Reached-Answers reply start a (after {now} earlier step) answers =
      step-Answers reply now a step (Reached-Answers reply start now earlier answers)

  pub write-none :
      (b : BuiltinConn B) → on_write calls b ≡ none → calls.lib.output b.conn.client ≡ []
  unfolding on_write builtin_close_after_write_cb
  write-none b = by_cb b.write_cb
    where
      by_length :
          (empty : Bool)
          → (length (calls.lib.output b.conn.client) == 0) ≡ empty
          → with_conn calls b (if empty then none else some b.conn) ≡ none
          → calls.lib.output b.conn.client ≡ []
      by_length true is_empty h = no_output _ is_empty
      by_length false waits h = cc

      by_cb :
          (cb : WriteCb)
          → elim cb [
            | no_write_cb ↦ some b
            | builtin_close_after_write ↦
                with_conn calls b (builtin_close_after_write_cb calls b.conn)
            | builtin_http_close_after_write ↦
                some (record b { conn = builtin_http_close_after_write_cb calls b.conn })
          ]
            ≡ none
          → calls.lib.output b.conn.client ≡ []
      by_cb no_write_cb h = cc
      by_cb builtin_close_after_write h =
          by_length (length (calls.lib.output b.conn.client) == 0) refl h
      by_cb builtin_http_close_after_write h = cc
