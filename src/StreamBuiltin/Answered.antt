-- ===== src/StreamBuiltin/Answered.antt =====
-- A client of src/stream_builtin.c over the steps of the callbacks.
use tinyproxy.Base.{
  ℕ, ◌≡◌, refl, sym, ap, ◌∙◌, subst, Bool, true, false, [], ◌∷◌, ◌++◌, append-nil, Option, none,
  some, ltb, if◌then◌else◌, arith, Bytes, length, ok,
}
use tinyproxy.Builtin.{
  XBuiltin, XBuiltinAction, close_action, http_resp_action, discard_action, hang_action,
  XBuiltinResponse, x_builtin_handle,
}
use tinyproxy.Pipe.{Conn, finish_client_write}
use tinyproxy.StreamBuiltin.{
  ReadCb, no_read_cb, builtin_client_read, WriteCb, no_write_cb, builtin_close_after_write,
  builtin_http_close_after_write, BuiltinConn, BuiltinCalls, stream_client_addr_string,
  set_client_idle_timeout, written, reading, by_action, answered, start_stream_builtin, on_write,
  Answering, Reached,
}
use tinyproxy.StreamBuiltin.Kept.{
  IsBuffering, Answers, finish-output, not_both, Reached-Answers, write-none,
}

module _ {B : Type 0} (calls : BuiltinCalls B) (buffers : IsBuffering calls) where
  some-inj : {x y : BuiltinConn B} → some x ≡ some y → x ≡ y
  some-inj h = cc

  no_bytes : (bs : Bytes) → ltb 0 (length bs) ≡ false → bs ≡ []
  no_bytes [] h = refl
  no_bytes (x ∷ xs) h = ground arith

  -- What is written before the connection is left to its callbacks.
  abbrev pub answer_text : XBuiltinResponse → Bytes
  answer_text res = elim res.action [
    | close_action ↦ res.payload
    | http_resp_action ↦ res.payload
    | discard_action ↦ []
    | hang_action ↦ []
  ]

  abbrev start_of : BuiltinConn B → Answering B
  start_of b = record { built = b; to_client = [] }

  module _ (conn : Conn B) (fresh : calls.lib.output conn.client ≡ [])
      (unended : conn.close_after_client_eof ≡ false) where
    written-Answers :
        (payload : Bytes) (client : B) (r : ReadCb) (w : WriteCb)
        → calls.lib.output client ≡ calls.lib.output conn.client ++ payload
        → Answers calls payload (
            start_of (record { conn = record conn { client = client }; read_cb = r; write_cb = w }))
    written-Answers payload client r w output = (
      output ∙ ap (λ z. z ++ payload) fresh,
      λ e. absurd (not_both calls buffers (sym e ∙ unended)),
    )

    by_action-Answers :
        (action : XBuiltinAction) (payload : Bytes) (b : BuiltinConn B)
        → by_action calls action payload conn ≡ some b
        → Answers calls (answer_text (record { action = action; payload = payload })) (start_of b)
    unfolding by_action
    by_action-Answers close_action payload b = by_length (ltb 0 (length payload))
      where
        by_length :
            (some_bytes : Bool)
            → (if some_bytes
                then some (record {
                  conn = written calls payload conn;
                  read_cb = no_read_cb;
                  write_cb = builtin_close_after_write;
                })
                else none)
              ≡ some b
            → Answers calls payload (start_of b)
        by_length false h = cc
        by_length true h =
            subst (λ z. Answers calls payload (start_of z)) (some-inj h)
              (written-Answers payload _ no_read_cb builtin_close_after_write
                (buffers.enables_write _ ∙ buffers.appends payload conn.client))
    by_action-Answers http_resp_action payload b = by_length (ltb 0 (length payload)) refl
      where
        by_length :
            (some_bytes : Bool)
            → ltb 0 (length payload) ≡ some_bytes
            → (if some_bytes
                then some (record {
                  conn = reading calls (written calls payload conn);
                  read_cb = builtin_client_read;
                  write_cb = builtin_http_close_after_write;
                })
                else some (record {
                  conn = reading calls (record (finish_client_write calls.lib conn) {
                    close_after_client_eof = true;
                  });
                  read_cb = builtin_client_read;
                  write_cb = no_write_cb;
                }))
              ≡ some b
            → Answers calls payload (start_of b)
        by_length true test h =
            subst (λ z. Answers calls payload (start_of z)) (some-inj h)
              (written-Answers payload _ builtin_client_read builtin_http_close_after_write (
                buffers.enables_read _
                ∙ buffers.enables_write _
                ∙ buffers.appends payload conn.client))
        by_length false test h =
            let finished = buffers.enables_read _ ∙ finish-output calls buffers conn ∙ fresh in
            let nothing : payload ≡ [] = no_bytes payload test in
            subst (λ z. Answers calls payload (start_of z)) (some-inj h)
              (finished ∙ sym nothing, λ e. finished)
    by_action-Answers discard_action payload b = λ h.
        subst (λ z. Answers calls [] (start_of z)) (some-inj h)
          (buffers.enables_read _ ∙ fresh, λ e. absurd (not_both calls buffers (sym e ∙ unended)))
    by_action-Answers hang_action payload b = λ h.
        subst (λ z. Answers calls [] (start_of z)) (some-inj h)
          (buffers.enables_read _ ∙ fresh, λ e. absurd (not_both calls buffers (sym e ∙ unended)))

  -- A client that is answered gets the bytes of the response, in order, whatever libevent then sends
  -- and calls; and the connection is freed by a write callback, or its end is awaited, only when all of
  -- them went out.
  pub start_stream_builtin-Answers :
      (inet_ntop : ℕ → Bytes → Option Bytes) (peer : Option Bytes) (builtin : XBuiltin)
      (conn : Conn B) (res : XBuiltinResponse) (b : BuiltinConn B) (a : Answering B)
      → calls.lib.output conn.client ≡ []
      → conn.close_after_client_eof ≡ false
      → (x_builtin_handle
          (record { builtin = builtin; client_addr = stream_client_addr_string inet_ntop peer })).0
        ≡ ok res
      → start_stream_builtin calls inet_ntop peer builtin conn ≡ (none, some b)
      → Reached calls (record { built = b; to_client = [] }) a
      → (a.to_client ++ calls.lib.output a.built.conn.client ≡ answer_text res)
        × (a.built.conn.close_after_client_eof ≡ true → a.to_client ≡ answer_text res)
        × (on_write calls a.built ≡ none → a.to_client ≡ answer_text res)
  unfolding start_stream_builtin answered
  start_stream_builtin-Answers inet_ntop peer builtin conn res b a fresh unended handled started
        reached =
      let (same, ended) = Reached-Answers calls buffers (answer_text res) (start_of b) a reached (
        by_action-Answers idle (buffers.times _ _ ∙ fresh) unended res.action res.payload b
          built) in
      (same, λ e. all_sent same (ended e), λ e. all_sent same (write-none calls buffers a.built e))
    where
      idle : Conn B
      idle = set_client_idle_timeout calls (record conn { upstream = none })

      built : by_action calls res.action res.payload idle ≡ some b
      built = ap (λ z. z.1) (sym (ap (λ z. answered calls z conn) handled) ∙ started)

      all_sent :
          a.to_client ++ calls.lib.output a.built.conn.client ≡ answer_text res
          → calls.lib.output a.built.conn.client ≡ []
          → a.to_client ≡ answer_text res
      all_sent same empty =
          sym (append-nil a.to_client) ∙ ap (λ z. a.to_client ++ z) (sym empty) ∙ same
