-- ===== src/Pipe/Adopt/Header.antt =====
-- The bytes that worker_adopt_client_fd of src/stream_conn.c writes for an upstream.
use tinyproxy.Base.{
  ◌≤◌, ◌≡◌, ◌≢◌, refl, sym, ap, ◌∙◌, ◌⊎◌, inl, inr, Bool, true, false, not, Bool-cases, ◌==◌,
  ==_iff, [], ◌++◌, append-nil, Option, none, some, if◌then◌else◌, Bytes, length, arith, Errno,
  Result, ok, err,
}
use tinyproxy.Endpoint.{
  EndpointKind, inet, inet6, unix_kind, unix_dgram_kind, file_kind, builtin_kind,
}
use tinyproxy.Route.{Route}
use tinyproxy.Proxy.{sock_stream, proxy_v2_build}
use tinyproxy.Proxy.Decoder.{read_proxy_v2, proxy_v2_build-read}
use tinyproxy.Proxy.Sizes.{Returns, proxy_v2_build-Returns}
use tinyproxy.Datagram.{ss_family, af_inet}
use tinyproxy.Datagram.Packet.Announce.{ipv4_of}
use tinyproxy.Pipe.Adopt.{
  AdoptCalls, Adopted, client_closed, with_builtin, with_file, piped, connect_upstream, write_hdr,
  queue_header, connecting, adopt_kind, worker_adopt_client_fd,
}

-- Why a route that announces its clients may close one.
abbrev pub CannotAnnounce : AdoptCalls → Bytes → Type 0
CannotAnnounce calls peer_addr =
    (calls.getsockname ≡ none)
    ⊎ ((length peer_addr ≡ 0)
        ⊎ ((ss_family peer_addr ≢ af_inet)
            ⊎ (((local_addr : Bytes) × (calls.getsockname ≡ some local_addr)
                  × (ss_family local_addr ≢ af_inet))
                ⊎ (calls.write ≡ false))))

-- The bytes that are in front of all others for the upstream, or the reason to close the client.
abbrev pub Takes : AdoptCalls → Route → Bytes → Adopted → Type 0
Takes calls r peer_addr client_closed =
    ((calls.calloc ≡ false) ⊎ ((calls.client_bev ≡ false) ⊎ (calls.upstream_bev ≡ false)))
    ⊎ (((e : Errno) × (connect_upstream calls r.upstream_ep ≡ some e))
        ⊎ ((r.opts.proxy_v2 ≡ true) × CannotAnnounce calls peer_addr))
Takes calls r peer_addr with_builtin = r.upstream_ep.kind ≡ builtin_kind
Takes calls r peer_addr with_file = r.upstream_ep.kind ≡ file_kind
Takes calls r peer_addr (piped bytes) =
    (connect_upstream calls r.upstream_ep ≡ none)
    × (((r.opts.proxy_v2 ≡ false) × (bytes ≡ []))
        ⊎ ((r.opts.proxy_v2 ≡ true)
            × ((local_addr : Bytes) × (calls.getsockname ≡ some local_addr)
                × (read_proxy_v2 bytes
                    ≡ some (
                      record {
                        src = ipv4_of peer_addr;
                        dst = ipv4_of local_addr;
                        sock_type = sock_stream;
                      },
                      [],
                    )))))

module _ (calls : AdoptCalls) (r : Route) (peer_addr : Bytes)
    (local_size : (local_addr : Bytes)
      → calls.getsockname ≡ some local_addr
      → ss_family local_addr ≡ af_inet
      → 16 ≤ length local_addr)
    (peer_size : ss_family peer_addr ≡ af_inet → 16 ≤ length peer_addr) where
  header-Takes :
      (local_addr : Bytes) (h : Result Bytes)
      → connect_upstream calls r.upstream_ep ≡ none
      → r.opts.proxy_v2 ≡ true
      → calls.getsockname ≡ some local_addr
      → 16 ≤ length local_addr
      → 16 ≤ length peer_addr
      → proxy_v2_build 256
          (ipv4_of peer_addr)
          (length peer_addr)
          (ipv4_of local_addr)
          (length local_addr)
          sock_stream
        ≡ h
      → Returns 256
          (ipv4_of peer_addr)
          (length peer_addr)
          (ipv4_of local_addr)
          (length local_addr)
          sock_stream
          h
      → Takes calls r peer_addr (write_hdr calls h)
  header-Takes local_addr (err e) up on named l p h (inl (_, inl k)) = cc
  header-Takes local_addr (err e) up on named l p h (inl (_, inr k)) = absurd k
  header-Takes local_addr (err e) up on named l p h (inr (inl (_, k))) = absurd k
  header-Takes local_addr (err e) up on named l p h (inr (inr (inl (_, inl k)))) =
      absurd (omega arith)
  header-Takes local_addr (err e) up on named l p h (inr (inr (inl (_, inr k)))) =
      absurd (omega arith)
  header-Takes local_addr (err e) up on named l p h (inr (inr (inr (_, k)))) = absurd (omega arith)
  header-Takes local_addr (ok hdr) up on named l p h _ = by_write calls.write refl
    where
      reads :
          read_proxy_v2 (hdr ++ [])
          ≡ some (
            record { src = ipv4_of peer_addr; dst = ipv4_of local_addr; sock_type = sock_stream },
            [],
          )
      reads =
          proxy_v2_build-read 256 (ipv4_of peer_addr) (length peer_addr) (ipv4_of local_addr)
            (length local_addr) sock_stream hdr [] (refl, refl, refl, refl) h

      by_write :
          (w : Bool)
          → calls.write ≡ w
          → Takes calls r peer_addr (if w then piped hdr else client_closed)
      by_write false failed = inr (inr (on, inr (inr (inr (inr failed)))))
      by_write true written =
          (up, inr (on, (local_addr, named, ap read_proxy_v2 (sym (append-nil hdr)) ∙ reads)))

  queue-Takes :
      (named : Option Bytes)
      → connect_upstream calls r.upstream_ep ≡ none
      → r.opts.proxy_v2 ≡ true
      → calls.getsockname ≡ named
      → Takes calls r peer_addr (queue_header calls peer_addr named)
  queue-Takes none up on e = inr (inr (on, inl e))
  queue-Takes (some local_addr) up on e = elim (Bool-cases (length peer_addr == 0)) [
    | inl empty ↦ rw empty (inr (inr (on, inr (inl ((==_iff _ _).0 empty)))))
    | inr sized ↦ elim (Bool-cases (ss_family peer_addr == af_inet)) [
      | inr other ↦ rw (sized, other) (inr (inr (on, inr (inr (inl (λ k. absurd (ground arith)))))))
      | inl peer_ipv4 ↦ elim (Bool-cases (ss_family local_addr == af_inet)) [
        | inr other ↦
            rw (sized, peer_ipv4, other)
              (inr (inr (on, inr (inr (inr (inl (local_addr, e, λ k. absurd (ground arith))))))))
        | inl local_ipv4 ↦
            rw (sized, peer_ipv4, local_ipv4)
              (header-Takes local_addr _ up on e
                (local_size local_addr e ((==_iff _ _).0 local_ipv4))
                (peer_size ((==_iff _ _).0 peer_ipv4)) refl
                (proxy_v2_build-Returns 256 (ipv4_of peer_addr) (length peer_addr)
                  (ipv4_of local_addr) (length local_addr) sock_stream (refl, refl, refl, refl)))
      ]
    ]
  ]

  remote-Takes : Takes calls r peer_addr (
      if not calls.upstream_bev
      then client_closed
      else connecting calls r.opts peer_addr (connect_upstream calls r.upstream_ep))
  remote-Takes = by_bev calls.upstream_bev refl
    where
      by_option :
          (on : Bool)
          → r.opts.proxy_v2 ≡ on
          → connect_upstream calls r.upstream_ep ≡ none
          → Takes calls r peer_addr
              (if on then queue_header calls peer_addr calls.getsockname else piped [])
      by_option false off up = (up, inl (off, refl))
      by_option true on up = queue-Takes calls.getsockname up on refl

      by_rc :
          (rc : Option Errno)
          → connect_upstream calls r.upstream_ep ≡ rc
          → Takes calls r peer_addr (connecting calls r.opts peer_addr rc)
      by_rc (some e) failed = inr (inl (e, failed))
      by_rc none up = by_option r.opts.proxy_v2 refl up

      by_bev :
          (bev : Bool)
          → calls.upstream_bev ≡ bev
          → Takes calls r peer_addr (
              if not bev
              then client_closed
              else connecting calls r.opts peer_addr (connect_upstream calls r.upstream_ep))
      by_bev false failed = inl (inr (inr failed))
      by_bev true made = by_rc (connect_upstream calls r.upstream_ep) refl

  -- A client that a worker takes over is a pipe to the upstream, or is handed to the code of its
  -- builtin or file, or its socket is closed, because a call failed, the upstream cannot be connected, or the
  -- route announces its clients and cannot announce this one. Before any byte of the client, an
  -- upstream gets a header that a reader of PROXY headers reads as the addresses of the client and of the
  -- listener, and nothing behind it, if the route announces its clients, and no byte otherwise. An
  -- address of IPv4 has at least 16 bytes.
  pub worker_adopt_client_fd-Takes :
      Takes calls r peer_addr (worker_adopt_client_fd calls r peer_addr)
  unfolding worker_adopt_client_fd
  worker_adopt_client_fd-Takes = by_calloc calls.calloc refl
    where
      by_kind :
          (k : EndpointKind)
          → r.upstream_ep.kind ≡ k
          → Takes calls r peer_addr (adopt_kind calls r peer_addr k)
      by_kind inet e = remote-Takes
      by_kind inet6 e = remote-Takes
      by_kind unix_kind e = remote-Takes
      by_kind unix_dgram_kind e = remote-Takes
      by_kind file_kind e = e
      by_kind builtin_kind e = e

      by_bev :
          (bev : Bool)
          → calls.client_bev ≡ bev
          → Takes calls r peer_addr
              (if not bev then client_closed else adopt_kind calls r peer_addr r.upstream_ep.kind)
      by_bev false failed = inl (inr (inl failed))
      by_bev true made = by_kind r.upstream_ep.kind refl

      by_calloc :
          (memory : Bool)
          → calls.calloc ≡ memory
          → Takes calls r peer_addr (
              if not memory
              then client_closed
              else if not calls.client_bev
              then client_closed
              else adopt_kind calls r peer_addr r.upstream_ep.kind)
      by_calloc false failed = inl (inl failed)
      by_calloc true given = by_bev calls.client_bev refl
