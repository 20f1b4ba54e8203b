-- ===== src/Proxy/Tests.antt =====
-- Runs of proxy_v2_build, and its theorems at concrete inputs.
use tinyproxy.Base.{◌≡◌, refl, some, ◌∷◌, [], ◌++◌, Bytes, codes, ok}
use tinyproxy.Proxy.{Sockaddr, sockaddr_in, sock_stream, proxy_v2_build, put_u16}
use tinyproxy.Proxy.Decoder.{read_proxy_v2, proxy_v2_build-read}
use tinyproxy.Proxy.Sizes.{Returns, proxy_v2_build-Returns}

abbrev client : Sockaddr
client = sockaddr_in (10 ∷ 0 ∷ 0 ∷ 1 ∷ []) (200 ∷ 1 ∷ [])

abbrev local : Sockaddr
local = sockaddr_in (10 ∷ 0 ∷ 0 ∷ 2 ∷ []) (0 ∷ 80 ∷ [])

abbrev header : Bytes
header =
    codes "\r\n\r\n"
    ++ (0
        ∷ (codes "\r\nQUIT\n"
            ++ (0x21 ∷ 0x11 ∷ 0 ∷ 12 ∷ 10 ∷ 0 ∷ 0 ∷ 1 ∷ 10 ∷ 0 ∷ 0 ∷ 2 ∷ 200 ∷ 1 ∷ 0 ∷ 80 ∷ [])))

built_ok : proxy_v2_build 28 client 16 local 16 sock_stream ≡ ok header
unfolding proxy_v2_build put_u16
built_ok = refl

proxy_v2_build-read_example :
    read_proxy_v2 (header ++ codes "GET")
    ≡ some (record { src = client; dst = local; sock_type = sock_stream }, codes "GET")
proxy_v2_build-read_example =
    proxy_v2_build-read 28 client 16 local 16 sock_stream header (codes "GET")
      (refl, refl, refl, refl) built_ok

proxy_v2_build-Returns_example :
    Returns 20 client 16 local 16 sock_stream (proxy_v2_build 20 client 16 local 16 sock_stream)
proxy_v2_build-Returns_example =
    proxy_v2_build-Returns 20 client 16 local 16 sock_stream (refl, refl, refl, refl)
