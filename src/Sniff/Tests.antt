-- ===== src/Sniff/Tests.antt =====
-- Runs of the sniffer, and the theorems at concrete inputs.
use tinyproxy.Base.{
  ℕ, ◌≡◌, ◌⊎◌, refl, true, false, [], ◌∷◌, ◌++◌, some, Option, arith, Bytes, codes, take,
}
use tinyproxy.Sniff.Reader.{
  parsed, starved, Answer, answer, byte_at, read_u16_be, read_u24_be, slice_at, ◌>>=◌, ◌>>◌,
  stop_if,
}
use tinyproxy.Sniff.Hello.{parse_sni_from_client_hello, all_host_chars}
use tinyproxy.Sniff.Hello.Safety.{IsSound, parse_returns, parse_stable}
use tinyproxy.Sniff.Peek.{StreamSniff, zeroed, stream_sniff_peek_client_input}
use tinyproxy.Sniff.Peek.State.{IsState, peek-IsState}
use tinyproxy.Sniff.Peek.Log.{log_sni_injective}

abbrev zeros : ℕ → Bytes
zeros = elim [ ℕ.zero ↦ [] | ℕ.suc (n → ih) ↦ 0 ∷ ih ]

-- A ClientHello with one cipher suite and the server name "a.b".
abbrev body : Bytes
body =
    3
    ∷ 3
    ∷ (zeros 32
        ++ (0
            ∷ 0
            ∷ 2
            ∷ 0x13
            ∷ 1
            ∷ 1
            ∷ 0
            ∷ 0
            ∷ 12
            ∷ 0
            ∷ 0
            ∷ 0
            ∷ 8
            ∷ 0
            ∷ 6
            ∷ 0
            ∷ 0
            ∷ 3
            ∷ codes "a.b"))

abbrev hello : Bytes
hello = 0x16 ∷ 3 ∷ 1 ∷ 0 ∷ 59 ∷ 1 ∷ 0 ∷ 0 ∷ 55 ∷ body

abbrev found : Answer
found = record { status = parsed; wants_more = false; out = some (codes "a.b") }

hello_parsed : parse_sni_from_client_hello hello 254 ≡ answer found
unfolding parse_sni_from_client_hello byte_at read_u16_be read_u24_be slice_at ◌>>=◌ ◌>>◌ stop_if
hello_parsed = refl

parse_returns_example :
    (w : Answer) × (parse_sni_from_client_hello hello 254 ≡ answer w)
    × ((w ≡ starved) ⊎ IsSound hello 254 w)
parse_returns_example = parse_returns hello 254

parse_stable_example : parse_sni_from_client_hello (hello ++ codes "more") 254 ≡ answer found
parse_stable_example = parse_stable hello (codes "more") 254 found hello_parsed (λ e. cc)

abbrev copyout : Bytes → ℕ → Option Bytes
copyout input n = some (take n input)

abbrev zeroed-IsState : IsState zeroed
zeroed-IsState = record { over = refl; name = refl }

peek-IsState_example : IsState (stream_sniff_peek_client_input copyout zeroed hello)
peek-IsState_example = peek-IsState copyout zeroed hello zeroed-IsState

abbrev named : StreamSniff
named = record { sni = codes "a.b"; status = parsed; observed = 64; done = true }

abbrev named-IsState : IsState named
unfolding all_host_chars
named-IsState = record { over = refl; name = (refl, omega arith, omega arith) }

log_sni_injective_example : (named.status ≡ named.status) × (named.sni ≡ named.sni)
log_sni_injective_example = log_sni_injective named named named-IsState named-IsState refl
