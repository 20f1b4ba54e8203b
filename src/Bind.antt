-- ===== src/Bind.antt =====
-- src/bind.c: bind, again and again while the address is in use.
pub mod Wait
pub mod Tests
use tinyproxy.Base.{
  ℕ, zero, suc, ◌+◌, ◌*◌, ◌==◌, Bool, true, false, not, ◌||◌, Option, none, some, leb,
  if◌then◌else◌, Errno, eaddrinuse, eio,
}

-- What bind does: it returns 0, or fails with an error number, which is `none` for 0.
pub data BindResult : Type 0 where
  bound : BindResult
  failed : Option Errno → BindResult

-- BIND_WAIT_INTERVAL_MS
abbrev pub bind_wait_interval_ms : ℕ
bind_wait_interval_ms = 100

-- A return code, `none` for 0, the number of calls of bind, and the time slept.
pub record Waited : Type 0 where
  pub rc : Option Errno
  pub calls : ℕ
  pub waited_ms : ℕ

abbrev pub is_in_use : Option Errno → Bool
is_in_use (some eaddrinuse) = true
is_in_use _ = false

abbrev pub or_eio : Option Errno → Errno
or_eio none = eio
or_eio (some e) = e

abbrev pub after_bind : ℕ → ℕ → ℕ → Option Waited → BindResult → Option Waited
after_bind wait_ms i waited_ms later bound =
    some (record { rc = none; calls = i + 1; waited_ms = waited_ms })
after_bind wait_ms i waited_ms later (failed e) =
    if not (is_in_use e) || wait_ms == 0 || leb wait_ms waited_ms
    then some (record { rc = some (or_eio e); calls = i + 1; waited_ms = waited_ms })
    else later

-- The loop from its turn `i` on, at most as many turns as the first argument says; `bind i` is what
-- bind does in turn `i`.
unfoldable pub bind_from : ℕ → (ℕ → BindResult) → ℕ → ℕ → ℕ → Option Waited
bind_from zero bind wait_ms i waited_ms = none
bind_from (suc fuel) bind wait_ms i waited_ms =
    after_bind wait_ms i waited_ms
      (bind_from fuel bind wait_ms (i + 1) (waited_ms + bind_wait_interval_ms)) (bind i)

-- For the option `bind_wait` in seconds; the fuel is enough for it.
unfoldable pub bind_with_wait : (ℕ → BindResult) → ℕ → Option Waited
unfolding bind_from
bind_with_wait bind bind_wait_sec =
    bind_from (10 * bind_wait_sec + 1) bind (1000 * bind_wait_sec) 0 0
