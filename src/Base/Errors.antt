-- ===== src/Base/Errors.antt =====
-- Error codes as values, and the result of a call that may fail.
use Prim.Native.Nat.{ℕ}
use mathlib.Core.Path.{◌≡◌, refl}

-- The codes of <errno.h> that the modelled functions use by name; `other_errno` is any other, by number.
pub data Errno : Type 0 where
  einval erange e2big eaddrinuse enomem eoverflow enospc eafnosupport eprotonosupport : Errno
  enotsup enametoolong eio ecanceled emsgsize econnreset epipe etimedout eagain : Errno
  eintr eexist enoent : Errno
  other_errno : ℕ → Errno

-- A negative return code, or the value that a call stores behind a pointer.
pub data Result {ℓ} (V : Type ℓ) : Type ℓ where
  err : Errno → Result V
  ok : V → Result V

abbrev pub ◌>>=◌ {ℓ₁ ℓ₂} : {V : Type ℓ₁} {W : Type ℓ₂} → Result V → (V → Result W) → Result W
err code >>= next = err code
ok v >>= next = next v

infixl 5 ◌>>=◌
-- A sequence that succeeds has succeeded in both of its calls.
pub >>=-eq-ok {ℓ₁ ℓ₂} :
    {V : Type ℓ₁} {W : Type ℓ₂} (first : Result V) (next : V → Result W) {w : W}
    → (first >>= next) ≡ ok w
    → (v : V) × (first ≡ ok v) × (next v ≡ ok w)
>>=-eq-ok (err code) next done = cc
>>=-eq-ok (ok v) next done = (v, refl, done)
