-- ===== src/Bind/Wait.antt =====
-- The rounds of bind_with_wait of src/bind.c.
use tinyproxy.Base.{
  ℕ, zero, suc, ◌+◌, ◌*◌, ◌^◌, ◌≤◌, ◌<◌, ◌≡◌, ◌==◌, refl, ◌⊎◌, inl, inr, true, false, ◌||◌,
  Bool-cases, Option, none, some, leb, arith, Errno,
}
use tinyproxy.Bind.{
  BindResult, bound, failed, Waited, is_in_use, or_eio, after_bind, bind_from, bind_with_wait,
  bind_wait_interval_ms,
}

-- The address was in use in the first `n` turns.
abbrev pub InUse : (ℕ → BindResult) → ℕ → Type 0
InUse bind zero = Unit {0}
InUse bind (suc n) =
    ((e : Option Errno) × (bind n ≡ failed e) × (is_in_use e ≡ true)) × InUse bind n

-- The code for the result of the last turn.
abbrev pub code_of : BindResult → Option Errno
code_of bound = none
code_of (failed e) = some (or_eio e)

-- The loop ends in turn `k`: the first in which the address is not in use, or the last.
abbrev pub Ends : (ℕ → BindResult) → ℕ → Waited → Type 0
Ends bind bind_wait_sec w =
    (k : ℕ) × (k ≤ 10 * bind_wait_sec)
    × InUse bind k
    × (w ≡ record { rc = code_of (bind k); calls = k + 1; waited_ms = 100 * k })
    × ((k ≡ 10 * bind_wait_sec)
        ⊎ ((bind k ≡ bound) ⊎ ((e : Option Errno) × (bind k ≡ failed e) × (is_in_use e ≡ false))))

bind_from-Ends :
    (fuel : ℕ) (bind : ℕ → BindResult) (sec k : ℕ)
    → fuel + k ≡ 10 * sec + 1
    → 0 < fuel
    → InUse bind k
    → (w : Waited) × (bind_from fuel bind (1000 * sec) k (100 * k) ≡ some w) × Ends bind sec w
unfolding bind_from
bind_from-Ends zero bind sec k h pos busy = absurd (omega arith)
bind_from-Ends (suc fuel) bind sec k h pos busy = turn (bind k) refl (λ e now again left.
    bind_from-Ends fuel bind sec (suc k) (omega arith) left ((e, now, again), busy))
  where
    turn :
        (b : BindResult)
        → bind k ≡ b
        → ((e : Option Errno)
            → bind k ≡ failed e
            → is_in_use e ≡ true
            → 0 < fuel
            → (w : Waited) × (bind_from fuel bind (1000 * sec) (suc k) (100 * suc k) ≡ some w)
              × Ends bind sec w)
        → (w : Waited) × (after_bind
              (1000 * sec)
              k
              (100 * k)
              (bind_from fuel bind (1000 * sec) (k + 1) (100 * k + bind_wait_interval_ms))
              b
            ≡ some w)
          × Ends bind sec w
    turn bound now later = (
      record { rc = none; calls = k + 1; waited_ms = 100 * k },
      refl,
      (k, omega arith, busy, rw now refl, inr (inl now)),
    )
    turn (failed e) now later = elim (Bool-cases (is_in_use e)) [
      | inr other ↦ rw other (
        record { rc = some (or_eio e); calls = k + 1; waited_ms = 100 * k },
        refl,
        (k, omega arith, busy, rw now refl, inr (inr (e, now, other))),
      )
      | inl again ↦ elim (Bool-cases (1000 * sec == 0 || leb (1000 * sec) (100 * k))) [
        | inl over ↦
            rw (again, over)
              (
                record { rc = some (or_eio e); calls = k + 1; waited_ms = 100 * k },
                refl,
                (k, omega arith, busy, rw now refl, inl (ground arith)),
              )
        | inr more ↦
            let next : k + 1 ≡ suc k = omega arith in
            let slept : 100 * k + bind_wait_interval_ms ≡ 100 * suc k = omega arith in
            rw (again, more, next, slept) (later e now again (ground arith))
      ]
    ]

-- The loop of bind_with_wait ends, with at most ten calls for each second of `bind_wait` and one
-- more: in the first turn in which bind succeeds or fails for another reason than an address in use,
-- with 0 or with that error, or with the error of the last turn, when all the time is over. Before
-- that the address was in use in every turn, and it slept 100 ms after each. The time in ms fits in
-- an int.
pub bind_with_wait-Ends :
    (bind : ℕ → BindResult) (bind_wait_sec : ℕ)
    → 1000 * bind_wait_sec < 2 ^ 31
    → (w : Waited) × (bind_with_wait bind bind_wait_sec ≡ some w) × Ends bind bind_wait_sec w
unfolding bind_with_wait
bind_with_wait-Ends bind bind_wait_sec fits =
    bind_from-Ends (10 * bind_wait_sec + 1) bind bind_wait_sec 0 (omega arith) (omega arith) tt
