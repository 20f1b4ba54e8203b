-- ===== src/Bind/Tests.antt =====
-- The loop of bind_with_wait at a concrete input.
use tinyproxy.Base.{ℕ, ◌≡◌, refl, none, some, ltb, if◌then◌else◌, arith, eaddrinuse}
use tinyproxy.Bind.{BindResult, bound, failed, Waited, bind_with_wait}
use tinyproxy.Bind.Wait.{Ends, bind_with_wait-Ends}

-- The address becomes free in the fourth turn.
abbrev busy_thrice : ℕ → BindResult
busy_thrice i = if ltb i 3 then failed (some eaddrinuse) else bound

fourth_turn : bind_with_wait busy_thrice 1 ≡ some (record { rc = none; calls = 4; waited_ms = 300 })
unfolding bind_with_wait
fourth_turn = refl

bind_with_wait-Ends_example :
    (w : Waited) × (bind_with_wait busy_thrice 1 ≡ some w) × Ends busy_thrice 1 w
bind_with_wait-Ends_example = bind_with_wait-Ends busy_thrice 1 (omega arith)
