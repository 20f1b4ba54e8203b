-- ===== src/Pool/Turns.antt =====
-- The order in which worker_pool_next of src/worker_pool.c gives the workers their turns.
use native.Mathlib.Nat.{add-zero, mod-lt, mod-eq_of_lt, mod-add-mod, add-mod_right}
use tinyproxy.Base.{
  ℕ, zero, suc, ◌+◌, ◌-◌, ◌%◌, ◌^◌, ◌≤◌, ◌<◌, ◌≡◌, ap, sym, ◌∙◌, false, ◌⊎◌, inl, inr, some, ◌==◌,
  arith, Bool-cases, ltb, ltb→lt, length,
}
use tinyproxy.Pool.{WorkerPool, worker_pool_next}

-- The pool after `k` calls.
abbrev pub after_calls : ℕ → WorkerPool → WorkerPool
after_calls zero pool = pool
after_calls (suc k) pool = after_calls k (worker_pool_next pool).1

after_calls-next :
    (k : ℕ) (pool : WorkerPool)
    → 0 < length pool.workers
    → pool.next + k < 2 ^ 64
    → (after_calls k pool ≡ record pool { next = pool.next + k })
unfolding worker_pool_next
after_calls-next zero pool some_worker small =
    ap (λ n. record pool { next = n }) (sym (add-zero pool.next))
after_calls-next (suc k) pool some_worker small =
    let nonempty : (length pool.workers == 0) ≡ false = ground arith in
    let once : (worker_pool_next pool).1 ≡ record pool { next = pool.next + 1 } =
      rw nonempty (ap (λ n. record pool { next = n }) (mod-eq_of_lt (omega arith))) in
    let counted : pool.next + 1 + k ≡ pool.next + suc k = omega arith in
    ap (after_calls k) once
    ∙ after_calls-next k (record pool { next = pool.next + 1 }) some_worker (omega arith)
    ∙ ap (λ n. record pool { next = n }) counted

-- The index of a turn, from the index of the first.
turn_index :
    (n j count : ℕ)
    → 0 < count
    → j < count
    → (n % count < count)
      × (((n % count + j < count) × ((n + j) % count ≡ n % count + j))
          ⊎ ((count ≤ n % count + j) × ((n + j) % count ≡ n % count + j - count)))
turn_index n j count pos small =
    let first : n % count < count = mod-lt n pos in
    (
      first,
      elim (Bool-cases (ltb (n % count + j) count)) [
        | inl low ↦
            let lt : n % count + j < count = ltb→lt _ _ low in
            inl (lt, sym (mod-add-mod n count j) ∙ mod-eq_of_lt lt)
        | inr high ↦
            let le : count ≤ n % count + j = ground arith in
            let split : n % count + j ≡ n % count + j - count + count = omega arith in
            inr (
              le,
              sym (mod-add-mod n count j)
                  ∙ ap (λ z. z % count) split
                  ∙ add-mod_right (n % count + j - count) count
                  ∙ mod-eq_of_lt (omega arith),
            )
      ],
    )

next-index :
    (pool : WorkerPool) (k : ℕ)
    → 0 < length pool.workers
    → pool.next + k < 2 ^ 64
    → (worker_pool_next (after_calls k pool)).0 ≡ some ((pool.next + k) % length pool.workers)
unfolding worker_pool_next
next-index pool k pos small =
    let nonempty : (length pool.workers == 0) ≡ false = ground arith in
    rw (after_calls-next k pool pos small, nonempty)

same_turn :
    (n j k count i : ℕ)
    → 0 < count
    → j < count
    → k < count
    → (n + j) % count ≡ i
    → (n + k) % count ≡ i
    → j ≡ k
same_turn n j k count i pos hj hk ej ek =
    let (first, at_j) = turn_index n j count pos hj in
    let (_, at_k) = turn_index n k count pos hk in
    elim at_j [
      | inl (a, b) ↦ elim at_k [ inl (c, d) ↦ omega arith | inr (c, d) ↦ absurd (omega arith) ]
      | inr (a, b) ↦ elim at_k [ inl (c, d) ↦ absurd (omega arith) | inr (c, d) ↦ omega arith ]
    ]

turn_of : (n count i : ℕ) → 0 < count → i < count → (k : ℕ) × (k < count) × ((n + k) % count ≡ i)
turn_of n count i pos small =
    let first : n % count < count = mod-lt n pos in
    elim (Bool-cases (ltb i (n % count))) [
      | inl low ↦
          let lt : i < n % count = ltb→lt _ _ low in
          let k_small : i + count - n % count < count = omega arith in
          let (_, at) = turn_index n (i + count - n % count) count pos k_small in
          (
            i + count - n % count,
            k_small,
            elim at [ inl (a, b) ↦ absurd (omega arith) | inr (a, b) ↦ omega arith ],
          )
      | inr high ↦
          let le : n % count ≤ i = ground arith in
          let k_small : i - n % count < count = omega arith in
          let (_, at) = turn_index n (i - n % count) count pos k_small in
          (
            i - n % count,
            k_small,
            elim at [ inl (a, b) ↦ omega arith | inr (a, b) ↦ absurd (omega arith) ],
          )
    ]

-- As long as the counter does not wrap at 2^64, each worker is given exactly one of any `count`
-- turns that follow each other.
pub worker_pool_next-once :
    (pool : WorkerPool) (i : ℕ)
    → i < length pool.workers
    → pool.next + length pool.workers ≤ 2 ^ 64
    → (k : ℕ) × (k < length pool.workers)
      × ((worker_pool_next (after_calls k pool)).0 ≡ some i)
      × ((j : ℕ)
          → j < length pool.workers
          → (worker_pool_next (after_calls j pool)).0 ≡ some i
          → j ≡ k)
worker_pool_next-once pool i small no_wrap =
    let pos : 0 < length pool.workers = omega arith in
    let (k, hk, ek) = turn_of pool.next (length pool.workers) i pos small in
    (
      k,
      hk,
      next-index pool k pos (omega arith) ∙ ap some ek,
      λ j hj e.
          let ej : (pool.next + j) % length pool.workers ≡ i =
            index_eq (sym (next-index pool j pos (omega arith)) ∙ e) in
          same_turn pool.next j k (length pool.workers) i pos hj hk ej ek,
    )
  where
    index_eq : {m n : ℕ} → some m ≡ some n → m ≡ n
    index_eq e = cc
