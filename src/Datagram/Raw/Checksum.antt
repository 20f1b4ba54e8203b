-- ===== src/Datagram/Raw/Checksum.antt =====
-- checksum16 of src/datagram_raw.c, on bytes that hold their own checksum.
use tinyproxy.Base.{
  ℕ, zero, suc, ◌+◌, ◌-◌, ◌*◌, ◌/◌, ◌%◌, ◌^◌, ◌≤◌, ◌<◌, ◌≡◌, refl, sym, ◌∙◌, ◌⊎◌, inl, inr,
  Bool-cases, [], ◌∷◌, ◌++◌, ltb, ltb→lt, Bytes, length, length-append, All, All-append, arith,
}
use tinyproxy.Proxy.{put_u16}
use tinyproxy.Datagram.Raw.{sum_words, fold_carries, checksum16}

-- The sum of the words without a limit.
abbrev pub word_sum : Bytes → ℕ
word_sum (a ∷ b ∷ p) = a * 256 + b + word_sum p
word_sum (a ∷ []) = a * 256
word_sum [] = 0

abbrev pub IsByte : ℕ → Type 0
IsByte b = b < 256

word_sum_bound : (p : Bytes) → All IsByte p → word_sum p ≤ 32768 * length p + 32768
word_sum_bound [] w = omega arith
word_sum_bound (a ∷ []) (ha, _) = omega arith
word_sum_bound (a ∷ b ∷ p) (ha, (hb, w)) = omega (arith, word_sum_bound p w)

sum_words-eq :
    (sum : ℕ) (p : Bytes) → sum + word_sum p < 2 ^ 32 → sum_words sum p ≡ sum + word_sum p
unfolding sum_words
sum_words-eq sum [] h = omega arith
sum_words-eq sum (a ∷ []) h = omega arith
sum_words-eq sum (a ∷ b ∷ p) h =
    let small : (sum + (a * 256 + b)) % 2 ^ 32 ≡ sum + (a * 256 + b) = omega arith in
    rw small (omega (arith, sum_words-eq (sum + (a * 256 + b)) p (omega arith)))

-- A front of whole words.
word_sum-append :
    (n : ℕ) (p q : Bytes) → length p ≡ n + n → word_sum (p ++ q) ≡ word_sum p + word_sum q
word_sum-append zero [] q h = omega arith
word_sum-append zero (a ∷ p) q h = absurd (omega arith)
word_sum-append (suc n) [] q h = absurd (omega arith)
word_sum-append (suc n) (a ∷ []) q h = absurd (omega arith)
word_sum-append (suc n) (a ∷ b ∷ p) q h = omega (arith, word_sum-append n p q (omega arith))

-- What is left of a sum of 32 bits: as much, up to multiples of 65535, and 0 only for 0.
pub record IsFolded (sum s : ℕ) : Type 0 where
  pub carries : ℕ
  pub total : s + 65535 * carries ≡ sum
  pub small : s < 65536
  pub positive : (sum ≡ 0) ⊎ (0 < s)

once-eq : (n sum : ℕ) → sum < 65536 → fold_carries n sum ≡ sum
unfolding fold_carries
once-eq zero sum h = refl
once-eq (suc n) sum h = let none_left : sum / 65536 ≡ 0 = omega arith in rw none_left refl

turn-eq :
    (n sum : ℕ)
    → 65536 ≤ sum
    → fold_carries (suc n) sum ≡ fold_carries n (sum % 65536 + sum / 65536)
unfolding fold_carries
turn-eq n sum h = ground arith

module _ (n sum : ℕ) (bits : sum < 2 ^ 32) where
  -- Two turns are enough for any sum of 32 bits.
  pub fold_carries-enough : fold_carries (suc (suc n)) sum ≡ fold_carries 2 sum
  fold_carries-enough = elim (Bool-cases (ltb sum 65536)) [
    | inl small ↦
        once-eq (suc (suc n)) sum (ltb→lt _ _ small) ∙ sym (once-eq 2 sum (ltb→lt _ _ small))
    | inr large ↦
        let first : ℕ = sum % 65536 + sum / 65536 in
        elim (Bool-cases (ltb first 65536)) [
          | inl small ↦
              turn-eq (suc n) sum (ground arith)
              ∙ once-eq (suc n) first (ltb→lt _ _ small)
              ∙ sym (turn-eq 1 sum (ground arith) ∙ once-eq 1 first (ltb→lt _ _ small))
          | inr again ↦
              let second : ℕ = first % 65536 + first / 65536 in
              turn-eq (suc n) sum (ground arith)
              ∙ turn-eq n first (ground arith)
              ∙ once-eq n second (omega arith)
              ∙ sym (
                  turn-eq 1 sum (ground arith)
                  ∙ turn-eq 0 first (ground arith)
                  ∙ once-eq 0 second (omega arith))
        ]
  ]

  fold_carries-IsFolded : IsFolded sum (fold_carries 2 sum)
  fold_carries-IsFolded = elim (Bool-cases (ltb sum 65536)) [
    | inl small ↦ rw (once-eq 2 sum (ltb→lt _ _ small)) (record {
      carries = 0;
      total = omega arith;
      small = ltb→lt _ _ small;
      positive = zero_or sum;
    })
    | inr large ↦
        let first : ℕ = sum % 65536 + sum / 65536 in
        elim (Bool-cases (ltb first 65536)) [
          | inl small ↦
              rw (turn-eq 1 sum (ground arith), once-eq 1 first (ltb→lt _ _ small))
                (record {
                  carries = sum / 65536;
                  total = omega arith;
                  small = ltb→lt _ _ small;
                  positive = inr (ground arith);
                })
          | inr again ↦
              rw
                (
                  turn-eq 1 sum (ground arith),
                  turn-eq 0 first (ground arith),
                  once-eq 0 (first % 65536 + first / 65536) (omega arith),
                )
                (record {
                  carries = sum / 65536 + first / 65536;
                  total = omega arith;
                  small = omega arith;
                  positive = inr (ground arith);
                })
        ]
  ]
    where
      zero_or : (m : ℕ) → (m ≡ 0) ⊎ (0 < m)
      zero_or zero = inl refl
      zero_or (suc m) = inr (omega arith)

-- With its complement a sum folds to all ones.
fold_carries-complement :
    (sum : ℕ)
    → sum + 65536 < 2 ^ 32
    → fold_carries 2 (sum + (65535 - fold_carries 2 sum % 65536)) ≡ 65535
fold_carries-complement sum room =
    let without = fold_carries-IsFolded 0 sum (omega arith) in
    let with_it =
      fold_carries-IsFolded 0 (sum + (65535 - fold_carries 2 sum % 65536)) (omega arith) in
    omega (
      arith, without.total, without.small, without.positive, with_it.total, with_it.small,
      with_it.positive,
    )

checksum16-eq :
    (p : Bytes) (sum : ℕ) → sum_words 0 p ≡ sum → checksum16 p ≡ 65535 - fold_carries 2 sum % 65536
unfolding checksum16
checksum16-eq p sum h = rw h refl

-- The bytes before and behind the place of a checksum, of which those before are whole words.
module _ (n : ℕ) (before behind : Bytes) (words : length before ≡ n + n) where
  with_word :
      (c : ℕ)
      → c < 65536
      → word_sum (before ++ (put_u16 c ++ behind)) ≡ word_sum (before ++ (put_u16 0 ++ behind)) + c
  unfolding put_u16
  with_word c small =
      rw
        (
          word_sum-append n before (c / 256 % 256 ∷ c % 256 ∷ behind) words,
          word_sum-append n before (0 ∷ 0 ∷ behind) words,
        )
        (omega arith)

  total_bound :
      length before + length behind ≤ 65533
      → All IsByte before
      → All IsByte behind
      → word_sum (before ++ (put_u16 0 ++ behind)) + 65536 < 2 ^ 32
  unfolding put_u16
  total_bound short wb wa =
      let all : All IsByte (before ++ (0 ∷ 0 ∷ behind)) =
        All-append IsByte before (0 ∷ 0 ∷ behind) wb (omega arith, (omega arith, wa)) in
      omega (
        arith,
        word_sum_bound (before ++ (0 ∷ 0 ∷ behind)) all,
        length-append before (0 ∷ 0 ∷ behind),
      )

  -- The checksum of up to 65535 bytes has 16 bits, and bytes that have it, in network order, where
  -- two zero bytes were when it was computed, have the checksum 0, as their reader expects. Further
  -- turns of the loop would change nothing.
  pub checksum16-verifies :
      (turns : ℕ)
      → length before + length behind ≤ 65533
      → All IsByte before
      → All IsByte behind
      → (checksum16 (before ++ (put_u16 0 ++ behind)) < 65536)
        × (checksum16 (before ++ (put_u16 (checksum16 (before ++ (put_u16 0 ++ behind))) ++ behind))
            ≡ 0)
        × (fold_carries (suc (suc turns)) (sum_words 0 (before ++ (put_u16 0 ++ behind)))
            ≡ fold_carries 2 (sum_words 0 (before ++ (put_u16 0 ++ behind))))
  checksum16-verifies turns short wb wa = rw c-eq (
    omega arith,
    checksum16-eq _ _ sum1 ∙ rw (fold_carries-complement (word_sum blank) bound) refl,
    fold_carries-enough turns (sum_words 0 blank) (omega (arith, bound, sum0)),
  )
    where
      blank : Bytes
      blank = before ++ (put_u16 0 ++ behind)

      bound : word_sum blank + 65536 < 2 ^ 32
      bound = total_bound short wb wa

      sum0 : sum_words 0 blank ≡ word_sum blank
      sum0 = sum_words-eq 0 blank (omega (arith, bound)) ∙ omega arith

      c : ℕ
      c = 65535 - fold_carries 2 (word_sum blank) % 65536

      c-eq : checksum16 blank ≡ c
      c-eq = checksum16-eq blank (word_sum blank) sum0

      sum1 : sum_words 0 (before ++ (put_u16 c ++ behind)) ≡ word_sum blank + c
      sum1 =
          sum_words-eq 0 (before ++ (put_u16 c ++ behind))
            (rw (with_word c (omega arith)) (omega (arith, bound)))
          ∙ rw (with_word c (omega arith)) (omega arith)
