-- ===== src/Sniff/Reader/Agree.antt =====
-- For the parser of src/stream_sniff.c: a relation between two runs of a part of it, the second on
-- more bytes. Related runs both go on with one value, or both return one answer, and neither reads
-- out of bounds nor runs out of rounds; where the first asks for more bytes, any second is related.
use tinyproxy.Base.{
  ℕ, ◌+◌, ◌≤◌, ◌<◌, ◌≡◌, ◌⊎◌, inl, inr, refl, Bool, true, false, ◌++◌, arith, if◌then◌else◌, Bytes,
  length, get_elem?-some, get_elem?-append, take, drop, slice-append, length-slice, ==_iff,
}
use tinyproxy.Sniff.Reader.{
  Answer, starved, Parse, value, answer, ◌>>=◌, ◌>>◌, stop_if, byte_at, read_u16_be, read_u24_be,
  slice_at,
}

pub data Agree {A : Type 0} (Q : Answer → Type 0) (P : A → Type 0)
    : Parse A → Parse A → Type 0 where
  goes_on : (a : A) → P a → Agree Q P (value a) (value a)
  returns : (w : Answer) → Q w → Agree Q P (answer w) (answer w)
  waits : (n : Parse A) → Agree Q P (answer starved) n

module _ {A B : Type 0} {Q : Answer → Type 0} {P : A → Type 0} {R : B → Type 0} where
  pub Agree->>= :
      {m n : Parse A} (f g : A → Parse B)
      → Agree Q P m n
      → ((a : A) → P a → Agree Q R (f a) (g a))
      → Agree Q R (m >>= f) (n >>= g)
  unfolding ◌>>=◌
  Agree->>= f g (goes_on a p) k = k a p
  Agree->>= f g (returns w q) k = returns w q
  Agree->>= f g (waits n) k = waits (n >>= g)

pub Agree-stop_if :
    {B : Type 0} {Q : Answer → Type 0} {R : B → Type 0} (b : Bool) (w : Answer) (m n : Parse B)
    → Q w
    → (b ≡ false → Agree Q R m n)
    → Agree Q R (stop_if b w >> m) (stop_if b w >> n)
unfolding ◌>>◌ stop_if
Agree-stop_if true w m n q k = returns w q
Agree-stop_if false w m n q k = k refl

-- `if (test) { *need_more = true; … }`, where the test may pass on the shorter input only.
pub Agree-starved :
    {B : Type 0} {Q : Answer → Type 0} {R : B → Type 0} (b c : Bool) (m n : Parse B)
    → (b ≡ false → c ≡ false)
    → (b ≡ false → Agree Q R m n)
    → Agree Q R (stop_if b starved >> m) (stop_if c starved >> n)
unfolding ◌>>◌ stop_if
Agree-starved true c m n h k = waits _
Agree-starved false true m n h k = cc (h refl)
Agree-starved false false m n h k = k refl

pub Agree-if :
    {A : Type 0} {Q : Answer → Type 0} {P : A → Type 0} (b : Bool) (m m' n n' : Parse A)
    → (b ≡ true → Agree Q P m n)
    → (b ≡ false → Agree Q P m' n')
    → Agree Q P (if b then m else m') (if b then n else n')
Agree-if true m m' n n' s t = s refl
Agree-if false m m' n n' s t = t refl

-- A run of a parser that produces no value gives an answer.
pub Agree-answers :
    {Q : Answer → Type 0} {P : ⊥ → Type 0} {m n : Parse ⊥}
    → Agree Q P m n
    → (w : Answer) × (m ≡ answer w) × ((w ≡ starved) ⊎ ((n ≡ answer w) × Q w))
Agree-answers (goes_on a p) = absurd a
Agree-answers (returns w q) = (w, refl, inr (refl, q))
Agree-answers (waits n) = (starved, refl, inl refl)

module _ {Q : Answer → Type 0} (buf more : Bytes) where
  pub byte_at-Agree :
      (i : ℕ) → i < length buf → Agree Q (λ _. Unit {0}) (byte_at buf i) (byte_at (buf ++ more) i)
  unfolding byte_at
  byte_at-Agree i h =
      let (c, e) = get_elem?-some buf i h in
      rw (get_elem?-append buf more i h, e, byte_at) (goes_on c tt)

  pub read_u16_be-Agree :
      (i : ℕ)
      → i + 1 < length buf
      → Agree Q (λ _. Unit {0}) (read_u16_be buf i) (read_u16_be (buf ++ more) i)
  unfolding read_u16_be
  read_u16_be-Agree i h =
      Agree->>= _ _ (byte_at-Agree i (omega arith))
        λ a _. Agree->>= _ _ (byte_at-Agree (i + 1) h) λ b _. goes_on _ tt

  pub read_u24_be-Agree :
      (i : ℕ)
      → i + 2 < length buf
      → Agree Q (λ _. Unit {0}) (read_u24_be buf i) (read_u24_be (buf ++ more) i)
  unfolding read_u24_be
  read_u24_be-Agree i h = Agree->>= _ _ (byte_at-Agree i (omega arith)) λ a _.
      Agree->>= _ _ (byte_at-Agree (i + 1) (omega arith))
        λ b _. Agree->>= _ _ (byte_at-Agree (i + 2) h) λ c _. goes_on _ tt

  pub slice_at-Agree :
      (p n : ℕ)
      → p + n ≤ length buf
      → Agree Q
          (λ name. (length name ≡ n) × (name ≡ take n (drop p buf)))
          (slice_at buf p n)
          (slice_at (buf ++ more) p n)
  unfolding slice_at
  slice_at-Agree p n h =
      rw (slice-append p n buf more h, (==_iff _ n).1 (length-slice p n buf h))
        (goes_on _ (length-slice p n buf h, refl))
