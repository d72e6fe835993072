-- ===== src/Petstore/Log/Decimal.antt =====
-- itoa of log.go against the numbers that its texts are read as.
use gofordevopsclass.Prelude.{
  ℕ, zero, suc, ◌+◌, ◌-◌, ◌*◌, ◌/◌, ◌≤◌, ◌<◌, false, ◌||◌, leb, [], ◌∷◌, Option, none, some, length,
  Bool-cases, ◌≡◌, refl, ap, ◌∙◌, subst, inl, inr, arith,
}
use gofordevopsclass.Prelude.Int.{ℤ, pos, negsuc, ltb_ℤ, pos_part}
use gofordevopsclass.Petstore.Log.{Bytes, pred_ℤ, digits, itoa}

-- The number that decimal bytes stand for, behind a number that has been read.
abbrev pub read : ℕ → Bytes → ℕ
read acc [] = acc
read acc (c ∷ cs) = read (acc * 10 + (c - 48)) cs

-- Every byte is a decimal digit.
abbrev pub AreDigits : Bytes → Type 0
AreDigits [] = Unit {0}
AreDigits (c ∷ cs) = ((48 ≤ c) × (c ≤ 57)) × AreDigits cs

abbrev pub power : ℕ → ℕ
power zero = 1
power (suc n) = 10 * power n

-- What is left of a number behind its last digit.
split_ten : (i : ℕ) → (i / 10 * 10 ≤ i) × (i - i / 10 * 10 ≤ 9)
split_ten i = omega arith

-- The digits, from a number with room for its own, read as the number, and there are as many as
-- the width asks for.
abbrev Written : ℕ → ℤ → Bytes → Option Bytes → Type 0
Written i wid out none = ⊥
Written i wid out (some bs) =
    (read 0 bs ≡ read i out)
    × (AreDigits out → AreDigits bs)
    × (pos_part wid + length out ≤ length bs)

last-Written :
    (i : ℕ) (wid : ℤ) (out : Bytes)
    → (leb 10 i || ltb_ℤ (pos 1) wid) ≡ false
    → Written i wid out (some ((48 + i) ∷ out))
last-Written i wid out h =
    (ap (λ z. read z out) (omega arith), λ d. (ground arith, d), ground arith)

carried-Written :
    (i : ℕ) (wid : ℤ) (out : Bytes) (o : Option Bytes)
    → Written (i / 10) (pred_ℤ wid) ((48 + (i - i / 10 * 10)) ∷ out) o
    → Written i wid out o
carried-Written i wid out none h = h
carried-Written i wid out (some bs) (a, b, c) = (
  a ∙ ap (λ z. read z out) (omega (arith, split_ten i)),
  λ d. b (omega (arith, split_ten i), d),
  widths wid c,
)
  where
    widths :
        (w : ℤ)
        → pos_part (pred_ℤ w) + suc (length out) ≤ length bs
        → pos_part w + length out ≤ length bs
    widths (pos zero) h = omega arith
    widths (pos (suc n)) h = omega arith
    widths (negsuc n) h = omega arith

narrower : (wid : ℤ) (n : ℕ) → pos_part wid ≤ suc n → pos_part (pred_ℤ wid) ≤ n
narrower (pos zero) n h = omega arith
narrower (pos (suc m)) n h = omega arith
narrower (negsuc m) n h = omega arith

digits-Written :
    (room i : ℕ) (wid : ℤ) (out : Bytes)
    → i < 10 * power room
    → pos_part wid ≤ suc room
    → Written i wid out (digits room i wid out)
unfolding digits
digits-Written zero i wid out h w =
    let stop : (leb 10 i || ltb_ℤ (pos 1) wid) ≡ false = ground arith in
    rw (stop, digits) (last-Written i wid out stop)
digits-Written (suc room) i wid out h w = elim (Bool-cases (leb 10 i || ltb_ℤ (pos 1) wid)) [
  | inl x ↦
      rw (x, digits)
        (carried-Written i wid out _ (
          digits-Written room (i / 10) (pred_ℤ wid) ((48 + (i - i / 10 * 10)) ∷ out) (omega arith)
            (narrower wid (suc room) w)))
  | inr x ↦ rw (x, digits) (last-Written i wid out x)
]

-- itoa of a number of at most twenty digits, and so of every int that is not negative, with a width
-- of at most 20, does not run off its buffer: it writes decimal digits, as many as the width or
-- more, that read as the number.
pub read-itoa :
    (i : ℕ) (wid : ℤ)
    → i < power 20
    → pos_part wid ≤ 20
    → (bs : Bytes) × (itoa i wid ≡ some bs)
      × (read 0 bs ≡ i)
      × AreDigits bs
      × (pos_part wid ≤ length bs)
unfolding itoa
read-itoa i wid h w = go (digits 19 i wid []) refl (digits-Written 19 i wid [] h w)
  where
    go :
        (o : Option Bytes)
        → digits 19 i wid [] ≡ o
        → Written i wid [] (digits 19 i wid [])
        → (bs : Bytes) × (itoa i wid ≡ some bs)
          × (read 0 bs ≡ i)
          × AreDigits bs
          × (pos_part wid ≤ length bs)
    go none x y = absurd (subst (Written i wid []) x y)
    go (some bs) x y =
        let (a, b, c) = subst (Written i wid []) x y in (bs, x, a, b tt, omega (arith, c))
