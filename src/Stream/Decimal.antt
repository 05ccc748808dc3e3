-- ===== src/Stream/Decimal.antt =====
-- The decimal print of a number: its characters, its length, and how it is read back.
use native.Mathlib.Nat.{pow-suc}
use micro_tcp.Common.{
  ℕ, zero, suc, ◌+◌, ◌*◌, ◌-◌, ◌/◌, ◌%◌, ◌^◌, ◌≤◌, ◌<◌, ◌≡◌, [], ◌∷◌, ◌++◌, arith, Bytes, length,
  length-append, All, All-append, ltb, Bool-cases, inl, inr,
}
use micro_tcp.Stream.{digits, decimal, scan, digit}

abbrev pub IsDigit : ℕ → Type 0
IsDigit c = (b'0' ≤ c) × (c ≤ b'9')

pub digits_unit : (f n : ℕ) → n < 10 → digits (suc f) n ≡ digit n ∷ []
unfolding digits
digits_unit f n h = ground arith

pub digits_more : (f n : ℕ) → 10 ≤ n → digits (suc f) n ≡ digits f (n / 10) ++ digit (n % 10) ∷ []
unfolding digits
digits_more f n h = ground arith

digits-All : (f n : ℕ) → All IsDigit (digits f n)
unfolding digits
digits-All zero n = tt
digits-All (suc f) n = elim (Bool-cases (ltb n 10)) [
  | inl e ↦ rw e ((omega arith, ground arith), tt)
  | inr e ↦ rw e (
      All-append IsDigit (digits f (n / 10)) _
        (digits-All f (n / 10), ((omega arith, omega arith), tt)))
]

scan_snoc :
    (ds : Bytes) (k c : ℕ)
    → All IsDigit ds
    → IsDigit c
    → scan k (ds ++ c ∷ []) ≡ scan k ds * 10 + (c - b'0')
unfolding scan
scan_snoc [] k c h hc = ground arith
scan_snoc (d ∷ ds) k c (hd, h) hc = ground (arith, scan_snoc ds (k * 10 + (d - b'0')) c)

pow_pos : (k : ℕ) → 0 < 10 ^ k
pow_pos zero = omega arith
pow_pos (suc k) = omega (arith, pow-suc 10 k, pow_pos k)

tenth-lt : (k n : ℕ) → n < 10 ^ suc k → n / 10 < 10 ^ k
tenth-lt k n h = omega (arith, pow-suc 10 k)

scan_unit : (n : ℕ) → n < 10 → scan 0 (digit n ∷ []) ≡ n
unfolding scan
scan_unit n h = ground arith

-- Enough digits are read back as the number.
pub scan-digits : (f n : ℕ) → n < 10 ^ suc f → scan 0 (digits (suc f) n) ≡ n
scan-digits zero n h =
    let lt : n < 10 = omega (arith, pow-suc 10 0) in rw (digits_unit 0 n lt) (scan_unit n lt)
scan-digits (suc f) n h = elim (Bool-cases (ltb n 10)) [
  | inl e ↦ let lt : n < 10 = ground arith in rw (digits_unit (suc f) n lt) (scan_unit n lt)
  | inr e ↦
      let le : 10 ≤ n = ground arith in
      rw (digits_more (suc f) n le) (
        omega (
          arith,
          scan_snoc (digits (suc f) (n / 10)) 0 (digit (n % 10)) (digits-All (suc f) (n / 10))
              (omega arith, omega arith),
          scan-digits f (n / 10) (tenth-lt (suc f) n h),
        ))
]

length-digits-le : (f k n : ℕ) → n < 10 ^ suc k → length (digits f n) ≤ suc k
unfolding digits
length-digits-le zero k n h = omega arith
length-digits-le (suc f) zero n h = rw (digits_unit f n (omega arith)) (omega arith)
length-digits-le (suc f) (suc k) n h = elim (Bool-cases (ltb n 10)) [
  | inl e ↦ rw e (omega arith)
  | inr e ↦
      rw e (omega (arith, length-append {0}, length-digits-le f k (n / 10) (tenth-lt (suc k) n h)))
]

length-digits-lt : (f k n : ℕ) → n < 10 ^ f → 10 ^ k ≤ n → k < length (digits f n)
length-digits-lt zero k n b h = absurd (omega (arith, pow_pos k))
length-digits-lt (suc f) zero n b h = elim (Bool-cases (ltb n 10)) [
  | inl e ↦ rw (digits_unit f n (ground arith)) (omega arith)
  | inr e ↦ rw (digits_more f n (ground arith)) (omega (arith, length-append {0}))
]
length-digits-lt (suc f) (suc k) n b h =
    let le : 10 ≤ n = omega (arith, pow-suc 10 k, pow_pos k) in
    rw (digits_more f n le) (
      omega (
        arith,
        length-append {0},
        length-digits-lt f k (n / 10) (tenth-lt f n b) (omega (arith, pow-suc 10 k)),
      ))

length-digits-pos : (f n : ℕ) → 0 < length (digits (suc f) n)
length-digits-pos f n = elim (Bool-cases (ltb n 10)) [
  | inl e ↦ rw (digits_unit f n (ground arith)) (omega arith)
  | inr e ↦ rw (digits_more f n (ground arith)) (omega (arith, length-append {0}))
]

-- A `std::size_t` is printed in digits, at least one, and is read back.
pub decimal_digits : (n : ℕ) → n < 2 ^ 64 → All IsDigit (decimal n) × (scan 0 (decimal n) ≡ n)
unfolding decimal
decimal_digits n h = (digits-All 20 n, scan-digits 19 n (omega arith))

pub length-decimal-le : (n : ℕ) → n < 10 ^ 10 → length (decimal n) ≤ 10
unfolding decimal
length-decimal-le n h = length-digits-le 20 9 n h

pub length-decimal-lt : (k n : ℕ) → n < 2 ^ 64 → 10 ^ k ≤ n → k < length (decimal n)
unfolding decimal
length-decimal-lt k n h g = length-digits-lt 20 k n (omega arith) g

pub length-decimal-pos : (n : ℕ) → 0 < length (decimal n)
unfolding decimal
length-decimal-pos n = length-digits-pos 19 n
