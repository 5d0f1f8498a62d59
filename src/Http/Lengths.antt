-- ===== src/Http/Lengths.antt =====
-- The header that server/src/http.rs reads a length from: what it makes of a number in decimal.
use omp_relayd.Base.{
  ℕ, zero, suc, ◌+◌, ◌-◌, ◌*◌, ◌/◌, ◌%◌, ◌^◌, ◌<◌, ◌≤◌, ◌≡◌, ◌≢◌, refl, ◌∙◌, true, false, ◌&&◌, ltb,
  leb, ◌==◌, [], ◌∷◌, All, some, Bool-cases, inl, inr, arith,
}
use omp_relayd.Base.Text.{digits_before, decimal}
use omp_relayd.Protocol.Limits.{Text, u64_mod, IsU64}
use omp_relayd.Protocol.Validate.{is_whitespace}
use omp_relayd.Http.Headers.{trim_start, trim_end, trim, parse_digits, parse_u64, content_length}

abbrev IsDigit : ℕ → Type 0
IsDigit c = (b'0' ≤ c) × (c ≤ b'9')

parse_digits-digit :
    (n d m : ℕ) (rest : Text)
    → d < 10
    → n * 10 + d ≡ m
    → m < u64_mod
    → parse_digits n ((b'0' + d) ∷ rest) ≡ parse_digits m rest
parse_digits-digit n d m rest h e k =
    let value : n * 10 + (b'0' + d - b'0') ≡ m = omega arith in
    let test : (leb b'0' (b'0' + d) && leb (b'0' + d) b'9' && ltb m u64_mod) ≡ true =
      ground arith in
    unfold parse_digits in rw (value, test, parse_digits) refl

digits_before-value :
    (k n : ℕ) (rest : Text)
    → n < 10 ^ suc k
    → n < u64_mod
    → parse_digits 0 (digits_before (suc k) n rest) ≡ parse_digits n rest
unfolding digits_before
digits_before-value zero n rest h small =
    let e : ltb n 10 ≡ true = ground arith in
    rw (e, digits_before) (parse_digits-digit 0 n n rest (omega arith) (omega arith) small)
digits_before-value (suc k) n rest h small = elim (Bool-cases (ltb n 10)) [
  | inl e ↦ rw (e, digits_before) (parse_digits-digit 0 n n rest (ground arith) (omega arith) small)
  | inr e ↦
      rw (e, digits_before)
        (digits_before-value k (n / 10) ((b'0' + n % 10) ∷ rest) (omega arith) (omega arith)
          ∙ parse_digits-digit (n / 10) (n % 10) n rest (omega arith) (omega arith) small)
]

digits_before-IsDigit :
    (k n : ℕ) (rest : Text) → All IsDigit rest → All IsDigit (digits_before k n rest)
unfolding digits_before
digits_before-IsDigit zero n rest h = h
digits_before-IsDigit (suc k) n rest h = elim (Bool-cases (ltb n 10)) [
  | inl e ↦ rw (e, digits_before) ((omega arith, ground arith), h)
  | inr e ↦
      rw (e, digits_before) (digits_before-IsDigit k (n / 10) _ ((omega arith, omega arith), h))
]

digit_dark : (c : ℕ) → IsDigit c → is_whitespace c ≡ false
unfolding is_whitespace
digit_dark c h = ground arith

trim_start-plain : (s : Text) → All IsDigit s → trim_start s ≡ s
unfolding trim_start
trim_start-plain [] h = refl
trim_start-plain (c ∷ s) h = rw (digit_dark c h.0, trim_start) refl

trim_end-plain : (s : Text) → All IsDigit s → trim_end s ≡ s
unfolding trim_end
trim_end-plain [] h = refl
trim_end-plain (c ∷ []) h = rw (digit_dark c h.0, trim_end) refl
trim_end-plain (c ∷ d ∷ s) h = rw (trim_end-plain (d ∷ s) h.1, trim_end) refl

parse_u64-plain : (s : Text) → All IsDigit s → s ≢ [] → parse_u64 s ≡ parse_digits 0 s
unfolding parse_u64
parse_u64-plain [] h n = absurd (n refl)
parse_u64-plain (c ∷ []) h n = refl
parse_u64-plain (c ∷ d ∷ s) h n =
    let test : (c == b'+') ≡ false = ground (arith, h.0) in rw (test, parse_u64) refl

digits_before-present : (k n : ℕ) (c : ℕ) (rest : Text) → digits_before k n (c ∷ rest) ≢ []
unfolding digits_before
digits_before-present zero n c rest = λ e. cc
digits_before-present (suc k) n c rest = elim (Bool-cases (ltb n 10)) [
  | inl e ↦ rw (e, digits_before) (λ f. cc)
  | inr e ↦ rw (e, digits_before) (digits_before-present k (n / 10) _ _)
]

decimal-present : (n : ℕ) → decimal n ≢ []
unfolding decimal digits_before
decimal-present n = elim (Bool-cases (ltb n 10)) [
  | inl e ↦ rw (e, digits_before) (λ f. cc)
  | inr e ↦ rw (e, digits_before) (digits_before-present 19 (n / 10) _ _)
]

-- A `Content-Length` in decimal, of any `u64`, is read as that number.
pub content_length-decimal : (n : ℕ) → IsU64 n → content_length (some (decimal n)) ≡ some n
unfolding content_length trim
content_length-decimal n small =
    let digits : All IsDigit (decimal n) = unfold decimal in digits_before-IsDigit 20 n [] tt in
    rw
      (
        trim_start-plain (decimal n) digits,
        trim_end-plain (decimal n) digits,
        parse_u64-plain (decimal n) digits (decimal-present n),
      )
      (unfold decimal in
        digits_before-value 19 n [] (omega arith) small ∙ unfold parse_digits in refl)
