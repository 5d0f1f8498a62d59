-- ===== src/Protocol/Rules.antt =====
-- What the checks of server/src/protocol.rs accept, stated without the order of their tests.
use omp_relayd.Base.{
  ℕ, ◌≤◌, ◌≡◌, ◌≢◌, ◌↔◌, refl, Bool, true, false, not, [], ◌∷◌, All, All-weaken, none, length, ok,
  arith,
}
use omp_relayd.Base.Text.{byte_len}
use omp_relayd.Protocol.Limits.{Text, max_identifier_bytes, max_correlation_bytes, digest_chars}
use omp_relayd.Protocol.Validate.{
  is_whitespace, is_separator, find, starts_with, ends_with, validate_identifier,
  validate_correlation_id, is_base64_url, validate_digest,
}

pub find-none : (p : ℕ → Bool) (s : Text) → find p s ≡ none → All (λ c. p c ≡ false) s
unfolding find
find-none p [] h = tt
find-none p (c ∷ s) h = ground (arith, find-none p s)

pub find-All : (p : ℕ → Bool) (s : Text) → All (λ c. p c ≡ false) s → find p s ≡ none
unfolding find
find-All p [] h = refl
find-All p (c ∷ s) h = ground (arith, find-All p s h.1)

-- The first and the last character, for a text that has one.
abbrev pub first : Text → ℕ
first [] = 0
first (c ∷ s) = c

abbrev pub last : Text → ℕ
last [] = 0
last (c ∷ []) = c
last (c ∷ d ∷ s) = last (d ∷ s)

starts_with-first : (p : ℕ → Bool) (s : Text) → s ≢ [] → starts_with p s ≡ p (first s)
unfolding starts_with
starts_with-first p [] h = absurd (h refl)
starts_with-first p (c ∷ s) h = refl

ends_with-last : (p : ℕ → Bool) (s : Text) → s ≢ [] → ends_with p s ≡ p (last s)
unfolding ends_with
ends_with-last p [] h = absurd (h refl)
ends_with-last p (c ∷ []) h = refl
ends_with-last p (c ∷ d ∷ s) h = ends_with-last p (d ∷ s) (λ e. cc)

abbrev pub IsPlain : ℕ → Type 0
IsPlain c = (c ≢ b'/') × (c ≢ b'@')

IsPlain-of_test : (c : ℕ) → is_separator c ≡ false → IsPlain c
IsPlain-of_test c h = (λ e. ground arith, λ e. ground arith)

IsPlain-test : (c : ℕ) → IsPlain c → is_separator c ≡ false
IsPlain-test c h = ground arith

pub record IsIdentifier (s : Text) : Type 0 where
  pub present : s ≢ []
  pub short : byte_len s ≤ max_identifier_bytes
  pub plain : All IsPlain s
  pub no_leading : is_whitespace (first s) ≡ false
  pub no_trailing : is_whitespace (last s) ≡ false

-- `validate_identifier` accepts exactly the identifiers.
pub validate_identifier_iff : (s : Text) → (validate_identifier s ≡ ok tt) ↔ IsIdentifier s
unfolding validate_identifier
validate_identifier_iff [] = (λ h. cc, λ v. absurd (v.present refl))
validate_identifier_iff (c ∷ s) =
    let nonempty : c ∷ s ≢ [] = λ e. cc in
    (
      λ h. record {
        present = nonempty;
        short = ground arith;
        plain =
            All-weaken _ IsPlain IsPlain-of_test (c ∷ s)
              (find-none is_separator (c ∷ s) (ground arith));
        no_leading = ground (arith, starts_with-first is_whitespace (c ∷ s) nonempty);
        no_trailing = ground (arith, ends_with-last is_whitespace (c ∷ s) nonempty);
      },
      λ i. ground (
        arith,
        i.short,
        find-All is_separator (c ∷ s) (All-weaken IsPlain _ IsPlain-test (c ∷ s) i.plain),
        i.no_leading,
        i.no_trailing,
        starts_with-first is_whitespace (c ∷ s) nonempty,
        ends_with-last is_whitespace (c ∷ s) nonempty,
      ),
    )

not-true : (c : ℕ) → is_base64_url c ≡ true → not (is_base64_url c) ≡ false
not-true c h = rw h

not-false : (c : ℕ) → not (is_base64_url c) ≡ false → is_base64_url c ≡ true
not-false c h = ground arith

digest_find : (s : Text) → validate_digest s ≡ ok tt → find (λ c. not (is_base64_url c)) s ≡ none
unfolding validate_digest
digest_find s h = ground arith

-- `validate_digest` accepts exactly the texts of 43 base64url characters.
pub validate_digest_iff :
    (s : Text)
    → (validate_digest s ≡ ok tt)
      ↔ ((length s ≡ digest_chars) × All (λ c. is_base64_url c ≡ true) s)
unfolding validate_digest
validate_digest_iff s = (
  λ h. (
    ground arith,
    All-weaken _ _ not-false s (find-none (λ c. not (is_base64_url c)) s (digest_find s h)),
  ),
  λ i. ground (arith, i.0, find-All (λ c. not (is_base64_url c)) s (All-weaken _ _ not-true s i.1)),
)

-- `validate_correlation_id` accepts exactly the texts of 1 to 128 bytes.
pub validate_correlation_id_iff :
    (s : Text)
    → (validate_correlation_id s ≡ ok tt) ↔ ((s ≢ []) × (byte_len s ≤ max_correlation_bytes))
unfolding validate_correlation_id
validate_correlation_id_iff [] = (λ h. cc, λ i. absurd (i.0 refl))
validate_correlation_id_iff (c ∷ s) = (λ h. (λ e. cc, ground arith), λ i. ground (arith, i.1))
