-- ===== src/Services/Mpesa/Numbers.antt =====
-- The normal form of a phone number.
use bantu_os.Prelude.{
  ◌≡◌, inl, inr, refl, true, false, [], ◌∷◌, ◌++◌, filter, All, arith, Bool-cases,
}
use bantu_os.Prelude.Text.{Text, codes, starts_with, starts_with-append}
use bantu_os.Services.Mpesa.{is_digit, tail, normalize_msisdn}

filter-digits : (s : Text) → All (λ c. is_digit c ≡ true) (filter is_digit s)
unfolding filter
filter-digits [] = tt
filter-digits (c ∷ s) = elim (Bool-cases (is_digit c)) [
  | inl e ↦ rw e (e, filter-digits s)
  | inr e ↦ rw e (filter-digits s)
]

filter-same : (s : Text) → All (λ c. is_digit c ≡ true) s → filter is_digit s ≡ s
unfolding filter
filter-same [] h = refl
filter-same (c ∷ s) h = ground (arith, h.0, filter-same s h.1)

tail-digits : (s : Text) → All (λ c. is_digit c ≡ true) s → All (λ c. is_digit c ≡ true) (tail s)
unfolding tail
tail-digits [] h = tt
tail-digits (c ∷ s) h = h.1

-- The international prefix is made of digits.
prefixed :
    (s : Text) → All (λ c. is_digit c ≡ true) s → All (λ c. is_digit c ≡ true) (codes "254" ++ s)
unfolding is_digit
prefixed s h = (refl, (refl, (refl, h)))

zero_prefix : (s : Text) → starts_with s (codes "254") ≡ true → starts_with s (codes "0") ≡ false
unfolding starts_with
zero_prefix [] h = absurd (cc)
zero_prefix (c ∷ s) h = ground arith

-- The digits of a number in normal form, and its prefix.
pub normalize_msisdn-digits :
    (phone : Text)
    → All (λ c. is_digit c ≡ true) (normalize_msisdn phone)
      × (starts_with (normalize_msisdn phone) (codes "254") ≡ true)
unfolding normalize_msisdn
normalize_msisdn-digits phone =
    let d = filter is_digit phone in
    let h = filter-digits phone in
    elim (Bool-cases (starts_with d (codes "0"))) [
      | inl e ↦
          rw e (prefixed (tail d) (tail-digits d h), starts_with-append (codes "254") (tail d))
      | inr e ↦ rw e (elim (Bool-cases (starts_with d (codes "254"))) [
        | inl f ↦ rw f (h, f)
        | inr f ↦ rw f (prefixed d h, starts_with-append (codes "254") d)
      ])
    ]

normal-fixed :
    (s : Text)
    → All (λ c. is_digit c ≡ true) s
    → starts_with s (codes "254") ≡ true
    → normalize_msisdn s ≡ s
unfolding normalize_msisdn
normal-fixed s h e = rw (filter-same s h, zero_prefix s e, e) refl

-- The normal form of a phone number is its own normal form, whatever text the number was given as:
-- all its characters are digits, and it begins with "254".
pub normalize_msisdn_idem :
    (phone : Text)
    → (normalize_msisdn (normalize_msisdn phone) ≡ normalize_msisdn phone)
      × All (λ c. is_digit c ≡ true) (normalize_msisdn phone)
      × (starts_with (normalize_msisdn phone) (codes "254") ≡ true)
normalize_msisdn_idem phone =
    let (digits, prefix) = normalize_msisdn-digits phone in
    (normal-fixed (normalize_msisdn phone) digits prefix, digits, prefix)
