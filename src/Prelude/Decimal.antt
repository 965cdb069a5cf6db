-- ===== src/Prelude/Decimal.antt =====
-- Python's `str` of a natural number.
use bantu_os.Prelude.Tests.{ltb, Bool-cases, if◌then◌else◌}
use bantu_os.Prelude.Lists.{All}
use bantu_os.Prelude.Text.{Text}
use Prim.Native.Nat.{ℕ, zero, suc, ◌+◌, ◌-◌, ◌*◌, ◌/◌, ◌%◌, ◌≤◌, ◌<◌}
use mathlib.Core.Path.{◌≡◌, refl, ap, ◌∙◌}
use mathlib.Core.Logic.{◌≢◌, inl, inr}
use mathlib.Core.List.{[], ◌∷◌, ◌++◌}
use native.Mathlib.Omega.{arith}

-- The digits of `n` in front of `rest`; the fuel `n + 1` is enough, by `number-decimal`.
decimal_from : ℕ → ℕ → Text → Text
decimal_from zero n rest = rest
decimal_from (suc f) n rest =
    let more = decimal_from f (n / 10) ((48 + n % 10) ∷ rest) in
    if ltb n 10 then (48 + n) ∷ rest else more

unfoldable pub decimal : ℕ → Text
unfolding decimal_from
decimal n = decimal_from (suc n) n []

-- Reading digits from the left.
unfoldable pub number_from : ℕ → Text → ℕ
number_from acc [] = acc
number_from acc (c ∷ s) = number_from (acc * 10 + (c - 48)) s

abbrev pub IsDigit : ℕ → Type 0
IsDigit c = (48 ≤ c) × (c ≤ 57)

decimal_from-digits :
    (f n : ℕ) (rest : Text) → All IsDigit rest → All IsDigit (decimal_from f n rest)
unfolding decimal_from
decimal_from-digits zero n rest h = h
decimal_from-digits (suc f) n rest h =
    ground
      (arith, decimal_from-digits f (n / 10) ((48 + n % 10) ∷ rest) ((omega arith, omega arith), h))

pub decimal-digits : (n : ℕ) → All IsDigit (decimal n)
unfolding decimal
decimal-digits n = decimal_from-digits (suc n) n [] tt

number-decimal_from :
    (f n : ℕ) (rest : Text) → n < f → number_from 0 (decimal_from f n rest) ≡ number_from n rest
unfolding decimal_from number_from
number-decimal_from zero n rest h = elim h [ ]
number-decimal_from (suc f) n rest h = elim (Bool-cases (ltb n 10)) [
  | inl small ↦ rw small (ap (λ k. number_from k rest) (omega arith))
  | inr large ↦ rw large (
      number-decimal_from f (n / 10) ((48 + n % 10) ∷ rest) (ground arith)
      ∙ ap (λ k. number_from k rest) (omega arith))
]

-- The digits of a number read back as the number.
pub number-decimal : (n : ℕ) → number_from 0 (decimal n) ≡ n
unfolding decimal number_from
number-decimal n = number-decimal_from (suc n) n [] (omega arith)

no_mark : (m : ℕ) (v d e : Text) → All (λ c. c ≢ m) d → d ≢ v ++ m ∷ e
no_mark m [] [] e h p = cc
no_mark m [] (c ∷ d) e h p = ground arith
no_mark m (x ∷ v) [] e h p = cc
no_mark m (x ∷ v) (c ∷ d) e h p = no_mark m v d e h.1 (cc)

-- A text is cut in one way at the last `m`.
pub cut_at_last :
    (m : ℕ) (u v d e : Text)
    → All (λ c. c ≢ m) d
    → All (λ c. c ≢ m) e
    → u ++ m ∷ d ≡ v ++ m ∷ e
    → u ≡ v
cut_at_last m [] [] d e hd he p = refl
cut_at_last m [] (x ∷ v) d e hd he p = absurd (no_mark m v d e hd (cc))
cut_at_last m (x ∷ u) [] d e hd he p = absurd (no_mark m u e d he (cc))
cut_at_last m (x ∷ u) (y ∷ v) d e hd he p = cc (cut_at_last m u v d e hd he (cc))
