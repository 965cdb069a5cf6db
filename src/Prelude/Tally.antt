-- ===== src/Prelude/Tally.antt =====
-- How often a number stands in a list: the multiset view.
use Prim.Native.Nat.{ℕ, ◌+◌}
use mathlib.Core.Path.{◌≡◌}
use mathlib.Core.List.{List, [], ◌∷◌, ◌++◌}
use native.Mathlib.Omega.{arith}
use bantu_os.Prelude.Tests.{eqb, if◌then◌else◌}

-- 1 if the two numbers are one, else 0.
unfoldable pub hit : ℕ → ℕ → ℕ
hit p q = if eqb p q then 1 else 0

unfoldable pub count : ℕ → List ℕ → ℕ
count p [] = 0
count p (q ∷ qs) = hit p q + count p qs

pub count-append : (p : ℕ) (xs ys : List ℕ) → count p (xs ++ ys) ≡ count p xs + count p ys
unfolding count
count-append p [] ys = omega arith
count-append p (x ∷ xs) ys = omega (arith, count-append p xs ys)
