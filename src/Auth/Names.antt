-- ===== src/Auth/Names.antt =====
-- `username.lower().strip()` of bantu_os/auth/user_store.py, on ASCII.
use bantu_os.Prelude.{
  ℕ, ◌≡◌, refl, Bool, true, false, ◌&&◌, ◌||◌, [], ◌∷◌, arith, leb, eqb, All, if◌then◌else◌,
}
use bantu_os.Prelude.Text.{Text, lower, lower_char}

-- Python's white space below 128.
unfoldable pub is_space : ℕ → Bool
is_space c = eqb c 32 || (leb 9 c && leb c 13) || (leb 28 c && leb c 31)

unfoldable pub lstrip : Text → Text
lstrip [] = []
lstrip (c ∷ s) = let rest = lstrip s in if is_space c then rest else c ∷ s

abbrev is_empty : Text → Bool
is_empty [] = true
is_empty (c ∷ s) = false

unfoldable pub rstrip : Text → Text
rstrip [] = []
rstrip (c ∷ s) = let rest = rstrip s in if is_space c && is_empty rest then [] else c ∷ rest

unfoldable pub strip : Text → Text
strip s = rstrip (lstrip s)

unfoldable pub normalise : Text → Text
unfolding strip
normalise s = strip (lower s)

rstrip_idem : (s : Text) → rstrip (rstrip s) ≡ rstrip s
unfolding rstrip
rstrip_idem [] = refl
rstrip_idem (c ∷ s) = ground (arith, rstrip_idem s)

lstrip-rstrip-lstrip : (s : Text) → lstrip (rstrip (lstrip s)) ≡ rstrip (lstrip s)
unfolding lstrip rstrip
lstrip-rstrip-lstrip [] = refl
lstrip-rstrip-lstrip (c ∷ s) = ground (arith, lstrip-rstrip-lstrip s)

strip_idem : (s : Text) → strip (strip s) ≡ strip s
unfolding strip
strip_idem s = rw (lstrip-rstrip-lstrip s) (rstrip_idem (lstrip s))

-- No upper case letter.
abbrev IsLower : Text → Type 0
IsLower s = All (λ c. lower_char c ≡ c) s

lower_char_idem : (c : ℕ) → lower_char (lower_char c) ≡ lower_char c
unfolding lower_char
lower_char_idem c = ground arith

lower-IsLower : (s : Text) → IsLower (lower s)
unfolding lower
lower-IsLower [] = tt
lower-IsLower (c ∷ s) = (lower_char_idem c, lower-IsLower s)

lower_of_IsLower : (s : Text) → IsLower s → lower s ≡ s
unfolding lower
lower_of_IsLower [] h = refl
lower_of_IsLower (c ∷ s) h = cc (h.0, lower_of_IsLower s h.1)

lstrip-IsLower : (s : Text) → IsLower s → IsLower (lstrip s)
unfolding lstrip
lstrip-IsLower [] h = tt
lstrip-IsLower (c ∷ s) h = ground (arith, lstrip-IsLower s h.1)

rstrip-IsLower : (s : Text) → IsLower s → IsLower (rstrip s)
unfolding rstrip
rstrip-IsLower [] h = tt
rstrip-IsLower (c ∷ s) h = ground (arith, rstrip-IsLower s h.1)

-- A normalised name is its own normal form.
pub normalise_idem : (s : Text) → normalise (normalise s) ≡ normalise s
unfolding normalise
normalise_idem s =
    rw
      (lower_of_IsLower (strip (lower s))
        (rstrip-IsLower (lstrip (lower s)) (lstrip-IsLower (lower s) (lower-IsLower s))))
      (strip_idem (lower s))
