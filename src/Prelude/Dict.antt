-- ===== src/Prelude/Dict.antt =====
-- Python's `dict` with text keys, in insertion order.
use bantu_os.Prelude.Tests.{if◌then◌else◌, is_some}
use bantu_os.Prelude.Lists.{length}
use bantu_os.Prelude.Text.{Text, ◌==◌, eq_iff}
use Prim.Native.Nat.{◌+◌}
use mathlib.Core.Path.{◌≡◌, refl}
use mathlib.Core.Bool.{Bool, false}
use mathlib.Core.Option.{Option, none, some}
use mathlib.Core.List.{List, [], ◌∷◌}
use native.Mathlib.Omega.{arith}

abbrev pub Dict {ℓ} : Type ℓ → Type ℓ
Dict V = List (Text × V)

module _ {ℓ} {V : Type ℓ} where
  -- `d.get(k)`
  unfoldable pub lookup : Text → Dict V → Option V
  lookup k [] = none
  lookup k ((j, v) ∷ d) = if j == k then some v else lookup k d

  -- `k in d`
  abbrev pub has_key : Text → Dict V → Bool
  has_key k d = is_some (lookup k d)

  -- `d[k] = v`: a new key goes to the end, an old one keeps its place.
  unfoldable pub insert : Text → V → Dict V → Dict V
  insert k v [] = (k, v) ∷ []
  insert k v ((j, w) ∷ d) = if j == k then (k, v) ∷ d else (j, w) ∷ insert k v d

  -- `d.pop(k, None)`
  unfoldable pub erase : Text → Dict V → Dict V
  erase k [] = []
  erase k ((j, w) ∷ d) = let rest = erase k d in if j == k then rest else (j, w) ∷ rest

  -- `d.values()`
  unfoldable pub values : Dict V → List V
  values [] = []
  values ((j, w) ∷ d) = w ∷ values d

  -- `d.keys()`
  unfoldable pub keys : Dict V → List Text
  keys [] = []
  keys ((j, w) ∷ d) = j ∷ keys d

  -- `{k: v for k, v in d.items() if test(v)}`
  unfoldable pub keep_values : (V → Bool) → Dict V → Dict V
  keep_values test [] = []
  keep_values test ((j, w) ∷ d) =
      let rest = keep_values test d in if test w then (j, w) ∷ rest else rest

  abbrev pub keep : (V → Bool) → Option V → Option V
  keep test none = none
  keep test (some v) = if test v then some v else none

  -- No key stands twice.
  abbrev pub IsDict : Dict V → Type 0
  IsDict [] = Unit
  IsDict ((k, v) ∷ d) = (has_key k d ≡ false) × IsDict d

  pub lookup-insert :
      (k j : Text) (v : V) (d : Dict V)
      → lookup j (insert k v d) ≡ (if k == j then some v else lookup j d)
  unfolding lookup insert
  lookup-insert k j v [] = refl
  lookup-insert k j v ((i, w) ∷ d) =
      ground (arith, eq_iff k j, eq_iff i k, eq_iff i j, lookup-insert k j v d)

  pub lookup-erase :
      (k j : Text) (d : Dict V) → lookup j (erase k d) ≡ (if k == j then none else lookup j d)
  unfolding lookup erase
  lookup-erase k j [] = ground arith
  lookup-erase k j ((i, w) ∷ d) =
      ground (arith, eq_iff k j, eq_iff i k, eq_iff i j, lookup-erase k j d)

  pub insert-IsDict : (k : Text) (v : V) (d : Dict V) → IsDict d → IsDict (insert k v d)
  unfolding lookup insert
  insert-IsDict k v [] h = (refl, tt)
  insert-IsDict k v ((i, w) ∷ d) h =
      ground (arith, eq_iff i k, eq_iff k i, insert-IsDict k v d h.1, lookup-insert k i v d)

  pub erase-IsDict : (k : Text) (d : Dict V) → IsDict d → IsDict (erase k d)
  unfolding lookup erase
  erase-IsDict k [] h = tt
  erase-IsDict k ((i, w) ∷ d) h =
      ground (arith, eq_iff k i, erase-IsDict k d h.1, lookup-erase k i d)

  keep_values_absent :
      (test : V → Bool) (k : Text) (d : Dict V)
      → lookup k d ≡ none
      → lookup k (keep_values test d) ≡ none
  unfolding lookup keep_values
  keep_values_absent test k [] h = refl
  keep_values_absent test k ((j, w) ∷ d) h = ground (arith, keep_values_absent test k d)

  pub lookup-keep_values :
      (test : V → Bool) (k : Text) (d : Dict V)
      → IsDict d
      → lookup k (keep_values test d) ≡ keep test (lookup k d)
  unfolding lookup keep_values
  lookup-keep_values test k [] h = refl
  lookup-keep_values test k ((j, w) ∷ d) h =
      ground (arith, eq_iff j k, lookup-keep_values test k d h.1, keep_values_absent test k d)

  pub keep_values-IsDict : (test : V → Bool) (d : Dict V) → IsDict d → IsDict (keep_values test d)
  unfolding keep_values
  keep_values-IsDict test [] h = tt
  keep_values-IsDict test ((j, w) ∷ d) h =
      ground (arith, keep_values-IsDict test d h.1, lookup-keep_values test j d h.1)

  pub length-insert :
      (k : Text) (v : V) (d : Dict V)
      → length (insert k v d) ≡ (if has_key k d then length d else length d + 1)
  unfolding lookup insert
  length-insert k v [] = omega arith
  length-insert k v ((i, w) ∷ d) = ground (arith, length-insert k v d)

  pub erase_absent : (k : Text) (d : Dict V) → lookup k d ≡ none → erase k d ≡ d
  unfolding lookup erase
  erase_absent k [] h = refl
  erase_absent k ((i, w) ∷ d) h = ground (arith, erase_absent k d)

  pub length-erase :
      (k : Text) (d : Dict V)
      → IsDict d
      → length d ≡ (if has_key k d then length (erase k d) + 1 else length (erase k d))
  unfolding lookup erase
  length-erase k [] h = omega arith
  length-erase k ((i, w) ∷ d) h = ground (arith, eq_iff i k, length-erase k d h.1, erase_absent k d)

pub ruleset dict_laws = (lookup-insert, lookup-erase)
