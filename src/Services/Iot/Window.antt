-- ===== src/Services/Iot/Window.antt =====
-- What the sensor store and the device registry hold after any readings.
use bantu_os.Prelude.{
  ℕ, suc, ◌-◌, ◌≤◌, ◌≡◌, inl, inr, refl, sym, ◌∙◌, ap, Bool, false, List, [], ◌∷◌, ◌++◌, Option,
  none, some, filter, length, length-append, ltb, leb, if◌then◌else◌, Bool-cases, Option-cases,
  arith,
}
use mathlib.Core.List.{append-nil, append_assoc}
use bantu_os.Prelude.Text.{Text, codes, ◌==◌, eq_iff, eq_refl}
use bantu_os.Prelude.Dict.{lookup, lookup-insert}
use bantu_os.Services.Iot.Devices.{
  Device, Reading, Devices, drop, last, key_of, or_empty, trimmed, kept_readings, touched,
  ingest_reading,
}

module _ {ℓ} {A : Type ℓ} where
  trimmed-last : (n : ℕ) (xs : List A) → trimmed n xs ≡ last n xs
  unfolding trimmed last drop
  trimmed-last n xs = elim (Bool-cases (ltb n (length xs))) [
    | inl long ↦ rw long refl
    | inr short ↦ let e : length xs - n ≡ 0 = ground arith in rw (short, e) refl
  ]

  last_short : (n : ℕ) (xs : List A) → length xs ≤ n → last n xs ≡ xs
  unfolding last drop
  last_short n xs h = let e : length xs - n ≡ 0 = omega arith in rw e refl

  last_long : (n : ℕ) (x : A) (xs : List A) → n ≤ length xs → last n (x ∷ xs) ≡ last n xs
  unfolding last drop
  last_long n x xs h = let e : suc (length xs) - n ≡ suc (length xs - n) = omega arith in rw e refl

  last-nil : (n : ℕ) → last {A = A} n [] ≡ []
  unfolding last drop
  last-nil n = let e : 0 - n ≡ 0 = omega arith in rw e refl

  -- To keep the last of what was kept loses nothing.
  last-append-last :
      (n : ℕ) (xs : List A) (x : A) → last n (last n xs ++ x ∷ []) ≡ last n (xs ++ x ∷ [])
  last-append-last n [] x = rw (last-nil n) refl
  last-append-last n (y ∷ xs) x = elim (Bool-cases (leb n (length xs))) [
    | inl long ↦
        rw (last_long n y xs (ground arith), last-append-last n xs x)
          (sym (last_long n y (xs ++ x ∷ []) (ground (arith, length-append xs (x ∷ [])))))
    | inr short ↦ rw (last_short n (y ∷ xs) (ground arith)) refl
  ]

  filter-append : (p : A → Bool) (xs ys : List A) → filter p (xs ++ ys) ≡ filter p xs ++ filter p ys
  unfolding filter
  filter-append p [] ys = refl
  filter-append p (x ∷ xs) ys = ground (arith, filter-append p xs ys)

module _ {V : Type 0} where
  -- The readings of one series.
  unfoldable pub matching : Text → List (Reading V) → List (Reading V)
  matching k = filter (λ r. key_of r.device_id r.sensor_type == k)

  -- What is kept of a series, `none` if it is empty.
  unfoldable pub window : List (Reading V) → Option (List (Reading V))
  window [] = none
  window (r ∷ rs) = some (last kept_readings (r ∷ rs))

  -- When the device was last heard of.
  unfoldable pub heard : Text → List (Reading V) → Option ℕ → Option ℕ
  heard d [] t = t
  heard d (r ∷ rs) t = heard d rs (if r.device_id == d then some r.ts else t)

  matching-append :
      (k : Text) (past : List (Reading V)) (r : Reading V)
      → matching k (past ++ r ∷ [])
        ≡ matching k past ++ (if key_of r.device_id r.sensor_type == k then r ∷ [] else [])
  unfolding matching filter
  matching-append k past r =
      filter-append (λ q. key_of q.device_id q.sensor_type == k) past (r ∷ [])

  window-append :
      (rs : List (Reading V)) (r : Reading V)
      → window (rs ++ r ∷ []) ≡ some (trimmed kept_readings (or_empty (window rs) ++ r ∷ []))
  unfolding window
  window-append [] r = rw (trimmed-last kept_readings (r ∷ [])) refl
  window-append (q ∷ rs) r =
      rw
        (
          trimmed-last kept_readings (last kept_readings (q ∷ rs) ++ r ∷ []),
          last-append-last kept_readings (q ∷ rs) r,
        )
        refl

module _ {M : Type 0} where
  -- What a device is after it was heard of.
  unfoldable pub seen : Option ℕ → Device M → Device M
  seen none d = d
  seen (some t) d = record d { last_seen = some t; status = codes "online" }

  seen-seen : (u : ℕ) (t : Option ℕ) (d : Device M) → seen (some u) (seen t d) ≡ seen (some u) d
  unfolding seen
  seen-seen u none d = refl
  seen-seen u (some t) d = refl

module _ {M V : Type 0} where
  unfoldable pub run : List (Reading V) → Devices M V → Devices M V
  run [] s = s
  run (r ∷ rs) s = run rs (ingest_reading r s)

  ingest_reading-window :
      (past : List (Reading V)) (r : Reading V) (k : Text) (s : Devices M V)
      → lookup k s.store ≡ window (matching k past)
      → lookup k (ingest_reading r s).store ≡ window (matching k (past ++ r ∷ []))
  unfolding ingest_reading matching
  ingest_reading-window past r k s h =
      let key = key_of r.device_id r.sensor_type in
      let readings = trimmed kept_readings (or_empty (lookup key s.store) ++ r ∷ []) in
      elim (Bool-cases (key == k)) [
        | inl e ↦
            rw
              (
                lookup-insert key k readings s.store,
                matching-append k past r,
                e,
                (eq_iff key k).0 e,
                h,
              )
              (sym (window-append (matching k past) r))
        | inr e ↦
            rw
              (
                lookup-insert key k readings s.store,
                matching-append k past r,
                e,
                append-nil (matching k past),
              )
              h
      ]

  run-window :
      (rs past : List (Reading V)) (k : Text) (s : Devices M V)
      → lookup k s.store ≡ window (matching k past)
      → lookup k (run rs s).store ≡ window (matching k (past ++ rs))
  unfolding run
  run-window [] past k s h = rw (append-nil past) h
  run-window (r ∷ rs) past k s h =
      rw (← append_assoc past (r ∷ []) rs)
        (run-window rs (past ++ r ∷ []) k (ingest_reading r s) (ingest_reading-window past r k s h))

  touched_self :
      (d : Text) (ts : ℕ) (device : Device M) (s : Devices M V)
      → lookup d s.registry ≡ some device
      → lookup d (touched d ts s) ≡ some (seen (some ts) device)
  unfolding touched seen
  touched_self d ts device s h =
      let dev = record device { last_seen = some ts; status = codes "online" } in
      rw (touched, h, lookup-insert d d dev s.registry, eq_refl d) refl

  touched_other :
      (d d' : Text) (ts : ℕ) (s : Devices M V)
      → (d' == d) ≡ false
      → lookup d (touched d' ts s) ≡ lookup d s.registry
  unfolding touched
  touched_other d d' ts s e = elim (Option-cases (lookup d' s.registry)) [
    | inl a ↦ rw (touched, a) refl
    | inr (device, a) ↦
        let dev = record device { last_seen = some ts; status = codes "online" } in
        rw (touched, a, lookup-insert d' d dev s.registry, e) refl
  ]

  run-heard :
      (rs : List (Reading V)) (d : Text) (t : Option ℕ) (device : Device M) (s : Devices M V)
      → lookup d s.registry ≡ some (seen t device)
      → lookup d (run rs s).registry ≡ some (seen (heard d rs t) device)
  unfolding run heard ingest_reading
  run-heard [] d t device s h = h
  run-heard (r ∷ rs) d t device s h = elim (Bool-cases (r.device_id == d)) [
    | inl e ↦ rw e (
        run-heard rs d (some r.ts) device (ingest_reading r s) (
          rw ((eq_iff r.device_id d).0 e)
            (touched_self d r.ts (seen t device) s h ∙ ap some (seen-seen r.ts t device))))
    | inr e ↦
        rw e
          (run-heard rs d t device (ingest_reading r s) (touched_other d r.device_id r.ts s e ∙ h))
  ]

  -- From an empty sensor store, after any readings, a series holds the last 1000 of the readings
  -- whose key is its own, in their order, and is missing if there are none. A device that was
  -- registered is online, and was seen at the last of its readings, if it had any; without one it
  -- is as it was.
  pub run-last_readings :
      (rs : List (Reading V)) (k d : Text) (device : Device M) (s : Devices M V)
      → s.store ≡ []
      → lookup d s.registry ≡ some device
      → (lookup k (run rs s).store ≡ window (matching k rs))
        × (lookup d (run rs s).registry ≡ some (seen (heard d rs none) device))
  unfolding window matching filter lookup seen
  run-last_readings rs k d device s empty h =
      (run-window rs [] k s (rw empty refl), run-heard rs d none device s h)
