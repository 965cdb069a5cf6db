-- ===== src/Services/Sandbox/Escape.antt =====
-- A path that leads out of the sandbox is refused by every operation.
use bantu_os.Prelude.{
  ℕ, ◌≡◌, refl, ap, ◌∙◌, Bool, true, false, Result, ok, err, not, ◌⊎◌, inl, inr, Bool-cases,
}
use bantu_os.Prelude.Text.{Text}
use bantu_os.Services.Sandbox.{
  FileError, M, FileSystem, ◌>>=◌, ◌>>◌, is_inside, resolve, checked, read, write, append, delete,
  copy, move, transfer, transfer_to, list_dir, stat, search, ensure_dir, refuse_if,
}

-- The step raises `PermissionError` and changes nothing.
abbrev pub Refuses : {W A : Type 0} → M W A → W → Type 0
Refuses m w = m w ≡ (err FileError.permission_error, w)

module _ {W Stat : Type 0} (fs : FileSystem W Stat) (sandbox : Text) (path p : Text) (w : W)
    (leads : fs.resolve sandbox path w ≡ ok p) (out : is_inside fs sandbox p ≡ false) where
  resolve_out : Refuses (resolve fs sandbox path) w
  unfolding resolve checked
  resolve_out = rw (leads, checked, out) refl

  resolve-Refuses : {A : Type 0} (f : Text → M W A) → Refuses (resolve fs sandbox path >>= f) w
  unfolding ◌>>=◌
  resolve-Refuses f =
      rw (◌>>=◌, resolve_out) (ap (λ r. (err FileError.permission_error, r.1)) resolve_out)

  confirmed-Refuses :
      {A : Type 0} (confirm : Bool) (m : M W A)
      → Refuses m w
      → Refuses (refuse_if (λ w. not confirm) FileError.permission_error >> m) w
  unfolding refuse_if ◌>>=◌
  confirmed-Refuses true m h = h
  confirmed-Refuses false m h = refl

  -- The resolution of a path that the file system resolves gives it, or is refused.
  resolve-cases :
      (origin q : Text)
      → fs.resolve sandbox origin w ≡ ok q
      → (resolve fs sandbox origin w ≡ (ok q, w)) ⊎ Refuses (resolve fs sandbox origin) w
  unfolding resolve checked
  resolve-cases origin q from = elim (Bool-cases (is_inside fs sandbox q)) [
    | inl e ↦ inl (rw (from, checked, e) refl)
    | inr e ↦ inr (rw (from, checked, e) refl)
  ]

  then_resolved :
      {A : Type 0} (origin q : Text) (f : Text → M W A)
      → resolve fs sandbox origin w ≡ (ok q, w)
      → Refuses (f q) w
      → Refuses (resolve fs sandbox origin >>= f) w
  unfolding ◌>>=◌
  then_resolved {A} origin q f e h =
      ap
        (λ (r : Result FileError Text × W).
          let after : Result FileError A × W = elim r.0 [ ok a ↦ f a r.1 | err x ↦ (err x, r.1) ] in
          after)
        e
      ∙ h

  transfer_to-Refuses :
      (call : Text → Text → W → Result Text (Unit {0}) × W) (flag : Bool) (q : Text)
      → Refuses (transfer_to fs sandbox call path flag q) w
  unfolding transfer_to
  transfer_to-Refuses call flag q = resolve-Refuses _

  -- The second path of a transfer, after a first that resolves.
  transfer-Refuses :
      (call : Text → Text → W → Result Text (Unit {0}) × W) (origin q : Text) (flag : Bool)
      → fs.resolve sandbox origin w ≡ ok q
      → Refuses (transfer fs sandbox call origin path flag) w
  unfolding transfer ◌>>=◌
  transfer-Refuses call origin q flag from = elim (resolve-cases origin q from) [
    | inl e ↦
        then_resolved origin q (transfer_to fs sandbox call path flag) e
          (transfer_to-Refuses call flag q)
    | inr e ↦ rw (transfer, ◌>>=◌, ap (λ r. r.0) e, ap (λ r. r.1) e) refl
  ]

  -- A path that the file system resolves to one outside of the sandbox, through `..`, a symbolic
  -- link or a leading slash, is refused by every operation that takes it, as the source and, where
  -- the source can be resolved at all, as the destination of a copy or a move too: it raises
  -- `PermissionError`, whatever the other arguments are, and changes nothing.
  pub operations-Refuses :
      (other content encoding : Text) (flag flag' : Bool) (n : ℕ) (origin q : Text)
      → fs.resolve sandbox origin w ≡ ok q
      → Refuses (read fs sandbox path n encoding) w
        × Refuses (write fs sandbox path content flag flag' encoding) w
        × Refuses (append fs sandbox path content encoding) w
        × Refuses (delete fs sandbox path flag) w
        × Refuses (copy fs sandbox path other flag) w
        × Refuses (move fs sandbox path other flag) w
        × Refuses (copy fs sandbox origin path flag) w
        × Refuses (move fs sandbox origin path flag) w
        × Refuses (list_dir fs sandbox path flag) w
        × Refuses (stat fs sandbox path) w
        × Refuses (search fs sandbox path other flag) w
        × Refuses (ensure_dir fs sandbox path) w
  unfolding read write append delete copy move transfer transfer_to list_dir stat search ensure_dir
  operations-Refuses other content encoding flag flag' n origin q from = (
    resolve-Refuses _,
    resolve-Refuses _,
    resolve-Refuses _,
    confirmed-Refuses flag _ (resolve-Refuses _),
    resolve-Refuses _,
    resolve-Refuses _,
    transfer-Refuses fs.copy2 origin q flag from,
    transfer-Refuses fs.move origin q flag from,
    resolve-Refuses _,
    resolve-Refuses _,
    resolve-Refuses _,
    resolve-Refuses _,
  )
