-- ===== src/Services/Sandbox/Inside.antt =====
-- The sandboxed file service touches nothing outside of its sandbox.
use bantu_os.Prelude.{
  ℕ, ◌≡◌, inl, inr, Bool, true, not, List, [], ◌∷◌, ◌&&◌, Result, ok, err, Bool-cases, Result-cases,
  arith,
}
use bantu_os.Prelude.Text.{Text}
use bantu_os.Services.Sandbox.{
  FileError, M, FileSystem, ◌>>=◌, ◌>>◌, is_inside, resolve, reads, does, refuse_if, checked, read,
  check_file_exists, check_dir_exists, stat_result, make_parents, make_dir, write, append, delete,
  transfer, copy, move, stat_all, list_dir, stat, search, ensure_dir,
}

-- A step keeps what is true of the world.
abbrev Safe : {W A : Type 0} → (W → Type 0) → M W A → Type 0
Safe {W} P m = (w : W) → P w → P (m w).1

-- A call of the file system, made on paths of the sandbox, keeps what is true of the world; so does
-- the making of the directory that such a path stands in.
pub record IsConfined {W Stat : Type 0} (fs : FileSystem W Stat) (sandbox : Text) (P : W → Type 0)
    : Type 0 where
  pub mkdir : (p : Text) (w : W) → is_inside fs sandbox p ≡ true → P w → P (fs.mkdir p w).1
  pub parents :
      (p : Text) (w : W) → is_inside fs sandbox p ≡ true → P w → P (fs.mkdir (fs.parent p) w).1
  pub write_text :
      (p content encoding : Text) (w : W)
      → is_inside fs sandbox p ≡ true
      → P w
      → P (fs.write_text p content encoding w).1
  pub append_text :
      (p content encoding : Text) (w : W)
      → is_inside fs sandbox p ≡ true
      → P w
      → P (fs.append_text p content encoding w).1
  pub unlink : (p : Text) (w : W) → is_inside fs sandbox p ≡ true → P w → P (fs.unlink p w).1
  pub copy2 :
      (p q : Text) (w : W)
      → is_inside fs sandbox p ≡ true
      → is_inside fs sandbox q ≡ true
      → P w
      → P (fs.copy2 p q w).1
  pub move :
      (p q : Text) (w : W)
      → is_inside fs sandbox p ≡ true
      → is_inside fs sandbox q ≡ true
      → P w
      → P (fs.move p q w).1

module _ {W : Type 0} (P : W → Type 0) where
  bind-Safe :
      {A B : Type 0} (m : M W A) (f : A → M W B)
      → Safe P m
      → ((a : A) → Safe P (f a))
      → Safe P (m >>= f)
  unfolding ◌>>=◌
  bind-Safe m f h k w p = elim (Result-cases (m w).0) [
    | inl (a, e) ↦ rw (e, ◌>>=◌) (k a (m w).1 (h w p))
    | inr (e, at) ↦ rw (at, ◌>>=◌) (h w p)
  ]

  refuse-Safe :
      {B : Type 0} (test : W → Bool) (e : FileError) (m : M W B)
      → Safe P m
      → Safe P (refuse_if test e >> m)
  unfolding refuse_if
  refuse-Safe test e m h = bind-Safe (refuse_if test e) (λ _. m) (λ w p. p) (λ _. h)

  reads-Safe :
      {A B : Type 0} (g : W → Result Text A) (f : A → M W B)
      → ((a : A) → Safe P (f a))
      → Safe P (reads g >>= f)
  unfolding reads
  reads-Safe g f h = bind-Safe (reads g) f (λ w p. p) h

  does-Safe :
      {A B : Type 0} (g : W → Result Text A × W) (m : M W B)
      → ((w : W) → P w → P (g w).1)
      → Safe P m
      → Safe P (does g >> m)
  unfolding does
  does-Safe g m h k = bind-Safe (does g) (λ _. m) h (λ _. k)

module _ {W Stat : Type 0} (fs : FileSystem W Stat) (sandbox : Text) (P : W → Type 0) where
  checked-inside :
      (r : Result Text Text) (p : Text)
      → checked fs sandbox r ≡ ok p
      → is_inside fs sandbox p ≡ true
  unfolding checked
  checked-inside (err e) p h = absurd (cc)
  checked-inside (ok q) p h = ground arith

  resolve-Safe :
      {A : Type 0} (path : Text) (f : Text → M W A)
      → ((p : Text) → is_inside fs sandbox p ≡ true → Safe P (f p))
      → Safe P (resolve fs sandbox path >>= f)
  unfolding resolve ◌>>=◌
  resolve-Safe path f h w p = elim (Result-cases (checked fs sandbox (fs.resolve sandbox path w))) [
    | inl (q, e) ↦ rw (e, ◌>>=◌) (h q (checked-inside _ q e) w p)
    | inr (e, at) ↦ rw (at, ◌>>=◌) p
  ]

  refusal-Safe : (test : W → Bool) (e : FileError) → Safe P (refuse_if test e)
  unfolding refuse_if
  refusal-Safe test e w p = p

  checks-Safe :
      {B : Type 0} (p : Text) (m : M W B)
      → Safe P m
      → Safe P (check_file_exists fs sandbox p >> m) × Safe P (check_dir_exists fs sandbox p >> m)
  unfolding check_file_exists check_dir_exists
  checks-Safe p m h = (
    bind-Safe P (check_file_exists fs sandbox p) (λ _. m)
        (refuse-Safe P _ _ _ (refusal-Safe (λ w. not (fs.is_file p w)) FileError.is_a_directory))
        (λ _. h),
    bind-Safe P (check_dir_exists fs sandbox p) (λ _. m)
        (refuse-Safe P _ _ _ (refusal-Safe (λ w. not (fs.is_dir p w)) FileError.not_a_directory))
        (λ _. h),
  )

  stat_result-Safe : (p : Text) → Safe P (stat_result fs sandbox p)
  unfolding stat_result reads
  stat_result-Safe p w h = h

  stat_all-Safe : (paths : List Text) → Safe P (stat_all fs sandbox paths)
  unfolding stat_all
  stat_all-Safe [] = λ w h. h
  stat_all-Safe (p ∷ paths) =
      bind-Safe P (stat_result fs sandbox p) _ (stat_result-Safe p)
        (λ s. bind-Safe P (stat_all fs sandbox paths) _ (stat_all-Safe paths) (λ rest w h. h))

  module _ (c : IsConfined fs sandbox P) where
    transfer-Safe :
        (call : Text → Text → W → Result Text (Unit {0}) × W)
        → ((p q : Text) (w : W)
            → is_inside fs sandbox p ≡ true
            → is_inside fs sandbox q ≡ true
            → P w
            → P (call p q w).1)
        → (src dst : Text) (allow_overwrite : Bool)
        → Safe P (transfer fs sandbox call src dst allow_overwrite)
    unfolding transfer
    transfer-Safe call keeps src dst allow_overwrite = resolve-Safe src _ (λ p at.
        resolve-Safe dst _ (λ q to.
          (checks-Safe p _ (
            refuse-Safe P _ _ _ (
              does-Safe P (fs.mkdir (fs.parent q)) _ (λ w h. c.parents q w to h)
                (does-Safe P (call p q) _ (λ w h. keeps p q w at to h) (stat_result-Safe q))))).0))

    make_parents-Safe :
        (create_parents : Bool) (p : Text)
        → is_inside fs sandbox p ≡ true
        → Safe P (make_parents fs sandbox create_parents p)
    unfolding make_parents does
    make_parents-Safe create_parents p at w h =
        elim (Bool-cases (not (fs.exists p w) && create_parents)) [
          | inl e ↦ rw e (c.parents p w at h)
          | inr e ↦ rw e h
        ]

    write-Safe :
        (path content encoding : Text) (allow_overwrite create_parents : Bool)
        → Safe P (write fs sandbox path content allow_overwrite create_parents encoding)
    unfolding write
    write-Safe path content encoding allow_overwrite create_parents = resolve-Safe path _ (λ p at.
        refuse-Safe P _ _ _ (
          refuse-Safe P _ _ _ (
            bind-Safe P (make_parents fs sandbox create_parents p) _
              (make_parents-Safe create_parents p at)
              (λ _.
                does-Safe P (fs.write_text p content encoding) _
                  (λ w h. c.write_text p content encoding w at h) (stat_result-Safe p)))))

    append-Safe : (path content encoding : Text) → Safe P (append fs sandbox path content encoding)
    unfolding append
    append-Safe path content encoding = resolve-Safe path _ (λ p at.
        does-Safe P (fs.mkdir (fs.parent p)) _ (λ w h. c.parents p w at h)
          (does-Safe P (fs.append_text p content encoding) _
            (λ w h. c.append_text p content encoding w at h) (stat_result-Safe p)))

    delete-Safe : (path : Text) (confirm : Bool) → Safe P (delete fs sandbox path confirm)
    unfolding delete
    delete-Safe path confirm = refuse-Safe P _ _ _ (
        resolve-Safe path _ (λ p at.
          (checks-Safe p _ (does-Safe P (fs.unlink p) _ (λ w h. c.unlink p w at h) (λ w h. h))).0))

    make_dir-Safe : (p : Text) → is_inside fs sandbox p ≡ true → Safe P (make_dir fs sandbox p)
    unfolding make_dir does
    make_dir-Safe p at w h = elim (Bool-cases (not (fs.exists p w))) [
      | inl e ↦ rw e (c.mkdir p w at h)
      | inr e ↦ rw e h
    ]

    ensure_dir-Safe : (path : Text) → Safe P (ensure_dir fs sandbox path)
    unfolding ensure_dir
    ensure_dir-Safe path = resolve-Safe path _ (λ p at.
        bind-Safe P (make_dir fs sandbox p) _ (make_dir-Safe p at) (λ _. stat_result-Safe p))

    -- Whatever is true of the world, and stays true when the file system is called on paths of the
    -- sandbox alone (and makes the directories that these stand in), stays true whatever operation
    -- of the service is called, on whatever paths, and whether it succeeds or fails.
    pub operations-Safe :
        (path other content encoding : Text) (flag flag' : Bool) (n : ℕ) (w : W)
        → P w
        → P (write fs sandbox path content flag flag' encoding w).1
          × P (append fs sandbox path content encoding w).1
          × P (delete fs sandbox path flag w).1
          × P (copy fs sandbox path other flag w).1
          × P (move fs sandbox path other flag w).1
          × P (ensure_dir fs sandbox path w).1
          × P (read fs sandbox path n encoding w).1
          × P (list_dir fs sandbox path flag w).1
          × P (stat fs sandbox path w).1
          × P (search fs sandbox path other flag w).1
    unfolding copy move read list_dir stat search
    operations-Safe path other content encoding flag flag' n w h = (
      write-Safe path content encoding flag flag' w h,
      append-Safe path content encoding w h,
      delete-Safe path flag w h,
      transfer-Safe fs.copy2 c.copy2 path other flag w h,
      transfer-Safe fs.move c.move path other flag w h,
      ensure_dir-Safe path w h,
      resolve-Safe path _ (λ p at. (checks-Safe p _ (reads-Safe P _ _ (λ _ w h. h))).0) w h,
      resolve-Safe path _ (λ p at. (checks-Safe p _ (reads-Safe P _ _ stat_all-Safe)).1) w h,
      resolve-Safe path _ (λ p at. refuse-Safe P _ _ _ (stat_result-Safe p)) w h,
      resolve-Safe path _ (λ p at. (checks-Safe p _ (reads-Safe P _ _ (λ _ w h. h))).1) w h,
    )
