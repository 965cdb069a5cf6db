-- ===== src/Services/Sandbox.antt =====
-- `SandboxedFileService` of bantu_os/services/sandboxed_file_service.py. The file system is a
-- parameter: what `pathlib` and `shutil` do with a path, on a world `W` that they read and change.
pub mod Inside
pub mod Escape
use bantu_os.Prelude.{
  ℕ, zero, suc, Bool, true, false, not, List, [], ◌∷◌, ◌++◌, ◌||◌, ◌&&◌, Option, none, some, Result,
  ok, err, map, if◌then◌else◌,
}
use bantu_os.Prelude.Text.{Text, codes, ◌==◌, starts_with}

pub data FileError : Type 0 where
  value_error permission_error not_found is_a_directory not_a_directory exists_already : FileError
  os_error : Text → FileError

-- A step reads and changes the world, and returns or raises.
abbrev pub M : Type 0 → Type 0 → Type 0
M W A = W → Result FileError A × W

infixl 5 ◌>>=◌ ◌>>◌
unfoldable pub ◌>>=◌ : {W A B : Type 0} → M W A → (A → M W B) → M W B
◌>>=◌ m f w = let (r, w') = m w in elim r [ ok a ↦ f a w' | err e ↦ (err e, w') ]

abbrev pub ◌>>◌ : {W A B : Type 0} → M W A → M W B → M W B
m >> k = m >>= λ _. k

abbrev pub pure : {W A : Type 0} → A → M W A
pure a w = (ok a, w)

abbrev pub raise : {W A : Type 0} → FileError → M W A
raise e w = (err e, w)

-- Calls that change the world return or raise an `OSError`. `glob` and `listing` give the paths
-- below a directory in sorted order, those of all levels if the flag is set; `stat` is what
-- `_stat_result` reads; `relative` is `m.replace(sandbox + "/", "")`.
pub record FileSystem (W Stat : Type 0) : Type 0 where
  pub resolve : Text → Text → W → Result Text Text
  pub parent : Text → Text
  pub exists : Text → W → Bool
  pub is_file : Text → W → Bool
  pub is_dir : Text → W → Bool
  pub read_bytes : Text → W → Result Text Text
  pub decode : Text → Text → Text
  pub stat : Text → W → Result Text Stat
  pub listing : Bool → Text → W → Result Text (List Text)
  pub glob : Bool → Text → Text → W → Result Text (List Text)
  pub relative : Text → Text → Text
  pub mkdir : Text → W → Result Text (Unit {0}) × W
  pub write_text : Text → Text → Text → W → Result Text (Unit {0}) × W
  pub append_text : Text → Text → Text → W → Result Text (Unit {0}) × W
  pub unlink : Text → W → Result Text (Unit {0}) × W
  pub copy2 : Text → Text → W → Result Text (Unit {0}) × W
  pub move : Text → Text → W → Result Text (Unit {0}) × W

-- `data[:max_bytes]`
unfoldable pub take_bytes : ℕ → Text → Text
take_bytes zero s = []
take_bytes (suc n) [] = []
take_bytes (suc n) (c ∷ s) = c ∷ take_bytes n s

os_result : {A : Type 0} → Result Text A → Result FileError A
os_result (ok a) = ok a
os_result (err e) = err (os_error e)

unfoldable pub reads : {W A : Type 0} → (W → Result Text A) → M W A
unfolding os_result
reads f w = (os_result (f w), w)

unfoldable pub does : {W A : Type 0} → (W → Result Text A × W) → M W A
unfolding os_result
does f w = let (r, w') = f w in (os_result r, w')

-- `if test: raise error`
unfoldable pub refuse_if : {W : Type 0} → (W → Bool) → FileError → M W (Unit {0})
refuse_if test e w = (if test w then err e else ok tt, w)

module _ {W Stat : Type 0} (fs : FileSystem W Stat) (sandbox : Text) where
  -- The sandbox itself, or a path below it.
  unfoldable pub is_inside : Text → Bool
  is_inside path = starts_with path (sandbox ++ codes "/") || path == sandbox

  checked : Result Text Text → Result FileError Text
  unfolding is_inside
  checked (err e) = err FileError.value_error
  checked (ok path) = if not (is_inside path) then err FileError.permission_error else ok path

  -- `_resolve`
  unfoldable pub resolve : Text → M W Text
  unfolding checked
  resolve path w = (checked (fs.resolve sandbox path w), w)

  unfoldable pub check_file_exists : Text → M W (Unit {0})
  unfolding refuse_if
  check_file_exists p = do
    refuse_if (λ w. not (fs.exists p w)) FileError.not_found
    refuse_if (λ w. not (fs.is_file p w)) FileError.is_a_directory

  unfoldable pub check_dir_exists : Text → M W (Unit {0})
  unfolding refuse_if
  check_dir_exists p = do
    refuse_if (λ w. not (fs.exists p w)) FileError.not_a_directory
    refuse_if (λ w. not (fs.is_dir p w)) FileError.not_a_directory

  unfoldable pub stat_result : Text → M W Stat
  unfolding reads
  stat_result p = reads (fs.stat p)

  unfoldable pub read : Text → ℕ → Text → M W Text
  unfolding resolve check_file_exists reads
  read path max_bytes encoding = do
    p ← resolve path
    check_file_exists p
    bytes ← reads (fs.read_bytes p)
    pure (fs.decode encoding (take_bytes max_bytes bytes))

  -- The parents are made if the file is not there and `create_parents` is set.
  unfoldable pub make_parents : Bool → Text → M W (Unit {0})
  unfolding does
  make_parents create_parents p w =
      if not (fs.exists p w) && create_parents then does (fs.mkdir (fs.parent p)) w else (ok tt, w)

  unfoldable pub write : Text → Text → Bool → Bool → Text → M W Stat
  write path content allow_overwrite create_parents encoding = do
    p ← resolve path
    refuse_if (fs.is_dir p) FileError.is_a_directory
    refuse_if (λ w. fs.exists p w && not allow_overwrite) FileError.exists_already
    make_parents create_parents p
    does (fs.write_text p content encoding)
    stat_result p

  unfoldable pub append : Text → Text → Text → M W Stat
  append path content encoding = do
    p ← resolve path
    does (fs.mkdir (fs.parent p))
    does (fs.append_text p content encoding)
    stat_result p

  unfoldable pub delete : Text → Bool → M W Bool
  delete path confirm = do
    refuse_if (λ w. not confirm) FileError.permission_error
    p ← resolve path
    check_file_exists p
    does (fs.unlink p)
    pure true

  -- `copy` and `move` differ in the last call.
  -- What follows the resolution of the source.
  unfoldable pub transfer_to :
      (Text → Text → W → Result Text (Unit {0}) × W) → Text → Bool → Text → M W Stat
  transfer_to call dst allow_overwrite src_p = do
    dst_p ← resolve dst
    check_file_exists src_p
    refuse_if (λ w. fs.exists dst_p w && not allow_overwrite) FileError.exists_already
    does (fs.mkdir (fs.parent dst_p))
    does (call src_p dst_p)
    stat_result dst_p

  unfoldable pub transfer :
      (Text → Text → W → Result Text (Unit {0}) × W) → Text → Text → Bool → M W Stat
  unfolding transfer_to
  transfer call src dst allow_overwrite =
      resolve src >>= λ src_p. transfer_to call dst allow_overwrite src_p

  unfoldable pub copy : Text → Text → Bool → M W Stat
  copy = transfer fs.copy2

  unfoldable pub move : Text → Text → Bool → M W Stat
  move = transfer fs.move

  unfoldable pub stat_all : List Text → M W (List Stat)
  stat_all [] = pure []
  stat_all (p ∷ paths) = do s ← stat_result p; rest ← stat_all paths; pure (s ∷ rest)

  unfoldable pub list_dir : Text → Bool → M W (List Stat)
  list_dir path recursive = do
    p ← resolve path
    check_dir_exists p
    paths ← reads (fs.listing recursive p)
    stat_all paths

  unfoldable pub stat : Text → M W Stat
  stat path = do
    p ← resolve path
    refuse_if (λ w. not (fs.exists p w)) FileError.not_found
    stat_result p

  unfoldable pub search : Text → Text → Bool → M W (List Text)
  search root pattern recursive = do
    p ← resolve root
    check_dir_exists p
    matches ← reads (fs.glob recursive pattern p)
    pure (map (fs.relative sandbox) matches)

  make_dir : Text → M W (Unit {0})
  make_dir p w = if not (fs.exists p w) then does (fs.mkdir p) w else (ok tt, w)

  unfoldable pub ensure_dir : Text → M W Stat
  unfolding make_dir
  ensure_dir path = do p ← resolve path; make_dir p; stat_result p
