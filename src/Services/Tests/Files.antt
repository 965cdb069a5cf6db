-- ===== src/Services/Tests/Files.antt =====
-- Concrete runs of the sandboxed file service.
use bantu_os.Prelude.{Bool, List, All}
use bantu_os.Services.Sandbox.{
  FileSystem, is_inside, read, write, append, delete, copy, move, list_dir, stat, search,
  ensure_dir,
}
use bantu_os.Services.Sandbox.Inside.{IsConfined, operations-Safe}
use bantu_os.Services.Sandbox.Escape.{Refuses, operations-Refuses}
use bantu_os.Prelude.Text.{starts_with}
use bantu_os.Prelude.{All}
use bantu_os.Prelude.{ℕ, ◌≡◌, refl, true, false, [], ◌∷◌, ok}
use bantu_os.Prelude.Text.{Text, codes, ◌==◌}

abbrev sandbox : Text
sandbox = codes "/home/ann"

-- A file system that resolves every path to itself and keeps the paths of the files that it wrote.
abbrev files : FileSystem (List Text) Text
files = record {
  resolve = λ base path w. ok path;
  parent = λ path. path;
  exists = λ path w. false;
  is_file = λ path w. true;
  is_dir = λ path w. false;
  read_bytes = λ path w. ok path;
  decode = λ encoding bytes. bytes;
  stat = λ path w. ok path;
  listing = λ recursive path w. ok [];
  glob = λ recursive pattern path w. ok [];
  relative = λ base path. path;
  mkdir = λ path w. (ok tt, w);
  write_text = λ path content encoding w. (ok tt, path ∷ w);
  append_text = λ path content encoding w. (ok tt, path ∷ w);
  unlink = λ path w. (ok tt, path ∷ w);
  copy2 = λ src dst w. (ok tt, dst ∷ w);
  move = λ src dst w. (ok tt, src ∷ dst ∷ w);
}

-- Every path that was written is one of the sandbox.
abbrev WrittenInside : List Text → Type 0
WrittenInside = All (λ path. is_inside files sandbox path ≡ true)

files-IsConfined : IsConfined files sandbox WrittenInside
files-IsConfined = record {
  mkdir = λ p w at h. h;
  parents = λ p w at h. h;
  write_text = λ p content encoding w at h. (at, h);
  append_text = λ p content encoding w at h. (at, h);
  unlink = λ p w at h. (at, h);
  copy2 = λ p q w at to h. (to, h);
  move = λ p q w at to h. (at, (to, h));
}

operations-Safe_example :
    let fs : FileSystem (List Text) Text = files in
    let sandbox : Text = sandbox in
    let path : Text = codes "/home/ann/a" in
    let other : Text = codes "/etc/passwd" in
    let content : Text = codes "hello" in
    let encoding : Text = codes "utf-8" in
    let flag : Bool = true in
    let flag' : Bool = true in
    let n : ℕ = 5 in
    let w : (List Text) = [] in
    WrittenInside (write fs sandbox path content flag flag' encoding w).1
    × WrittenInside (append fs sandbox path content encoding w).1
    × WrittenInside (delete fs sandbox path flag w).1
    × WrittenInside (copy fs sandbox path other flag w).1
    × WrittenInside (move fs sandbox path other flag w).1
    × WrittenInside (ensure_dir fs sandbox path w).1
    × WrittenInside (read fs sandbox path n encoding w).1
    × WrittenInside (list_dir fs sandbox path flag w).1
    × WrittenInside (stat fs sandbox path w).1
    × WrittenInside (search fs sandbox path other flag w).1
operations-Safe_example =
    operations-Safe files sandbox WrittenInside files-IsConfined (codes "/home/ann/a")
      (codes "/etc/passwd") (codes "hello") (codes "utf-8") true true 5 [] tt

operations-Refuses_example :
    let fs : FileSystem (List Text) Text = files in
    let sandbox : Text = sandbox in
    let path : Text = codes "/etc/passwd" in
    let w : List Text = [] in
    let other : Text = codes "a" in
    let content : Text = codes "hello" in
    let encoding : Text = codes "utf-8" in
    let flag : Bool = true in
    let flag' : Bool = true in
    let n : ℕ = 5 in
    Refuses (read fs sandbox path n encoding) w
    × Refuses (write fs sandbox path content flag flag' encoding) w
    × Refuses (append fs sandbox path content encoding) w
    × Refuses (delete fs sandbox path flag) w
    × Refuses (copy fs sandbox path other flag) w
    × Refuses (move fs sandbox path other flag) w
    × Refuses (copy fs sandbox (codes "b") path flag) w
    × Refuses (move fs sandbox (codes "b") path flag) w
    × Refuses (list_dir fs sandbox path flag) w
    × Refuses (stat fs sandbox path) w
    × Refuses (search fs sandbox path other flag) w
    × Refuses (ensure_dir fs sandbox path) w
unfolding is_inside starts_with ◌==◌
operations-Refuses_example =
    operations-Refuses files sandbox (codes "/etc/passwd") (codes "/etc/passwd") [] refl refl
      (codes "a") (codes "hello") (codes "utf-8") true true 5 (codes "b") (codes "b") refl
