-- ===== src/Tests/Load.antt =====
-- The loader at a concrete file.
use weeper_vm.Base.{ℕ, ◌≡◌, refl, arith, true, List, [], ◌∷◌, ◌++◌, ok, length, take, drop}
use weeper_vm.Loader.{System, load_vcode, compile_file}
use weeper_vm.Loader.Length.{IsFile, load_vcode-compile_file}

abbrev image : List ℕ
image = 0x02 ∷ 0x01 ∷ 0x01 ∷ []

abbrev code : List ℕ
code = 0xf8 ∷ 0x00 ∷ 0x1f ∷ 0xff ∷ 0xff ∷ 0xff ∷ []

-- A system whose own file is the image with the compiled code behind it.
abbrev own_file : List ℕ
own_file = 0x7f ∷ 0x45 ∷ 0x4c ∷ 0x46 ∷ (image ++ compile_file code 0xdeadbeef)

abbrev system : System
system = record {
  sse = true;
  opens = λ path. true;
  size = length own_file;
  read = λ offset count. take count (drop offset own_file);
  has_memory = λ n. true;
  protects = λ n. true;
}

system-IsFile : IsFile system own_file
system-IsFile = record { sse = refl; opens = refl; size = refl; read = λ offset count h. refl }

load_vcode-compile_file_example : load_vcode system ≡ ok code
load_vcode-compile_file_example =
    load_vcode-compile_file system image code 0xdeadbeef system-IsFile (omega arith) (omega arith)
      refl refl
