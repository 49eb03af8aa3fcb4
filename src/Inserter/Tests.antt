-- ===== src/Inserter/Tests.antt =====
-- The inserter at a host with two files: the program "shell" of three bytes, and an image of zeros
-- under every other name.
use os_2024_operatingstress.Base.{
  ℕ, zero, suc, ◌+◌, ◌-◌, ◌≤◌, ◌<◌, ◌≡◌, refl, sym, ap, ◌∙◌, subst, inl, inr, true, false, Option,
  none, some, List, [], ◌∷◌, ◌++◌, arith, pos, ◌==◌, if◌then◌else◌, Bool-cases, length, take,
  replicate, length-replicate, All, All-take, All-replicate,
}
use os_2024_operatingstress.Disk.{Storage, read_blocks}
use os_2024_operatingstress.Disk.Invariant.{IsStorage}
use os_2024_operatingstress.Fat32.Driver.{
  DriverState, reply, same_bytes, read_table, load_bytes, store_bytes,
}
use os_2024_operatingstress.Fat32.Driver.Invariant.{IsState, store_bytes-byte}
use os_2024_operatingstress.Fat32.Init.{zero_entry, is_empty_storage, initialize_filesystem_fat32}
use os_2024_operatingstress.Strings.{memcmp}
use os_2024_operatingstress.Fat32.Read.{read}
use os_2024_operatingstress.Fat32.Files.{File, Stores}
use os_2024_operatingstress.Fat32.Tests.{blank, blank-IsState}
use os_2024_operatingstress.Boot.{shell_request}
use os_2024_operatingstress.Inserter.{Host, main, filename, filesize, write_success}
use os_2024_operatingstress.Fat32.Memory.{store_bytes_outside}
use os_2024_operatingstress.Fat32.Types.{DirectoryEntry}
use os_2024_operatingstress.Fat32.Init.Laws.{directory_entry}
use os_2024_operatingstress.Inserter.Laws.{buffered, image-block}
use os_2024_operatingstress.Inserter.Insert.{CanInsert, shell_name, main_inserts_shell}
use os_2024_operatingstress.Inserter.Start.{main-starts}

unfoldable zeros : ℕ → List ℕ
zeros n = replicate n 0

length-zeros : (n : ℕ) → length (zeros n) ≡ n
unfolding zeros
length-zeros n = length-replicate n 0

zeros-Bytes : (n : ℕ) → All (λ b. b < 256) (zeros n)
unfolding zeros
zeros-Bytes n = All-replicate (λ b. b < 256) n (omega arith)

abbrev image : List ℕ
image = 0 ∷ zeros 4194303

abbrev program : List ℕ
program = 235 ∷ 254 ∷ 144 ∷ []

unfoldable open_file : List ℕ → Option (List ℕ)
open_file [] = none
open_file (c ∷ path) = if c == 115 then some program else some image

open_file-Bytes : (path bs : List ℕ) → open_file path ≡ some bs → All (λ b. b < 256) bs
unfolding open_file
open_file-Bytes [] bs h = cc
open_file-Bytes (c ∷ path) bs h = elim (Bool-cases (c == 115)) [
  | inl e ↦
      let own : program ≡ bs = let q = rw e at h in cc in
      subst (All (λ b. b < 256)) own (omega arith)
  | inr e ↦
      let own : image ≡ bs = let q = rw e at h in cc in
      subst (All (λ b. b < 256)) own (omega arith, zeros-Bytes 4194303)
]

unfoldable digit : List ℕ → Option ℕ
digit [] = none
digit (c ∷ more) = some (c - 48)

abbrev host : Host
host = record {
  open_read = open_file;
  open_write = λ path. true;
  fread = λ m p n bs. store_bytes m p (take n bs);
  scan_number = digit;
  scan_word = λ text. some (take 8 text);
  heap = λ a. 0;
  image_storage = 0;
  file_buffer = 8388608;
}

-- "2" and "storage.bin"
abbrev parent : List ℕ
parent = 50 ∷ []

abbrev storage : List ℕ
storage = 100 ∷ 46 ∷ 98 ∷ 105 ∷ 110 ∷ []

length-take_most : (n : ℕ) (bs : List ℕ) → length (take n bs) ≤ n
length-take_most zero bs = omega arith
length-take_most (suc n) [] = omega arith
length-take_most (suc n) (b ∷ bs) = omega (arith, length-take_most n bs)

host-CanInsert : CanInsert host shell_name parent storage image program
unfolding open_file digit same_bytes memcmp
host-CanInsert = record {
  host = record {
    fread_whole = λ m p n bs le. refl;
    fread_apart = λ m p n bs a h.
        store_bytes_outside m p (take n bs) a (let le = length-take_most n bs in ground arith);
    fread_bytes =
        λ m p n bs hm hb. store_bytes-byte m p (take n bs) (All-take (λ b. b < 256) n bs hb) hm;
    file_bytes = open_file-Bytes;
    heap_bytes = λ a. omega arith;
    apart = omega arith;
  };
  is_image = refl;
  image_size = omega (arith, length-zeros 4194303);
  unformatted = refl;
  writable = refl;
  is_program = refl;
  not_empty = omega arith;
  fits = omega arith;
  named = refl;
  in_root = refl;
}

main_inserts_shell_example :
    (d : Storage) × (f : File) × (main host ([] ∷ shell_name ∷ parent ∷ storage ∷ [])
      ≡ some (record {
        status = 0;
        printed = filename shell_name ∷ filesize 3 ∷ write_success ∷ [];
        image = some (read_blocks d 0 8192);
      }))
    × IsStorage d
    × (is_empty_storage d ≡ false)
    × Stores d 2 (f ∷ [])
    × (f.bytes ≡ buffered host image program)
    × (f.name ≡ shell_name ++ replicate 3 0)
    × (f.ext ≡ replicate 3 0)
    × (f.slot ≡ 1)
    × (e : DirectoryEntry) × (read_table d 2
        ≡ directory_entry (82 ∷ 79 ∷ 79 ∷ 84 ∷ 0 ∷ 0 ∷ 0 ∷ 0 ∷ []) 2 ∷ e ∷ replicate 62 zero_entry)
main_inserts_shell_example = main_inserts_shell host-CanInsert [] []

abbrev disk : Storage
disk = main_inserts_shell_example.0

abbrev kernel_state : DriverState
kernel_state = record blank { disk = disk }

kernel_state-IsState : IsState kernel_state
kernel_state-IsState = record {
  memory = blank-IsState.memory;
  disk = main_inserts_shell_example.3;
  fat = blank-IsState.fat;
  table = blank-IsState.table;
}

main-starts_example :
    (s' : DriverState) × (read shell_request (initialize_filesystem_fat32 kernel_state)
      ≡ reply (pos 0) s')
    × (load_bytes s'.memory 0 3 ≡ buffered host image program)
    × (s'.disk ≡ disk)
main-starts_example =
    main-starts host-CanInsert [] [] _ (read_blocks disk 0 8192) kernel_state
      main_inserts_shell_example.2 refl kernel_state-IsState
      (λ b lt. sym (
        image-block 8192 0 b disk main_inserts_shell_example.3 lt
        ∙ ap disk {x = 0 + b} {y = b} (omega arith)))
