-- ===== src/Inserter/Laws.antt =====
-- What the inserter relies on of its host, and the image as it is loaded and as it is written back.
use os_2024_operatingstress.Base.{
  ℕ, zero, suc, ◌+◌, ◌*◌, ◌^◌, ◌≤◌, ◌<◌, ◌≡◌, refl, ap, ap₂, ◌∙◌, ◌⊎◌, some, List, [], ◌∷◌, ◌++◌,
  arith, length, take, drop, replicate, take-append, All, All-replicate,
}
use os_2024_operatingstress.Strings.{Memory}
use os_2024_operatingstress.Disk.{Storage, read_blocks}
use os_2024_operatingstress.Disk.Invariant.{IsStorage}
use os_2024_operatingstress.Fat32.Types.{IsEntry}
use os_2024_operatingstress.Fat32.Driver.{DriverState, load_bytes, store_bytes}
use os_2024_operatingstress.Fat32.Driver.Invariant.{IsState, load_bytes-Bytes}
use os_2024_operatingstress.Fat32.Memory.{load_bytes-store_bytes}
use os_2024_operatingstress.Fat32.Init.{zero_table}
use os_2024_operatingstress.Inserter.{Host, storage_size, image_blocks, read_target}

-- `fread` of one element stores it whole where the file has that many bytes; where the file is
-- shorter, what it leaves in the place of the element is indeterminate, so nothing is said of it.
-- In either case memory outside the element is as before, and memory holds bytes. Files and the
-- heap hold bytes, and the two buffers of `malloc` do not overlap.
pub record IsHost (h : Host) : Type 0 where
  pub fread_whole :
      (m : Memory) (p n : ℕ) (bs : List ℕ)
      → n ≤ length bs
      → h.fread m p n bs ≡ store_bytes m p (take n bs)
  pub fread_apart :
      (m : Memory) (p n : ℕ) (bs : List ℕ) (a : ℕ)
      → (a < p) ⊎ (p + n ≤ a)
      → h.fread m p n bs a ≡ m a
  pub fread_bytes :
      (m : Memory) (p n : ℕ) (bs : List ℕ)
      → ((a : ℕ) → m a < 256)
      → All (λ b. b < 256) bs
      → (a : ℕ) → h.fread m p n bs a < 256
  pub file_bytes : (path bs : List ℕ) → h.open_read path ≡ some bs → All (λ b. b < 256) bs
  pub heap_bytes : (a : ℕ) → h.heap a < 256
  pub apart :
      (h.image_storage + storage_size ≤ h.file_buffer)
      ⊎ (h.file_buffer + storage_size ≤ h.image_storage)

-- As many bytes as the program has, from what `fread` leaves in `file_buffer` on.
abbrev pub buffered : Host → List ℕ → List ℕ → List ℕ
buffered h image program =
    load_bytes
      (h.fread (h.fread h.heap h.image_storage storage_size image) h.file_buffer storage_size
        program)
      h.file_buffer (length program)

pub buffered-size :
    (h : Host)
    → IsHost h
    → (image program : List ℕ) → All (λ b. b < 256) image
    → All (λ b. b < 256) program
    → length (buffered h image program) ≡ length program
buffered-size h v image program bi bp =
    (load_bytes-Bytes (length program) _ h.file_buffer (
      v.fread_bytes _ h.file_buffer storage_size program
        (v.fread_bytes h.heap h.image_storage storage_size image v.heap_bytes bi) bp)).0

-- Memories that agree on a range have the same bytes there.
load_bytes_same :
    (n p : ℕ) (m m' : Memory)
    → ((a : ℕ) → p ≤ a → a < p + n → m a ≡ m' a)
    → load_bytes m p n ≡ load_bytes m' p n
unfolding load_bytes
load_bytes_same zero p m m' h = refl
load_bytes_same (suc n) p m m' h =
    ap₂ ◌∷◌ (h p (omega arith) (omega arith))
      (load_bytes_same n (p + 1) m m' (λ a lo hi. h a (omega arith) (omega arith)))

take-short : (n : ℕ) (bs : List ℕ) → length bs ≤ n → take n bs ≡ bs
take-short zero [] v = refl
take-short zero (b ∷ bs) v = ground (arith, v)
take-short (suc n) [] v = refl
take-short (suc n) (b ∷ bs) v = ap (λ l. b ∷ l) (take-short n bs (omega arith))

drop-append_add : (xs ys : List ℕ) (n : ℕ) → drop (length xs + n) (xs ++ ys) ≡ drop n ys
drop-append_add [] ys n = ap (λ k. drop k ys) {x = 0 + n} {y = n} (omega arith)
drop-append_add (x ∷ xs) ys n =
    ap (λ k. drop k (x ∷ xs ++ ys)) {x = length (x ∷ xs) + n} {y = suc (length xs + n)}
      (omega arith)
    ∙ drop-append_add xs ys n

-- Block `b` of the bytes that are read from a disk is the disk's block `b`.
pub image-block :
    (n lba b : ℕ) (d : Storage)
    → IsStorage d
    → b < n
    → take 512 (drop (512 * b) (read_blocks d lba n)) ≡ d (lba + b)
unfolding read_blocks
image-block zero lba b d v lt = elim lt [ ]
image-block (suc n) lba zero d v lt =
    take-append (d lba) _ 512 (v.size lba) ∙ ap d {x = lba} {y = lba + 0} (omega arith)
image-block (suc n) lba (suc b) d v lt =
    let at : 512 * suc b ≡ length (d lba) + 512 * b = omega (arith, v.size lba) in
    ap (λ k. take 512 (drop k (d lba ++ read_blocks d (lba + 1) n))) at
    ∙ ap (take 512) (drop-append_add (d lba) (read_blocks d (lba + 1) n) (512 * b))
    ∙ image-block n (lba + 1) b d v (omega arith)
    ∙ ap d {x = lba + 1 + b} {y = lba + suc b} (omega arith)

module _ (h : Host) (v : IsHost h) (image program target storage : List ℕ)
    (is_image : h.open_read storage ≡ some image) (is_program : h.open_read target ≡ some program)
    (image_size : length image ≡ 4194304) (program_size : length program ≤ 4194304) where
  -- The memory after the image is read, and after both files are.
  abbrev pub with_image : Memory
  with_image = h.fread h.heap h.image_storage storage_size image

  abbrev pub loaded : Memory
  loaded = h.fread with_image h.file_buffer storage_size program

  pub loaded_lem : read_target h target with_image ≡ (loaded, length program)
  unfolding read_target
  loaded_lem = rw (read_target, is_program) refl

  pub loaded-byte : (a : ℕ) → loaded a < 256
  loaded-byte =
      v.fread_bytes with_image h.file_buffer storage_size program
        (v.fread_bytes h.heap h.image_storage storage_size image v.heap_bytes
          (v.file_bytes storage image is_image))
        (v.file_bytes target program is_program)

  pub image_blocks-IsStorage : IsStorage (image_blocks h loaded)
  unfolding image_blocks
  image_blocks-IsStorage = record {
    size = λ b. (load_bytes-Bytes 512 loaded (h.image_storage + 512 * b) loaded-byte).0;
    bytes = λ b. (load_bytes-Bytes 512 loaded (h.image_storage + 512 * b) loaded-byte).1;
  }

  -- The first block is that of the image.
  pub first_block : image_blocks h loaded 0 ≡ take 512 image
  unfolding image_blocks
  first_block =
      let apart = v.apart in
      let whole : with_image ≡ store_bytes h.heap h.image_storage image =
        v.fread_whole h.heap h.image_storage storage_size image (omega arith)
        ∙ ap (store_bytes h.heap h.image_storage) (take-short storage_size image (omega arith)) in
      ap (λ p. load_bytes loaded p 512) {x = h.image_storage + 512 * 0} {y = h.image_storage}
        (omega arith)
      ∙ (load_bytes_same 512 h.image_storage loaded with_image (λ a lo hi.
            v.fread_apart with_image h.file_buffer storage_size program a (ground arith))
          ∙ (ap (λ m. load_bytes m h.image_storage 512) whole
              ∙ load_bytes-store_bytes 512 h.heap h.image_storage image (omega arith)))

  -- The state before the file system is initialised.
  abbrev pub static_state : DriverState
  static_state = record {
    memory = loaded;
    disk = image_blocks h loaded;
    fat_table = replicate 512 0;
    dir_table_buf = zero_table;
  }

  pub static_state-IsState : IsState static_state
  static_state-IsState = record {
    memory = loaded-byte;
    disk = image_blocks-IsStorage;
    fat = record { size = refl; entries = All-replicate (λ x. x < 2 ^ 32) 512 (omega arith) };
    table = record { size = refl; entries = All-replicate IsEntry 64 (omega arith) };
  }
