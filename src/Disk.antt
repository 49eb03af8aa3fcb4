-- ===== src/Disk.antt =====
-- The disk behind `read_blocks` and `write_blocks`, as src/external/external-inserter.c implements
-- them over an image in memory: a function from block numbers to blocks of BLOCK_SIZE bytes. The
-- driver of src/disk.c is in `Ata`.
pub mod Ata
pub mod Laws
pub mod Invariant
use os_2024_operatingstress.Base.{
  ℕ, zero, suc, ◌+◌, List, [], ◌++◌, ◌==◌, if◌then◌else◌, take, drop,
}

abbrev pub block_size : ℕ
block_size = 512

-- `image_storage`, one block of `block_size` bytes for each logical block address.
abbrev pub Storage : Type 0
Storage = ℕ → List ℕ

abbrev pub store_block : Storage → ℕ → List ℕ → Storage
store_block d lba bs b = if b == lba then bs else d b

-- The bytes that end up at `ptr`: `block_count` blocks from `lba` on.
unfoldable pub read_blocks : Storage → ℕ → ℕ → List ℕ
read_blocks d lba zero = []
read_blocks d lba (suc block_count) = d lba ++ read_blocks d (lba + 1) block_count

-- `bs` are the bytes from `ptr` on.
unfoldable pub write_blocks : Storage → ℕ → ℕ → List ℕ → Storage
write_blocks d lba zero bs = d
write_blocks d lba (suc block_count) bs =
    write_blocks (store_block d lba (take block_size bs)) (lba + 1) block_count (drop block_size bs)
