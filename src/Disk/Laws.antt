-- ===== src/Disk/Laws.antt =====
-- Reading back what was written, block by block.
use os_2024_operatingstress.Base.{
  ℕ, zero, suc, ◌+◌, ◌*◌, ◌≤◌, ◌<◌, ◌≡◌, refl, ◌⊎◌, List, ◌++◌, arith, take, drop, length,
  length-drop, take-append-drop, eq-nil, ap₂, ◌∙◌,
}
use os_2024_operatingstress.Disk.{Storage, block_size, store_block, read_blocks, write_blocks}

-- A block before or behind the written range keeps its bytes.
pub write_blocks_outside :
    (n lba b : ℕ) (d : Storage) (bs : List ℕ)
    → (b < lba) ⊎ (lba + n ≤ b)
    → write_blocks d lba n bs b ≡ d b
unfolding write_blocks
write_blocks_outside zero lba b d bs h = refl
write_blocks_outside (suc n) lba b d bs h = ground (
  arith,
  write_blocks_outside n (lba + 1) b (store_block d lba (take block_size bs)) (drop block_size bs)
      (ground arith),
)

pub read_blocks_cong :
    (n lba : ℕ) (d e : Storage)
    → ((b : ℕ) → lba ≤ b → b < lba + n → d b ≡ e b)
    → read_blocks d lba n ≡ read_blocks e lba n
unfolding read_blocks
read_blocks_cong zero lba d e h = refl
read_blocks_cong (suc n) lba d e h =
    ap₂ ◌++◌ (h lba (omega arith) (omega arith))
      (read_blocks_cong n (lba + 1) d e (λ b p q. h b (omega arith) (omega arith)))

store_block_self : (d : Storage) (lba : ℕ) (bs : List ℕ) → store_block d lba bs lba ≡ bs
store_block_self d lba bs = ground arith

-- Reading back a written range of blocks gives the bytes written, if they are 512 for each block.
pub read_blocks-write_blocks :
    (n lba : ℕ) (d : Storage) (bs : List ℕ)
    → length bs ≡ n * 512
    → read_blocks (write_blocks d lba n bs) lba n ≡ bs
unfolding read_blocks write_blocks
read_blocks-write_blocks zero lba d bs h = rw (eq-nil bs h)
read_blocks-write_blocks (suc n) lba d bs h =
    ap₂ ◌++◌ (first ∙ here) (
      read_blocks-write_blocks n (lba + 1) (store_block d lba (take 512 bs)) (drop 512 bs)
        (omega (arith, length-drop 512 bs)))
    ∙ take-append-drop 512 bs
  where
    rest : Storage
    rest = write_blocks (store_block d lba (take 512 bs)) (lba + 1) n (drop 512 bs)

    first : rest lba ≡ store_block d lba (take 512 bs) lba
    first =
        write_blocks_outside n (lba + 1) lba (store_block d lba (take 512 bs)) (drop 512 bs)
          (ground arith)

    here : store_block d lba (take 512 bs) lba ≡ take 512 bs
    here = store_block_self d lba (take 512 bs)

-- Writing one range leaves what is read from a range apart from it.
pub read_blocks_apart :
    (n lba k lba' : ℕ) (d : Storage) (bs : List ℕ)
    → (lba' + k ≤ lba) ⊎ (lba + n ≤ lba')
    → read_blocks (write_blocks d lba n bs) lba' k ≡ read_blocks d lba' k
read_blocks_apart n lba k lba' d bs h =
    read_blocks_cong k lba' (write_blocks d lba n bs) d
      (λ b p q. write_blocks_outside n lba b d bs (ground arith))
