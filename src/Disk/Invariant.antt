-- ===== src/Disk/Invariant.antt =====
-- Every block of a disk is 512 bytes, and reading and writing keep to that.
use os_2024_operatingstress.Base.{
  ℕ, zero, suc, ◌+◌, ◌*◌, ◌<◌, ◌≡◌, refl, List, ◌==◌, arith, Bool-cases, inl, inr, take, drop,
  length, length-take, length-drop, length-append, All, All-take, All-drop, All-append,
}
use os_2024_operatingstress.Disk.{Storage, store_block, read_blocks, write_blocks}

pub record IsStorage (d : Storage) : Type 0 where
  pub size : (b : ℕ) → length (d b) ≡ 512
  pub bytes : (b : ℕ) → All (λ x. x < 256) (d b)

pub store_block-IsStorage :
    (d : Storage) (lba : ℕ) (bs : List ℕ)
    → length bs ≡ 512
    → All (λ x. x < 256) bs
    → IsStorage d
    → IsStorage (store_block d lba bs)
store_block-IsStorage d lba bs n h v = record {
  size = λ b. elim (Bool-cases (b == lba)) [ inl e ↦ rw e n | inr e ↦ rw e (v.size b) ];
  bytes = λ b. elim (Bool-cases (b == lba)) [ inl e ↦ rw e h | inr e ↦ rw e (v.bytes b) ];
}

pub read_blocks-bytes :
    (n lba : ℕ) (d : Storage)
    → IsStorage d
    → (length (read_blocks d lba n) ≡ n * 512) × All (λ x. x < 256) (read_blocks d lba n)
unfolding read_blocks
read_blocks-bytes zero lba d v = (refl, tt)
read_blocks-bytes (suc n) lba d v =
    let ih = read_blocks-bytes n (lba + 1) d v in
    (
      omega (arith, length-append (d lba) (read_blocks d (lba + 1) n), v.size lba),
      All-append (λ x. x < 256) (d lba) (read_blocks d (lba + 1) n) (v.bytes lba) ih.1,
    )

pub write_blocks-IsStorage :
    (n lba : ℕ) (d : Storage) (bs : List ℕ)
    → length bs ≡ n * 512
    → All (λ x. x < 256) bs
    → IsStorage d
    → IsStorage (write_blocks d lba n bs)
unfolding write_blocks
write_blocks-IsStorage zero lba d bs k h v = v
write_blocks-IsStorage (suc n) lba d bs k h v =
    write_blocks-IsStorage n (lba + 1) (store_block d lba (take 512 bs)) (drop 512 bs)
      (omega (arith, length-drop 512 bs)) (All-drop (λ x. x < 256) 512 bs h)
      (store_block-IsStorage d lba (take 512 bs) (length-take 512 bs (omega arith))
        (All-take (λ x. x < 256) 512 bs h) v)
