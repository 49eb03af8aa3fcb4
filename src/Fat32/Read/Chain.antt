-- ===== src/Fat32/Read/Chain.antt =====
-- The loop of `read` follows a chain to its end and delivers its bytes.
use os_2024_operatingstress.Base.{
  ℕ, suc, ◌+◌, ◌*◌, ◌%◌, ◌^◌, ◌<◌, ◌≡◌, refl, ap, ◌∙◌, false, some, List, [], ◌∷◌, arith, leb,
  length, get_elem?, All,
}
use mathlib.Core.List.{append-nil}
use os_2024_operatingstress.Disk.Invariant.{IsStorage}
use os_2024_operatingstress.Fat32.Links.{Links, contents}
use os_2024_operatingstress.Fat32.Memory.{store_bytes-append}
use os_2024_operatingstress.Fat32.Driver.{DriverState, read_clusters, store_bytes}
use os_2024_operatingstress.Fat32.Driver.Invariant.{read_clusters-Bytes}
use os_2024_operatingstress.Fat32.Read.{read_chain, load_cluster}

chain_end :
    (n j c buf : ℕ) (s : DriverState)
    → get_elem? s.fat_table c ≡ some 0x0FFFFFFF
    → read_chain (suc n) j c buf s ≡ some (load_cluster (buf + j * 2048) c s)
unfolding read_chain
chain_end n j c buf s h = ground (arith, h)

chain_next :
    (n j c d buf : ℕ) (s : DriverState)
    → get_elem? s.fat_table c ≡ some d
    → d < 512
    → read_chain (suc n) j c buf s ≡ read_chain n (j + 1) d buf (load_cluster (buf + j * 2048) c s)
unfolding read_chain
chain_next n j c d buf s h lt =
    let low : d % 2 ^ 16 ≡ d = omega arith in
    let go : leb 0xFFF8 (d % 2 ^ 16) ≡ false = ground arith in rw (h, read_chain, go, low) refl

-- With a round for each cluster of a chain the bytes of the chain end up at the buffer.
pub read_chain_lem :
    (cs : List ℕ) (c j buf : ℕ) (s : DriverState)
    → IsStorage s.disk
    → All (λ k. k < 512) (c ∷ cs)
    → Links s.fat_table (c ∷ cs)
    → read_chain (suc (length cs)) j c buf s
      ≡ some
          (record s { memory = store_bytes s.memory (buf + j * 2048) (contents s.disk (c ∷ cs)) })
read_chain_lem [] c j buf s v lt h = rw (chain_end 0 j c buf s h, append-nil) refl
read_chain_lem (d ∷ cs) c j buf s v lt h =
    let loaded : DriverState = load_cluster (buf + j * 2048) c s in
    let size : length (read_clusters s.disk c) ≡ 2048 = (read_clusters-Bytes s.disk c v).0 in
    let at : buf + (j + 1) * 2048 ≡ buf + j * 2048 + length (read_clusters s.disk c) =
      omega (arith, size) in
    chain_next (suc (length cs)) j c d buf s h.0 lt.1.0
    ∙ (read_chain_lem cs d (j + 1) buf loaded v lt.1 h.1
        ∙ ap (λ m. some (record s { memory = m }))
            (ap (λ p. store_bytes loaded.memory p (contents s.disk (d ∷ cs))) at
              ∙ store_bytes-append s.memory (buf + j * 2048) (read_clusters s.disk c)
                  (contents s.disk (d ∷ cs))))
