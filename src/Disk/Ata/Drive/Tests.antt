-- ===== src/Disk/Ata/Drive/Tests.antt =====
-- A drive that decodes the writes to its ports, and the driver's theorems on it.
use os_2024_operatingstress.Base.{
  ℕ, ◌+◌, ◌%◌, ◌<◌, ◌≡◌, refl, ap, ap₂, some, List, [], ◌∷◌, ◌++◌, arith, get_or, replicate,
  All-replicate,
}
use os_2024_operatingstress.Disk
use os_2024_operatingstress.Disk.{Storage}
use os_2024_operatingstress.Disk.Invariant.{IsStorage}
use os_2024_operatingstress.Disk.Ata.{Port, read_blocks, write_blocks}
use os_2024_operatingstress.Disk.Ata.Laws.{IsReady, words_out}
use os_2024_operatingstress.Disk.Ata.Drive.{
  Drive, words_of, bytes_of, address, read_command, write_blocks_refines, read_blocks_refines,
}

-- The values written to a port.
abbrev values : List (ℕ × ℕ) → List ℕ
values [] = []
values ((port, value) ∷ outs) = value ∷ values outs

abbrev obey : List (ℕ × ℕ) → Storage → Storage
obey (h ∷ n ∷ b0 ∷ b1 ∷ b2 ∷ c ∷ ws) d =
    Disk.write_blocks d (address b0.1 b1.1 b2.1 (h.1 % 16)) n.1 (bytes_of (values ws))
obey outs d = d

abbrev serve : List (ℕ × ℕ) → Storage → ℕ → ℕ
serve (h ∷ n ∷ b0 ∷ b1 ∷ b2 ∷ c ∷ ws) d k =
    get_or (words_of (Disk.read_blocks d (address b0.1 b1.1 b2.1 (h.1 % 16)) n.1)) k 0
serve outs d k = 0

values-words_out : (ws : List ℕ) → values (words_out ws) ≡ ws
values-words_out [] = refl
values-words_out (w ∷ ws) = ap (λ l. w ∷ l) (values-words_out ws)

top : (b3 : ℕ) → b3 < 16 → (0xE0 + b3) % 16 ≡ b3
top b3 h = omega arith

abbrev drive : Drive
drive = record {
  obey = obey;
  serve = serve;
  write_sectors = λ b0 b1 b2 b3 n ws d h lo hi size.
      ap₂ (λ b l. Disk.write_blocks d (address b0 b1 b2 b) n (bytes_of l)) (top b3 h)
        (values-words_out ws);
  read_sectors = λ b0 b1 b2 b3 n k d h lo hi lt.
      ap (λ b. get_or (words_of (Disk.read_blocks d (address b0 b1 b2 b) n)) k 0) (top b3 h);
}

abbrev ready : ℕ → ℕ
ready k = 0x50

ready-IsReady : IsReady ready
ready-IsReady = record { idle = λ k. refl; ready = λ k. omega arith }

abbrev start : Port
start = record { polls = 0; taken = 0; outs = [] }

abbrev blank : Storage
blank b = replicate 512 0

blank-IsStorage : IsStorage blank
blank-IsStorage = record {
  size = λ b. refl;
  bytes = λ b. All-replicate (λ x. x < 256) 512 (omega arith);
}

write_blocks_refines_example :
    (p' : Port) × (sent : List (ℕ × ℕ)) × (write_blocks ready
        (λ k. 0)
        1
        70000
        2
        (words_of (replicate 1024 7))
        start
      ≡ some p')
    × (p'.outs ≡ [] ++ sent)
    × (obey sent blank ≡ Disk.write_blocks blank 70000 2 (replicate 1024 7))
write_blocks_refines_example =
    write_blocks_refines drive ready (λ k. 0) ready-IsReady blank 0 70000 2 (replicate 1024 7) start
      (omega arith) (omega arith) (omega arith) refl
      (All-replicate (λ b. b < 256) 1024 (omega arith))

-- The port delivers what the drive serves for the two blocks from 70000 on.
abbrev served : ℕ → ℕ
served k = serve (read_command 70000 2) blank k

read_blocks_refines_example :
    (ws : List ℕ) × (p' : Port) × (read_blocks ready served 1 70000 2 start ≡ some (ws, p'))
    × (p'.outs ≡ [] ++ read_command 70000 2)
    × (bytes_of ws ≡ Disk.read_blocks blank 70000 2)
read_blocks_refines_example =
    read_blocks_refines drive ready served ready-IsReady blank 0 70000 2 start blank-IsStorage
      (omega arith) (omega arith) (omega arith)
      λ k lt. let at : 0 + k ≡ k = omega arith in ap served at
