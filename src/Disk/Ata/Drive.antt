-- ===== src/Disk/Ata/Drive.antt =====
-- The drive behind the ports: with one that follows the ATA command set, the driver of src/disk.c
-- reads and writes the blocks of the storage that the file system stands on.
mod Tests
use os_2024_operatingstress.Base.{
  ℕ, zero, suc, ◌+◌, ◌-◌, ◌*◌, ◌/◌, ◌%◌, ◌^◌, ◌≤◌, ◌<◌, bit_and, bit_or, ◌≡◌, refl, sym, ap, ap₂,
  ◌∙◌, fun_ext, subst, ◌≢◌, ◌↔◌, ◌⊎◌, inl, inr, Bool, true, false, not, ◌&&◌, ◌||◌, Option, none,
  some, List, [], ◌∷◌, ◌++◌, map, arith, ℤ, pos, negsuc, ltb, leb, ◌==◌, if◌then◌else◌, ltb→lt,
  lt→ltb, ==_iff, Bool-cases, Option-cases, Ends, Ends-some, Ends-bind, Ends-if, ◌>>=◌, length,
  get_elem?, get_or, set, take, drop, replicate, length-append, length-set, length-drop,
  length-take, length-replicate, take-append-drop, take-append, drop-append, take_all, eq-nil,
  get_elem?-set_self, get_elem?-set_ne, get_elem?-some, lt-length_of_some, All, All-set, All-get,
  All-append, All-get_or, All-front, All-back, All-take, All-drop, All-replicate, take-set_self,
  take-set_ge, take-append_le, All-map, set-set, split-set, split-get_elem?, All-below,
  get_elem?-ext, get_elem?-set,
}
use mathlib.Core.List.{append_assoc}
use os_2024_operatingstress.Disk
use os_2024_operatingstress.Disk.{Storage}
use os_2024_operatingstress.Disk.Invariant.{IsStorage, read_blocks-bytes}
use os_2024_operatingstress.Disk.Ata.{Port, issue, read_blocks, write_blocks}
use os_2024_operatingstress.Disk.Ata.Laws.{
  IsReady, words_out, words_from, write_blocks_sends, read_blocks_receives, issue_lem,
}

-- The data port carries two bytes in a word, the first one low.
abbrev pub words_of : List ℕ → List ℕ
words_of [] = []
words_of (a ∷ []) = a ∷ []
words_of (a ∷ b ∷ bs) = (a + 256 * b) ∷ words_of bs

abbrev pub bytes_of : List ℕ → List ℕ
bytes_of [] = []
bytes_of (w ∷ ws) = (w % 256) ∷ (w / 256) ∷ bytes_of ws

-- The six writes of a command, with the four parts of the block address.
abbrev pub registers : ℕ → ℕ → ℕ → ℕ → ℕ → ℕ → List (ℕ × ℕ)
registers b0 b1 b2 b3 n command =
    (0x1F6, 0xE0 + b3)
    ∷ (0x1F2, n)
    ∷ (0x1F3, b0)
    ∷ (0x1F4, b1)
    ∷ (0x1F5, b2)
    ∷ (0x1F7, command)
    ∷ []

abbrev pub address : ℕ → ℕ → ℕ → ℕ → ℕ
address b0 b1 b2 b3 = b0 + 2 ^ 8 * b1 + 2 ^ 16 * b2 + 2 ^ 24 * b3

-- A drive: what the writes to its ports make of its blocks, and the words that it delivers at the
-- data port after the writes of a command. The laws are those of READ SECTORS and WRITE SECTORS.
pub record Drive : Type 0 where
  pub obey : List (ℕ × ℕ) → Storage → Storage
  pub serve : List (ℕ × ℕ) → Storage → ℕ → ℕ
  pub write_sectors :
      (b0 b1 b2 b3 n : ℕ) (ws : List ℕ) (d : Storage)
      → b3 < 16
      → 0 < n
      → n < 256
      → length ws ≡ n * 256
      → obey (registers b0 b1 b2 b3 n 0x30 ++ words_out ws) d
        ≡ Disk.write_blocks d (address b0 b1 b2 b3) n (bytes_of ws)
  pub read_sectors :
      (b0 b1 b2 b3 n k : ℕ) (d : Storage)
      → b3 < 16
      → 0 < n
      → n < 256
      → k < n * 256
      → serve (registers b0 b1 b2 b3 n 0x20) d k
        ≡ get_or (words_of (Disk.read_blocks d (address b0 b1 b2 b3) n)) k 0

-- What the driver sends to start a transfer.
abbrev pub command : ℕ → ℕ → ℕ → List (ℕ × ℕ)
command lba n c = (issue lba n c (record { polls = 0; taken = 0; outs = [] })).outs

issue_outs : (lba n c : ℕ) (p : Port) → (issue lba n c p).outs ≡ p.outs ++ command lba n c
unfolding issue
issue_outs lba n c p = simp append_assoc

command_lem :
    (lba n c : ℕ)
    → lba < 2 ^ 28
    → (b0 b1 b2 b3 : ℕ) × (command lba n c ≡ registers b0 b1 b2 b3 n c)
      × (lba ≡ address b0 b1 b2 b3)
      × (b3 < 16)
command_lem lba n c h = (
  lba % 256,
  lba / 2 ^ 8 % 256,
  lba / 2 ^ 16 % 256,
  lba / 2 ^ 24 % 16,
  issue_lem lba n c (record { polls = 0; taken = 0; outs = [] }),
  omega arith,
  omega arith,
)

-- READ SECTORS for `n` blocks from `lba` on.
abbrev pub read_command : ℕ → ℕ → List (ℕ × ℕ)
read_command lba n =
    registers (lba % 256) (lba / 2 ^ 8 % 256) (lba / 2 ^ 16 % 256) (lba / 2 ^ 24) n 0x20

read_command_lem : (lba n : ℕ) → lba < 2 ^ 28 → command lba n 0x20 ≡ read_command lba n
read_command_lem lba n h =
    let top : lba / 2 ^ 24 % 16 ≡ lba / 2 ^ 24 = omega arith in
    issue_lem lba n 0x20 (record { polls = 0; taken = 0; outs = [] })
    ∙ ap (λ b3. registers (lba % 256) (lba / 2 ^ 8 % 256) (lba / 2 ^ 16 % 256) b3 n 0x20) top

bytes_of-words_of :
    (n : ℕ) (bs : List ℕ)
    → length bs ≡ n * 512
    → All (λ b. b < 256) bs
    → (bytes_of (words_of bs) ≡ bs) × (length (words_of bs) ≡ n * 256)
bytes_of-words_of n bs size v = even (n * 256) bs (omega arith) v
  where
    even :
        (m : ℕ) (bs : List ℕ)
        → length bs ≡ 2 * m
        → All (λ b. b < 256) bs
        → (bytes_of (words_of bs) ≡ bs) × (length (words_of bs) ≡ m)
    even m [] size v = (refl, omega arith)
    even m (a ∷ []) size v = absurd (omega arith)
    even m (a ∷ b ∷ bs) size v =
        let ih = even (m - 1) bs (omega arith) v.1.1 in
        let lo : (a + 256 * b) % 256 ≡ a = let x = v.0 in omega arith in
        let hi : (a + 256 * b) / 256 ≡ b = let x = v.0 in omega arith in
        (ap₂ ◌∷◌ lo (ap₂ ◌∷◌ hi ih.0), omega (arith, ih.1))

-- Words that agree with a list one by one are that list.
words_from-list :
    (word : ℕ → ℕ) (i : ℕ) (ws : List ℕ)
    → ((k : ℕ) → k < length ws → word (i + k) ≡ get_or ws k 0)
    → words_from word i (length ws) ≡ ws
unfolding words_from
words_from-list word i [] h = refl
words_from-list word i (w ∷ ws) h =
    let here : i ≡ i + 0 = omega arith in
    ap₂ ◌∷◌ (ap word here ∙ h 0 (omega arith)) (
      words_from-list word (i + 1) ws λ k lt.
        let next : i + 1 + k ≡ i + suc k = omega arith in ap word next ∙ h (suc k) (omega arith))

module _ (drive : Drive) (status word : ℕ → ℕ) (v : IsReady status) where
  -- On a drive that is ready at every poll, for a block address below 2 ^ 28 and 1 to 255 blocks of
  -- bytes: `write_blocks` of src/disk.c returns, and what it has sent makes of the drive's blocks
  -- what `write_blocks` of the storage does.
  pub write_blocks_refines :
      (d : Storage) (fuel lba n : ℕ) (bs : List ℕ) (p : Port)
      → lba < 2 ^ 28
      → 0 < n
      → n < 256
      → length bs ≡ n * 512
      → All (λ b. b < 256) bs
      → (p' : Port) × (sent : List (ℕ × ℕ)) × (write_blocks status word
            (suc fuel)
            lba
            n
            (words_of bs)
            p
          ≡ some p')
        × (p'.outs ≡ p.outs ++ sent)
        × (drive.obey sent d ≡ Disk.write_blocks d lba n bs)
  write_blocks_refines d fuel lba n bs p low some_blocks few size bytes =
      let (back, count) = bytes_of-words_of n bs size bytes in
      let (p', run, outs) = write_blocks_sends status word v fuel lba n (words_of bs) p count in
      let (b0, b1, b2, b3, cmd, at, top) = command_lem lba n 0x30 low in
      (
        p',
        command lba n 0x30 ++ words_out (words_of bs),
        run,
        outs
            ∙ (ap (λ l. l ++ words_out (words_of bs)) (issue_outs lba n 0x30 p)
                ∙ append_assoc p.outs (command lba n 0x30) (words_out (words_of bs))),
        ap (λ l. drive.obey (l ++ words_out (words_of bs)) d) cmd
            ∙ (drive.write_sectors b0 b1 b2 b3 n (words_of bs) d top some_blocks few count
                ∙ ap₂ (λ a l. Disk.write_blocks d a n l) (sym at) back),
      )

  -- On a drive that is ready at every poll and delivers the words that it serves for READ SECTORS
  -- at the block address, below 2 ^ 28, for 1 to 255 blocks of a well-formed storage: `read_blocks`
  -- of src/disk.c returns, what it has sent is that command and no more, and its words hold the
  -- bytes that `read_blocks` of the storage gives.
  pub read_blocks_refines :
      (d : Storage) (fuel lba n : ℕ) (p : Port)
      → IsStorage d
      → lba < 2 ^ 28
      → 0 < n
      → n < 256
      → ((k : ℕ) → k < n * 256 → word (p.taken + k) ≡ drive.serve (read_command lba n) d k)
      → (ws : List ℕ) × (p' : Port) × (read_blocks status word (suc fuel) lba n p ≡ some (ws, p'))
        × (p'.outs ≡ p.outs ++ read_command lba n)
        × (bytes_of ws ≡ Disk.read_blocks d lba n)
  read_blocks_refines d fuel lba n p stored low some_blocks few serves =
      let (p', run, sent) = read_blocks_receives status word v fuel lba n p in
      let (size, bytes) = read_blocks-bytes n lba d stored in
      let (back, count) =
        bytes_of-words_of n (Disk.read_blocks d lba n) (omega (arith, size)) bytes in
      let b3 = lba / 2 ^ 24 in
      let at : lba ≡ address (lba % 256) (lba / 2 ^ 8 % 256) (lba / 2 ^ 16 % 256) b3 =
        omega arith in
      let ws : List ℕ = words_of (Disk.read_blocks d lba n) in
      (
        ws,
        p',
        run
            ∙ ap (λ l. some (l, p'))
                (ap (words_from word p.taken) (sym count)
                  ∙ words_from-list word p.taken ws λ k lt.
                    serves k (omega (arith, count))
                    ∙ (drive.read_sectors (lba % 256) (lba / 2 ^ 8 % 256) (lba / 2 ^ 16 % 256) b3 n
                          k d (omega arith) some_blocks few (omega (arith, count))
                        ∙ ap (λ a. get_or (words_of (Disk.read_blocks d a n)) k 0) (sym at))),
        sent ∙ (issue_outs lba n 0x20 p ∙ ap (λ l. p.outs ++ l) (read_command_lem lba n low)),
        back,
      )
