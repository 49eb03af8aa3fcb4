-- ===== src/Disk/Ata/Laws.antt =====
-- With a device that is always ready, the driver of src/disk.c moves every word, in order.
use os_2024_operatingstress.Base.{
  ℕ, zero, suc, ◌+◌, ◌*◌, ◌/◌, ◌%◌, ◌^◌, ◌≤◌, ◌<◌, bit_and, bit_or, ◌≡◌, refl, sym, ap, ap₂, ◌∙◌,
  ◌≢◌, false, some, List, [], ◌∷◌, ◌++◌, arith, ◌==◌, length, take, drop, length-drop,
  take-append-drop, eq-nil,
}
use mathlib.Core.List.{append_assoc, append-nil}
use os_2024_operatingstress.Base.Bits.{bit_or_step}
use os_2024_operatingstress.Disk.Ata.{
  Port, send, issue, ata_busy_wait, ata_drq_wait, take_words, put_words, read_loop, write_loop,
  read_blocks, write_blocks,
}

-- Not busy, and ready, at every poll.
pub record IsReady (status : ℕ → ℕ) : Type 0 where
  pub idle : (k : ℕ) → bit_and (status k) 0x80 ≡ 0
  pub ready : (k : ℕ) → bit_and (status k) 0x40 ≢ 0

-- The words of `ws` as writes to the data port.
abbrev pub words_out : List ℕ → List (ℕ × ℕ)
words_out [] = []
words_out (w ∷ ws) = (0x1F0, w) ∷ words_out ws

words_out-append : (xs ys : List ℕ) → words_out (xs ++ ys) ≡ words_out xs ++ words_out ys
words_out-append [] ys = refl
words_out-append (x ∷ xs) ys = ap (λ l. (0x1F0, x) ∷ l) (words_out-append xs ys)

-- The words that the data port delivers from the `i`-th on, `n` of them.
unfoldable pub words_from : (ℕ → ℕ) → ℕ → ℕ → List ℕ
words_from word i zero = []
words_from word i (suc n) = word i ∷ words_from word (i + 1) n

words_from-append :
    (word : ℕ → ℕ) (m n i : ℕ)
    → words_from word i m ++ words_from word (i + m) n ≡ words_from word i (m + n)
unfolding words_from
words_from-append word zero n i =
    let here : i + 0 ≡ i = omega arith in
    let count : n ≡ 0 + n = omega arith in
    ap (λ k. words_from word k n) here ∙ ap (words_from word i) count
words_from-append word (suc m) n i =
    let next : i + suc m ≡ i + 1 + m = omega arith in
    let count : suc (m + n) ≡ suc m + n = omega arith in
    ap (λ l. word i ∷ l)
      (ap (λ k. words_from word (i + 1) m ++ words_from word k n) next
        ∙ words_from-append word m n (i + 1))
    ∙ ap (words_from word i) count

-- Bits that do not meet, for the drive register.
or_drive : (x : ℕ) → x < 16 → bit_or 0xE0 x ≡ 0xE0 + x
or_drive x h =
    let none_left : x / 2 / 2 / 2 / 2 ≡ 0 = omega arith in
    omega (
      arith,
      bit_or_step 224 x,
      bit_or_step 112 (x / 2),
      bit_or_step 56 (x / 2 / 2),
      bit_or_step 28 (x / 2 / 2 / 2),
      ap (bit_or 14) none_left,
    )

module _ (status word : ℕ → ℕ) (v : IsReady status) where
  busy-ready :
      (fuel : ℕ) (p : Port)
      → ata_busy_wait status word (suc fuel) p ≡ some (record p { polls = p.polls + 1 })
  unfolding ata_busy_wait
  busy-ready fuel p = rw (v.idle p.polls)

  drq-ready :
      (fuel : ℕ) (p : Port)
      → ata_drq_wait status word (suc fuel) p ≡ some (record p { polls = p.polls + 1 })
  unfolding ata_drq_wait
  drq-ready fuel p =
      let up : (bit_and (status p.polls) 0x40 == 0) ≡ false =
        let r = v.ready p.polls in ground arith in
      rw up

  put_words_outs :
      (n : ℕ) (ws : List ℕ) (p : Port)
      → n ≤ length ws
      → (put_words status word n ws p).outs ≡ p.outs ++ words_out (take n ws)
  unfolding put_words
  put_words_outs zero ws p h = sym (append-nil p.outs)
  put_words_outs (suc n) [] p h = absurd (omega arith)
  put_words_outs (suc n) (w ∷ ws) p h =
      put_words_outs n ws (send 0x1F0 w p) (omega arith)
      ∙ append_assoc p.outs ((0x1F0, w) ∷ []) (words_out (take n ws))

  write_loop_outs :
      (fuel n : ℕ) (ws : List ℕ) (p : Port)
      → length ws ≡ n * 256
      → (p' : Port) × (write_loop status word (suc fuel) n ws p ≡ some p')
        × (p'.outs ≡ p.outs ++ words_out ws)
  unfolding write_loop
  write_loop_outs fuel zero ws p h = (p, refl, rw (eq-nil ws h) (sym (append-nil p.outs)))
  write_loop_outs fuel (suc n) ws p h =
      let p1 : Port = record p { polls = p.polls + 1 } in
      let p2 : Port = record p1 { polls = p1.polls + 1 } in
      let sent : Port = put_words status word 256 ws p2 in
      let (p', run, outs) =
        write_loop_outs fuel n (drop 256 ws) sent (omega (arith, length-drop 256 ws)) in
      (
        p',
        rw (busy-ready fuel p, drq-ready fuel p1) run,
        outs
            ∙ (ap (λ l. l ++ words_out (drop 256 ws)) (put_words_outs 256 ws p2 (omega arith))
                ∙ (append_assoc p.outs (words_out (take 256 ws)) (words_out (drop 256 ws))
                    ∙ ap (λ l. p.outs ++ l)
                        (sym (words_out-append (take 256 ws) (drop 256 ws))
                          ∙ ap words_out (take-append-drop 256 ws)))),
      )

  -- On a device that is ready at every poll one poll for each wait is enough: `write_blocks`
  -- returns, and what it has sent are the six bytes of the command and then exactly the words
  -- given, 256 for each block, in order.
  pub write_blocks_sends :
      (fuel lba n : ℕ) (ws : List ℕ) (p : Port)
      → length ws ≡ n * 256
      → (p' : Port) × (write_blocks status word (suc fuel) lba n ws p ≡ some p')
        × (p'.outs ≡ (issue lba n 0x30 p).outs ++ words_out ws)
  unfolding write_blocks issue
  write_blocks_sends fuel lba n ws p h =
      let p1 : Port = record p { polls = p.polls + 1 } in
      let (p', run, outs) = write_loop_outs fuel n ws (issue lba n 0x30 p1) h in
      (p', rw (busy-ready fuel p) run, outs)

  take_words_lem :
      (n : ℕ) (p : Port)
      → ((take_words status word n p).0 ≡ words_from word p.taken n)
        × ((take_words status word n p).1.taken ≡ p.taken + n)
        × ((take_words status word n p).1.outs ≡ p.outs)
  unfolding take_words words_from
  take_words_lem zero p = (refl, omega arith, refl)
  take_words_lem (suc n) p =
      let ih = take_words_lem n (record p { taken = p.taken + 1 }) in
      (ap (λ l. word p.taken ∷ l) ih.0, omega (arith, ih.1), ih.2)

  read_loop_words :
      (fuel n : ℕ) (p : Port)
      → (p' : Port) × (read_loop status word (suc fuel) n p
          ≡ some (words_from word p.taken (n * 256), p'))
        × (p'.outs ≡ p.outs)
  unfolding read_loop
  read_loop_words fuel zero p = (p, unfold words_from in refl, refl)
  read_loop_words fuel (suc n) p =
      let p1 : Port = record p { polls = p.polls + 1 } in
      let p2 : Port = record p1 { polls = p1.polls + 1 } in
      let got : Port = (take_words status word 256 p2).1 in
      let lem = take_words_lem 256 p2 in
      let (p', run, quiet) = read_loop_words fuel n got in
      let total : 256 + n * 256 ≡ suc n * 256 = omega arith in
      (
        p',
        rw (busy-ready fuel p, drq-ready fuel p1, run)
            (ap (λ l. some (l, p'))
              (ap₂ ◌++◌ lem.0 (ap (λ k. words_from word k (n * 256)) lem.1)
                ∙ (words_from-append word 256 (n * 256) p.taken
                    ∙ ap (words_from word p.taken) total))),
        quiet ∙ lem.2,
      )

  -- On a device that is ready at every poll `read_blocks` returns, with the next 256 words of the
  -- data port for each block, and sends nothing but the command.
  pub read_blocks_receives :
      (fuel lba n : ℕ) (p : Port)
      → (p' : Port) × (read_blocks status word (suc fuel) lba n p
          ≡ some (words_from word p.taken (n * 256), p'))
        × (p'.outs ≡ (issue lba n 0x20 p).outs)
  unfolding read_blocks issue
  read_blocks_receives fuel lba n p =
      let p1 : Port = record p { polls = p.polls + 1 } in
      let (p', run, quiet) = read_loop_words fuel n (issue lba n 0x20 p1) in
      (p', rw (busy-ready fuel p) run, quiet)

-- The registers 0x1F3 to 0x1F6 take the four parts of a block address, the top one
-- with the bits 0xE0 that choose LBA mode and the first drive.
pub issue_lem :
    (lba n command : ℕ) (p : Port)
    → (issue lba n command p).outs
      ≡ (((((p.outs ++ (0x1F6, 0xE0 + lba / 2 ^ 24 % 16) ∷ []) ++ (0x1F2, n) ∷ [])
              ++ (0x1F3, lba % 256) ∷ [])
            ++ (0x1F4, lba / 2 ^ 8 % 256) ∷ [])
          ++ (0x1F5, lba / 2 ^ 16 % 256) ∷ [])
        ++ (0x1F7, command) ∷ []
unfolding issue
issue_lem lba n command p = rw (or_drive (lba / 2 ^ 24 % 16) (omega arith))
