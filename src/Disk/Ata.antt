-- ===== src/Disk/Ata.antt =====
-- The ATA PIO driver of src/disk.c as the port traffic that it makes. The device is a parameter:
-- `status k` is what the `k`-th read of port 0x1F7 returns and `word k` the `k`-th of port 0x1F0.
-- The two busy waits loop until the device is ready, so they run on fuel: `none` is a device that
-- was not ready in so many polls.
pub mod Laws
pub mod Drive
use os_2024_operatingstress.Base.{
  ℕ, zero, suc, ◌+◌, ◌*◌, ◌/◌, ◌%◌, ◌^◌, Option, none, some, List, [], ◌∷◌, ◌++◌, ◌==◌,
  if◌then◌else◌, bit_and, bit_or, ◌>>=◌, drop, get_or,
}

abbrev pub ata_status_bsy : ℕ
ata_status_bsy = 0x80

abbrev pub ata_status_rdy : ℕ
ata_status_rdy = 0x40

abbrev pub half_block_size : ℕ
half_block_size = 256

-- What the driver has done: polls of the status, words read, and bytes and words sent to ports.
pub record Port : Type 0 where
  pub polls : ℕ
  pub taken : ℕ
  pub outs : List (ℕ × ℕ)

abbrev pub send : ℕ → ℕ → Port → Port
send port value p = record p { outs = p.outs ++ (port, value) ∷ [] }

-- The six writes that start a transfer; `command` is 0x20 or 0x30.
unfoldable pub issue : ℕ → ℕ → ℕ → Port → Port
issue logical_block_address block_count command p =
    let lba : ℕ = logical_block_address in
    send 0x1F7 command (
      send 0x1F5 (lba / 2 ^ 16 % 256) (
        send 0x1F4 (lba / 2 ^ 8 % 256) (
          send 0x1F3 (lba % 256)
            (send 0x1F2 block_count (send 0x1F6 (bit_or 0xE0 (lba / 2 ^ 24 % 16)) p)))))

module _ (status word : ℕ → ℕ) where
  pub ata_busy_wait : ℕ → Port → Option Port
  ata_busy_wait zero p = none
  ata_busy_wait (suc fuel) p =
      let polled : Port = record p { polls = p.polls + 1 } in
      let again = ata_busy_wait fuel polled in
      if bit_and (status p.polls) ata_status_bsy == 0 then some polled else again

  pub ata_drq_wait : ℕ → Port → Option Port
  ata_drq_wait zero p = none
  ata_drq_wait (suc fuel) p =
      let polled : Port = record p { polls = p.polls + 1 } in
      let again = ata_drq_wait fuel polled in
      if bit_and (status p.polls) ata_status_rdy == 0 then again else some polled

  -- `n` words from port 0x1F0.
  pub take_words : ℕ → Port → List ℕ × Port
  take_words zero p = ([], p)
  take_words (suc n) p =
      let (ws, p') = take_words n (record p { taken = p.taken + 1 }) in (word p.taken ∷ ws, p')

  pub put_words : ℕ → List ℕ → Port → Port
  put_words zero ws p = p
  put_words (suc n) ws p = put_words n (drop 1 ws) (send 0x1F0 (get_or ws 0 0) p)

  pub read_loop : ℕ → ℕ → Port → Option (List ℕ × Port)
  read_loop fuel zero p = some ([], p)
  read_loop fuel (suc n) p = ata_busy_wait fuel p >>= λ idle. ata_drq_wait fuel idle >>= λ due.
      read_loop fuel n (take_words half_block_size due).1 >>= λ r.
      some ((take_words half_block_size due).0 ++ r.0, r.1)

  pub write_loop : ℕ → ℕ → List ℕ → Port → Option Port
  write_loop fuel zero ws p = some p
  write_loop fuel (suc n) ws p = ata_busy_wait fuel p >>= λ idle. ata_drq_wait fuel idle >>= λ due.
      write_loop fuel n (drop half_block_size ws) (put_words half_block_size ws due)

  -- The words that end up at `ptr`.
  unfoldable pub read_blocks : ℕ → ℕ → ℕ → Port → Option (List ℕ × Port)
  read_blocks fuel logical_block_address block_count p = ata_busy_wait fuel p >>= λ p'.
      read_loop fuel block_count (issue logical_block_address block_count 0x20 p')

  -- `ws` are the words from `ptr` on.
  unfoldable pub write_blocks : ℕ → ℕ → ℕ → List ℕ → Port → Option Port
  write_blocks fuel logical_block_address block_count ws p = ata_busy_wait fuel p >>= λ p'.
      write_loop fuel block_count ws (issue logical_block_address block_count 0x30 p')
