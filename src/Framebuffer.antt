-- ===== src/Framebuffer.antt =====
-- src/framebuffer.c and header/text/framebuffer.h: the text screen, a memory of bytes from
-- FRAMEBUFFER_MEMORY_OFFSET on (address 0 here), and the writes to the cursor's ports.
pub mod Laws
mod Tests
use os_2024_operatingstress.Base.{
  ℕ, zero, suc, ◌+◌, ◌*◌, ◌/◌, ◌%◌, ◌^◌, List, [], ◌∷◌, ◌++◌, ltb, if◌then◌else◌, bit_or,
}
use os_2024_operatingstress.Strings.{Memory, store, memset}

-- A call of `out`: the port and the byte.
abbrev pub Out : Type 0
Out = ℕ × ℕ

abbrev pub cursor_port_cmd : ℕ
cursor_port_cmd = 0x03D4

abbrev pub cursor_port_data : ℕ
cursor_port_data = 0x03D5

-- The calls of `out` that set the cursor, in order; `r` and `c` are `uint8_t`.
unfoldable pub framebuffer_set_cursor : ℕ → ℕ → List Out
framebuffer_set_cursor r c =
    let position : ℕ = (r % 256 * 80 + c % 256) % 2 ^ 16 in
    (cursor_port_cmd, 0x0F)
    ∷ (cursor_port_data, position % 256)
    ∷ (cursor_port_cmd, 0x0E)
    ∷ (cursor_port_data, position / 2 ^ 8 % 256)
    ∷ []

-- `char` is signed: from 0x80 on it is sign-extended before the bits are joined.
abbrev pub widen_char : ℕ → ℕ
widen_char c = if ltb c 128 then c else c + 0xFF00

-- `(bg << 4) | (fg & 0x0F)` as a `uint16_t`
unfoldable pub attrib : ℕ → ℕ → ℕ
attrib fg bg = bit_or (fg % 16) (2 ^ 4 * bg) % 2 ^ 16

-- The word that goes to the screen: `c | (attrib << 8)` cut to 16 bits.
unfoldable pub cell_word : ℕ → ℕ → ℕ → ℕ
cell_word c fg bg = bit_or (widen_char c) (2 ^ 8 * attrib fg bg) % 2 ^ 16

unfoldable pub framebuffer_write : ℕ → ℕ → ℕ → ℕ → ℕ → Memory → Memory
framebuffer_write row col c fg bg m =
    let where_ : ℕ = 2 * (row % 256 * 80 + col % 256) in
    let word : ℕ = cell_word c fg bg in
    store (store m where_ (word % 256)) (where_ + 1) (word / 256)

-- `for (int i = 1; i < 80 * 25 * 2; i += 2)`, `n` rounds left.
pub clear_attributes : ℕ → ℕ → Memory → Memory
clear_attributes zero i m = m
clear_attributes (suc n) i m = clear_attributes n (i + 2) (store m i 0)

-- `' ' | (attrib << 8)` with `attrib` 0x0F00; `memset` keeps its low byte.
unfoldable pub framebuffer_clear : Memory → Memory
framebuffer_clear m =
    clear_attributes 2000 1 (memset 0 (bit_or 32 (2 ^ 8 * 0x0F00)) (80 * 25 * 2) m)
