-- ===== src/Framebuffer/Laws.antt =====
-- What is on the screen after each operation of src/framebuffer.c.
use os_2024_operatingstress.Base.{
  ℕ, zero, suc, ◌+◌, ◌*◌, ◌/◌, ◌%◌, ◌^◌, ◌<◌, ◌≡◌, refl, [], ◌∷◌, ltb, leb, ◌==◌, if◌then◌else◌,
  arith, bit_or, ◌&&◌,
}
use os_2024_operatingstress.Base.Bits.{bit_or-shift}
use os_2024_operatingstress.Strings.{Memory, store, memset}
use os_2024_operatingstress.Strings.Laws.{memset_lem}
use os_2024_operatingstress.Framebuffer.{
  framebuffer_set_cursor, attrib, cell_word, framebuffer_write, clear_attributes, framebuffer_clear,
}

attrib_lem : (fg bg : ℕ) → bg < 16 → attrib fg bg ≡ 16 * bg + fg % 16
unfolding attrib
attrib_lem fg bg h = omega (arith, bit_or-shift 4 (fg % 16) bg (omega arith))

cell_word_lem :
    (c fg bg : ℕ) → c < 128 → bg < 16 → cell_word c fg bg ≡ 256 * (16 * bg + fg % 16) + c
unfolding cell_word
cell_word_lem c fg bg h k =
    ground (arith, attrib_lem fg bg k, bit_or-shift 8 c (attrib fg bg) (omega arith))

-- With row and column below 256, an ASCII character on a background below 16 goes to its cell,
-- character first and colours behind it; no other byte of the screen changes.
pub framebuffer_write_lem :
    (row col c fg bg : ℕ) (m : Memory) (a : ℕ)
    → row < 256
    → col < 256
    → c < 128
    → bg < 16
    → framebuffer_write row col c fg bg m a ≡ (
        if a == 2 * (row * 80 + col)
        then c
        else if a == 2 * (row * 80 + col) + 1
        then 16 * bg + fg % 16
        else m a)
unfolding framebuffer_write
framebuffer_write_lem row col c fg bg m a hr hc h k = ground (arith, cell_word_lem c fg bg h k)

clear_attributes_lem :
    (n i : ℕ) (m : Memory) (a : ℕ)
    → clear_attributes n i m a
      ≡ (if leb i a && (ltb a (i + 2 * n) && a % 2 == i % 2) then 0 else m a)
unfolding clear_attributes
clear_attributes_lem zero i m a = ground arith
clear_attributes_lem (suc n) i m a = ground (arith, clear_attributes_lem n (i + 2) (store m i 0) a)

-- After a clear each of the 2000 cells is a blank with colour byte 0, and nothing behind the
-- screen's 4000 bytes is touched.
pub framebuffer_clear_lem :
    (m : Memory) (a : ℕ)
    → framebuffer_clear m a ≡ (if ltb a 4000 then (if a % 2 == 0 then 32 else 0) else m a)
unfolding framebuffer_clear
framebuffer_clear_lem m a =
    let blank : bit_or 32 (2 ^ 8 * 0x0F00) % 256 ≡ 32 = refl in
    ground (
      arith,
      clear_attributes_lem 2000 1 (memset 0 (bit_or 32 (2 ^ 8 * 0x0F00)) (80 * 25 * 2) m) a,
      memset_lem 0 (bit_or 32 (2 ^ 8 * 0x0F00)) (80 * 25 * 2) m a,
      blank,
    )

-- The cursor's registers 0x0F and 0x0E get the low and the high byte of 80 * r + c.
pub framebuffer_set_cursor_lem :
    (r c : ℕ)
    → r < 256
    → c < 256
    → (low high : ℕ) × (framebuffer_set_cursor r c
        ≡ (0x3D4, 0x0F) ∷ (0x3D5, low) ∷ (0x3D4, 0x0E) ∷ (0x3D5, high) ∷ [])
      × (low < 256)
      × (high < 256)
      × (low + 256 * high ≡ 80 * r + c)
unfolding framebuffer_set_cursor
framebuffer_set_cursor_lem r c hr hc = (
  (r % 256 * 80 + c % 256) % 2 ^ 16 % 256,
  (r % 256 * 80 + c % 256) % 2 ^ 16 / 2 ^ 8 % 256,
  refl,
  omega arith,
  omega arith,
  omega arith,
)
