-- ===== src/Framebuffer/Tests.antt =====
-- The theorems on the text screen at concrete inputs.
use os_2024_operatingstress.Base.{
  ℕ, ◌+◌, ◌*◌, ◌%◌, ◌<◌, ◌≡◌, [], ◌∷◌, arith, ltb, ◌==◌, if◌then◌else◌,
}
use os_2024_operatingstress.Strings.{Memory}
use os_2024_operatingstress.Framebuffer.{
  framebuffer_write, framebuffer_clear, framebuffer_set_cursor,
}
use os_2024_operatingstress.Framebuffer.Laws.{
  framebuffer_write_lem, framebuffer_clear_lem, framebuffer_set_cursor_lem,
}

abbrev dirty : Memory
dirty a = 0x55

framebuffer_write_lem_example : framebuffer_write 2 3 65 0xF 0x1 dirty 327 ≡ (
    if 327 == 2 * (2 * 80 + 3)
    then 65
    else if 327 == 2 * (2 * 80 + 3) + 1
    then 16 * 0x1 + 0xF % 16
    else dirty 327)
framebuffer_write_lem_example =
    framebuffer_write_lem 2 3 65 0xF 0x1 dirty 327 (omega arith) (omega arith) (omega arith)
      (omega arith)

framebuffer_clear_lem_example :
    framebuffer_clear dirty 3999
    ≡ (if ltb 3999 4000 then (if 3999 % 2 == 0 then 32 else 0) else dirty 3999)
framebuffer_clear_lem_example = framebuffer_clear_lem dirty 3999

framebuffer_set_cursor_lem_example :
    (low high : ℕ) × (framebuffer_set_cursor 24 79
      ≡ (0x3D4, 0x0F) ∷ (0x3D5, low) ∷ (0x3D4, 0x0E) ∷ (0x3D5, high) ∷ [])
    × (low < 256)
    × (high < 256)
    × (low + 256 * high ≡ 80 * 24 + 79)
framebuffer_set_cursor_lem_example = framebuffer_set_cursor_lem 24 79 (omega arith) (omega arith)
