-- ===== src/Interrupt/Pic.antt =====
-- The calls of `out` that the PIC functions of src/interrupt.c make, in order.
use os_2024_operatingstress.Base.{ℕ, List, [], ◌∷◌, ◌++◌, leb, if◌then◌else◌, bit_and}
use os_2024_operatingstress.Framebuffer.{Out}

abbrev pub pic1_offset : ℕ
pic1_offset = 0x20

abbrev pub pic2_offset : ℕ
pic2_offset = 0x28

abbrev pub pic1_command : ℕ
pic1_command = 0x20

abbrev pub pic1_data : ℕ
pic1_data = 0x21

abbrev pub pic2_command : ℕ
pic2_command = 0xA0

abbrev pub pic2_data : ℕ
pic2_data = 0xA1

abbrev pub pic_ack_code : ℕ
pic_ack_code = 0x20

abbrev pub pic_disable_all_mask : ℕ
pic_disable_all_mask = 0xFF

abbrev pub irq_keyboard : ℕ
irq_keyboard = 1

abbrev pub io_wait : List Out
io_wait = (0x80, 0) ∷ []

unfoldable pub pic_ack : ℕ → List Out
pic_ack irq =
    if leb 8 irq
    then (pic2_command, pic_ack_code) ∷ (pic1_command, pic_ack_code) ∷ []
    else (pic1_command, pic_ack_code) ∷ []

-- An `out` followed by `io_wait()`.
abbrev pub out_wait : ℕ → ℕ → List Out → List Out
out_wait port byte rest = (port, byte) ∷ io_wait ++ rest

unfoldable pub pic_remap : List Out
pic_remap = out_wait pic1_command 0x11 (
    out_wait pic2_command 0x11 (
      out_wait pic1_data pic1_offset (
        out_wait pic2_data pic2_offset (
          out_wait pic1_data 0b0100 (
            out_wait pic2_data 0b0010 (
              out_wait pic1_data 0x01 (
                out_wait pic2_data 0x01 (
                  (pic1_data, pic_disable_all_mask) ∷ (pic2_data, pic_disable_all_mask) ∷ []))))))))

-- `mask` is what port PIC1_DATA holds; `& ~(1 << 1)` on a byte.
unfoldable pub activate_keyboard_interrupt : ℕ → List Out
activate_keyboard_interrupt mask = (pic1_data, bit_and mask 0xFD) ∷ []
