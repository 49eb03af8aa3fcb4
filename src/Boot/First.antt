-- ===== src/Boot/First.antt =====
-- The first start, on a disk that is not formatted.
use os_2024_operatingstress.Base.{
  ℕ, ◌<◌, ◌%◌, ◌^◌, lt-length_of_some, ◌≡◌, refl, sym, ap, ◌∙◌, subst, ◌≢◌, true, false, not, some,
  [], ◌∷◌, ◌++◌, arith, pos, get_elem?, set, take, replicate, take-append, eq-nil, All,
  All-replicate,
}
use os_2024_operatingstress.Disk.{Storage}
use os_2024_operatingstress.Paging.Laws.{IsPaging, allocate_lem}
use os_2024_operatingstress.Fat32.Types.{DirectoryEntry}
use os_2024_operatingstress.Fat32.Links.{Links, contents}
use os_2024_operatingstress.Fat32.Memory.{load_bytes-store_bytes}
use os_2024_operatingstress.Fat32.Driver.{
  DriverState, reply, read_table, read_fat, store_bytes, load_bytes, same_bytes,
}
use os_2024_operatingstress.Fat32.Driver.Invariant.{IsState}
use os_2024_operatingstress.Fat32.Init.{
  zero_entry, root_name, initial_fat, init_directory_table, init_entry, create_fat32,
  is_empty_storage, initialize_filesystem_fat32,
}
use os_2024_operatingstress.Fat32.Init.Laws.{directory_entry, create_fat32_lem}
use os_2024_operatingstress.Fat32.Read.{read}
use os_2024_operatingstress.Fat32.Read.Laws.{NameExt, read_missing}
use os_2024_operatingstress.Fat32.Write.{write, is_duplicate, free_slot}
use os_2024_operatingstress.Fat32.Write.File.{file_entry, CanWrite, write_creates_file}
use os_2024_operatingstress.Boot.Laws.{shell-IsRequest, text-IsRequest, filled-IsState}
use os_2024_operatingstress.Fat32.Driver.Invariant.{
  cached_table-IsState, read_table-IsTable, read_fat-IsFat,
}
use os_2024_operatingstress.Fat32.Driver.{read_clusters}
use os_2024_operatingstress.Strings.{memcmp}
use os_2024_operatingstress.Disk.{read_blocks}
use os_2024_operatingstress.Disk.Invariant.{IsStorage}
use os_2024_operatingstress.Fat32.Init.{fs_signature}
use mathlib.Core.List.{append-nil}
use os_2024_operatingstress.Gdt.{gdt_install_tss}
use os_2024_operatingstress.Idt.{initialize_idt}
use os_2024_operatingstress.Interrupt.Tss.{set_tss_kernel_current_stack}
use os_2024_operatingstress.Boot.{
  Machine, Environment, shell_request, input_bytes, text_request, setup_files, setup_screen,
  kernel_setup,
}

-- A driver's state at the first start: the static structure is zero, and the disk is not formatted.
pub record IsFresh (s : DriverState) : Type 0 where
  pub state : IsState s
  pub unformatted : is_empty_storage s.disk ≡ true
  pub zero_fat : s.fat_table ≡ replicate 512 0

root_entry : DirectoryEntry
root_entry = init_entry zero_entry root_name 2

module _ (env : Environment) (s : DriverState) (f : IsFresh s) where
  -- The state in which the file is written.
  before_write : DriverState
  before_write = record (create_fat32 s) {
    dir_table_buf = read_table (create_fat32 s).disk 2;
    memory = store_bytes (create_fat32 s).memory env.input input_bytes;
  }

  fresh_fat : read_fat (create_fat32 s).disk ≡ initial_fat (replicate 512 0)
  unfolding create_fat32
  fresh_fat = (create_fat32_lem s f.state).1 ∙ ap initial_fat f.zero_fat

  fresh_root : read_table (create_fat32 s).disk 2 ≡ root_entry ∷ replicate 63 zero_entry
  unfolding init_directory_table root_entry
  fresh_root = (create_fat32_lem s f.state).2

  text-CanWrite : CanWrite (text_request env.input) before_write 1 zero_entry
  unfolding before_write is_duplicate same_bytes free_slot root_entry init_entry memcmp
  text-CanWrite = record {
    request = text-IsRequest env.input;
    state =
        filled-IsState env.input _
          (cached_table-IsState 2 (create_fat32 s) (create_fat32_lem s f.state).3);
    is_file = omega arith;
    parent_in = omega arith;
    parent_used = rw fresh_fat (ground arith);
    parent_apart = omega arith;
    fat_used = rw fresh_fat (ground arith);
    is_new = rw fresh_root refl;
    slot_found = rw fresh_root refl;
    held = rw fresh_root refl;
    room = rw fresh_fat (omega arith);
  }

  shell_missing :
      read shell_request (create_fat32 s)
      ≡ reply
          (pos 2)
          (record (create_fat32 s) { dir_table_buf = read_table (create_fat32 s).disk 2 })
  unfolding root_entry init_entry
  shell_missing =
      read_missing shell_request (create_fat32 s) shell-IsRequest
        (read_table-IsTable (create_fat32 s).disk 2 (create_fat32_lem s f.state).3.disk).entries
        (subst (All (λ e. ¬ NameExt shell_request e)) (sym fresh_root) (
          (λ h. ground arith),
          All-replicate (λ e. ¬ NameExt shell_request e) 63 {a = zero_entry} (λ h. ground arith),
        ))

  files_run :
      (s' : DriverState)
      → write (text_request env.input) before_write ≡ reply (pos 0) s'
      → setup_files env (initialize_filesystem_fat32 s) ≡ some s'
  unfolding setup_files before_write initialize_filesystem_fat32
  files_run s' run = rw (f.unformatted, shell_missing, run)

  text_bytes : load_bytes before_write.memory env.input 30 ≡ input_bytes
  unfolding before_write
  text_bytes = load_bytes-store_bytes 30 (create_fat32 s).memory env.input input_bytes (omega arith)

-- Block 0 is part of cluster 0.
pub is_empty_storage_cong :
    (d e : Storage)
    → IsStorage d
    → IsStorage e
    → read_clusters d 0 ≡ read_clusters e 0
    → is_empty_storage d ≡ is_empty_storage e
unfolding is_empty_storage read_clusters read_blocks
is_empty_storage_cong d e v w h =
    let first : d 0 ≡ e 0 =
      sym (take-append (d 0) _ 512 (v.size 0))
      ∙ (ap (take 512) h ∙ take-append (e 0) _ 512 (w.size 0)) in
    ap (λ b. not (same_bytes (b ++ []) fs_signature 512)) first

-- The entry of "ed3.txt", 30 bytes from cluster `c` on.
abbrev pub text_entry : ℕ → DirectoryEntry
text_entry c = record {
  name = 101 ∷ 100 ∷ 51 ∷ 0 ∷ 0 ∷ 0 ∷ 0 ∷ 0 ∷ [];
  ext = 116 ∷ 120 ∷ 116 ∷ [];
  attribute = 0;
  user_attribute = 0xAA;
  undelete = 0;
  create_time = 0;
  create_date = 0;
  access_date = 0;
  cluster_high = 0;
  modified_time = 0;
  modified_date = 0;
  cluster_low = c % 2 ^ 16;
  filesize = 30;
}

file_written :
    (env : Environment) (s : DriverState)
    → IsFresh s
    → (s' : DriverState) × (c : ℕ) × (setup_files env (initialize_filesystem_fat32 s) ≡ some s')
      × (is_empty_storage s'.disk ≡ false)
      × (read_table s'.disk 2
          ≡ directory_entry (82 ∷ 79 ∷ 79 ∷ 84 ∷ 0 ∷ 0 ∷ 0 ∷ 0 ∷ []) 2
            ∷ text_entry c
            ∷ replicate 62 zero_entry)
      × (c < 512)
      × (get_elem? (read_fat s'.disk) c ≡ some 0x0FFFFFFF)
      × (read_clusters s'.disk c
          ≡ (replicate 10 97 ++ (replicate 19 99 ++ 0 ∷ [])) ++ replicate 2018 0)
unfolding root_entry before_write init_entry
file_written env s f =
    let (s', c, cs, run, h) = write_creates_file (text-CanWrite env s f) in
    let created = create_fat32_lem s f.state in
    let alone : cs ≡ [] = eq-nil cs (omega (arith, h.count)) in
    let first : get_elem? (read_fat (create_fat32 s).disk) 0 ≢ some 0 =
      rw (fresh_fat env s f) (ground arith) in
    (
      s',
      c,
      files_run env s f s' run,
      is_empty_storage_cong s'.disk (create_fat32 s).disk h.valid.disk created.3.disk
            (h.others 0 (omega arith) (omega arith) (omega arith) first)
          ∙ created.0,
      h.table
          ∙ ap (λ t. set t 1 (file_entry (text_request env.input) c zero_entry))
              (fresh_root env s f),
      omega (
        arith,
        lt-length_of_some (read_fat (create_fat32 s).disk) c h.free.0,
        (read_fat-IsFat (create_fat32 s).disk created.3.disk).size,
      ),
      subst (λ l. Links (read_fat s'.disk) (c ∷ l)) alone h.links,
      sym (append-nil (read_clusters s'.disk c))
          ∙ (ap (λ l. contents s'.disk (c ∷ l)) (sym alone)
              ∙ h.bytes
              ∙ ap (λ b. b ++ replicate 2018 0) (text_bytes env s f)),
    )

-- At the first start, with the page frames unused, the set-up returns: the disk is formatted, and
-- its root directory has its own entry "ROOT", the file "ed3.txt" of 30 bytes and no other entry
-- that is not zero; the file's cluster ends its chain and holds 10 letters a, 19 letters c and
-- zeros.
pub kernel_setup_first :
    (env : Environment) (m : Machine)
    → IsFresh m.kernel.fs
    → IsPaging m.page_directory m.page_manager
    → m.page_manager.free_page_frame_count ≡ 32
    → (m' : Machine) × (c : ℕ) × (kernel_setup env m ≡ some m')
      × (is_empty_storage m'.kernel.fs.disk ≡ false)
      × (read_table m'.kernel.fs.disk 2
          ≡ directory_entry (82 ∷ 79 ∷ 79 ∷ 84 ∷ 0 ∷ 0 ∷ 0 ∷ 0 ∷ []) 2
            ∷ text_entry c
            ∷ replicate 62 zero_entry)
      × (c < 512)
      × (get_elem? (read_fat m'.kernel.fs.disk) c ≡ some 0x0FFFFFFF)
      × (read_clusters m'.kernel.fs.disk c
          ≡ (replicate 10 97 ++ (replicate 19 99 ++ 0 ∷ [])) ++ replicate 2018 0)
unfolding kernel_setup
kernel_setup_first env m f v n =
    let s : DriverState = m.kernel.fs in
    let (s', c, run, signed, table, inside, last, bytes) = file_written env s f in
    let (pd, pm, _, paged, _, _, _, _, _, _, _) =
      allocate_lem m.page_directory 0 m.page_manager v (omega arith) (omega arith) in
    (
      record m {
        kernel = record (m.kernel) { fs = s'; keyboard = setup_screen env m.kernel.keyboard };
        gdt = gdt_install_tss env.tss m.gdt;
        idt = initialize_idt env.isr_stub_table m.idt;
        page_directory = pd;
        page_manager = pm;
        tss_entry = set_tss_kernel_current_stack env.ebp m.tss_entry;
      },
      c,
      rw (paged, run),
      signed,
      table,
      inside,
      last,
      bytes,
    )
