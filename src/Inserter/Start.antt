-- ===== src/Inserter/Start.antt =====
-- The start of the kernel on an image from `make insert-shell`.
use os_2024_operatingstress.Base.{
  ℕ, ◌*◌, ◌%◌, ◌^◌, ◌<◌, ◌≡◌, refl, sym, ap, ◌∙◌, false, Option, none, some, List, ◌∷◌, arith, pos,
  length, take, drop,
}
use os_2024_operatingstress.Disk.{Storage, read_blocks}
use os_2024_operatingstress.Disk.Laws.{read_blocks_cong}
use os_2024_operatingstress.Fat32.Driver.{DriverState, reply, read_clusters, read_fat, load_bytes}
use os_2024_operatingstress.Fat32.Driver.Invariant.{IsState, read_fat-IsFat}
use os_2024_operatingstress.Fat32.Init.{is_empty_storage, initialize_filesystem_fat32}
use os_2024_operatingstress.Fat32.Init.Laws.{initialize_formatted}
use os_2024_operatingstress.Fat32.Read.{read}
use os_2024_operatingstress.Fat32.Files.{Holds-same}
use os_2024_operatingstress.Fat32.Files.Read.{read_refines}
use os_2024_operatingstress.Boot.{shell_request}
use os_2024_operatingstress.Boot.Laws.{shell-IsRequest}
use os_2024_operatingstress.Boot.First.{is_empty_storage_cong}
use os_2024_operatingstress.Inserter.{Host, Outcome, main}
use os_2024_operatingstress.Inserter.Laws.{buffered, buffered-size, image-block}
use os_2024_operatingstress.Inserter.Insert.{CanInsert, main_inserts_shell}

-- The disk has the blocks of the image.
abbrev pub HasImage : Storage → List ℕ → Type 0
HasImage d image = (b : ℕ) → b < 8192 → d b ≡ take 512 (drop (512 * b) image)

-- Disks with the same blocks of the image have the same clusters.
same_clusters :
    (d e : Storage) (c : ℕ)
    → c < 512
    → ((b : ℕ) → b < 8192 → d b ≡ e b)
    → read_clusters d c ≡ read_clusters e c
unfolding read_clusters
same_clusters d e c lt same =
    read_blocks_cong 4 (c * 4 % 2 ^ 32) d e (λ b lo hi. same b (omega arith))

image_of : Option Outcome → Option (List ℕ)
image_of none = none
image_of (some out) = out.image

-- Where the inserter is run for the root directory, on a host that opens the files and behaves as
-- documented, with an image of 4 MB that is not formatted and a program "shell" that is not empty
-- and fits into 508 clusters, and the kernel starts from a well-formed state of the file system on
-- a disk with the image that is written: after the file system is initialised, reading "shell"
-- answers 0, puts the bytes that the inserter's `fread` left in the file's buffer, as many as the
-- program has, from address 0 on, and leaves the disk as it was.
pub main-starts :
    {h : Host} {target parent storage image program : List ℕ}
    (w : CanInsert h target parent storage image program) (name : List ℕ) (rest : List (List ℕ))
    (out : Outcome) (bs : List ℕ) (s : DriverState)
    → main h (name ∷ target ∷ parent ∷ storage ∷ rest) ≡ some out
    → out.image ≡ some bs
    → IsState s
    → HasImage s.disk bs
    → (s' : DriverState) × (read shell_request (initialize_filesystem_fat32 s) ≡ reply (pos 0) s')
      × (load_bytes s'.memory 0 (length program) ≡ buffered h image program)
      × (s'.disk ≡ s.disk)
unfolding image_of
main-starts {h} {target} {parent} {storage} {image} {program} w name rest out bs s run written v
      has =
    let (d, f, ends, vd, formatted, stores, bytes, f_name, f_ext, _, _, _) =
      main_inserts_shell w name rest in
    let own : some (read_blocks d 0 8192) ≡ some bs =
      sym (ap image_of ends) ∙ (ap image_of run ∙ written) in
    let blocks : read_blocks d 0 8192 ≡ bs = cc in
    let same : (b : ℕ) → b < 8192 → s.disk b ≡ d b = λ b lt.
      has b lt
      ∙ (ap (λ l. take 512 (drop (512 * b) l)) (sym blocks)
          ∙ image-block 8192 0 b d vd lt
          ∙ ap d (omega arith)) in
    let clusters : (c : ℕ) → c < 512 → read_clusters s.disk c ≡ read_clusters d c =
      λ c lt. same_clusters s.disk d c lt same in
    let signed : is_empty_storage s.disk ≡ false =
      is_empty_storage_cong s.disk d v.disk vd (clusters 0 (omega arith)) ∙ formatted in
    let size : length f.bytes ≡ length program =
      ap length bytes
      ∙ buffered-size h w.host image program (w.host.file_bytes storage image w.is_image)
          (w.host.file_bytes target program w.is_program) in
    let started : DriverState = record s { fat_table = read_fat s.disk } in
    let (s', done, loaded, _, disk, _) =
      read_refines shell_request started f
        (record {
          memory = v.memory;
          disk = v.disk;
          fat = read_fat-IsFat s.disk v.disk;
          table = v.table;
        })
        shell-IsRequest refl (Holds-same d s.disk 2 f (omega arith) clusters stores.files.0) f_name
        f_ext (omega (arith, w.fits, size)) in
    (
      s',
      ap (read shell_request) (initialize_formatted s signed) ∙ done,
      ap (λ n. load_bytes s'.memory 0 n) (sym size) ∙ (loaded ∙ bytes),
      disk,
    )
