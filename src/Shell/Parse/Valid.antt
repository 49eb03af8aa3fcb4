-- ===== src/Shell/Parse/Valid.antt =====
-- The commands that change the disk, "mkdir", "cp", "mv" and "rm": they keep the state well formed.
use os_2024_operatingstress.Base.{
  ℕ, zero, ◌+◌, ◌-◌, ◌^◌, ◌≤◌, ◌<◌, ◌≡◌, refl, Bool, true, false, Option, none, some, List, [], ◌∷◌,
  arith, leb, ◌==◌, if◌then◌else◌, Ends, Ends-some, Ends-bind, Ends-if, length, get_elem?, take,
  drop, replicate, length-append, length-drop, length-take, length-replicate, All-get, All-append,
  All-take, All-drop, All-replicate,
}
use os_2024_operatingstress.Strings.{strlen, string_len}
use os_2024_operatingstress.Fat32.Types.{DriverRequest, IsRequest}
use os_2024_operatingstress.Fat32.Codec.Bounds.{Bytes}
use os_2024_operatingstress.Fat32.Driver.{load_bytes}
use os_2024_operatingstress.Fat32.Read.{read, read_directory}
use os_2024_operatingstress.Fat32.Write.{write}
use os_2024_operatingstress.Fat32.Write.Valid.{write-IsState}
use os_2024_operatingstress.Fat32.Delete.{delete}
use os_2024_operatingstress.Fat32.Delete.Valid.{delete-IsState}
use os_2024_operatingstress.Shell.{
  Shell, Frame, codes, call, print_str, no_ext, copy_name, zero_buffer, before_dot, ext_at, get_ext,
  scan_ext, entry_at,
}
use os_2024_operatingstress.Shell.Valid.{
  IsShell, print_str-IsShell, zero_buffer-Looks, call-IsShell, call-read-Looks,
  call-read_directory-Looks, entry_cluster-lt,
}
use os_2024_operatingstress.Shell.Navigate.{directory_request}
use os_2024_operatingstress.Shell.Files.{
  file_request, mkdir, read_message, write_message, copy_write, copy_to, copy, cp, delete_message,
  mv, rm,
}

-- The 256 bytes of `buf`.
pub record IsCommand (command : List ℕ) : Type 0 where
  pub length : length command ≡ 256
  pub bytes : Bytes command

ext_at-Bytes : (xs : List ℕ) → Bytes xs → Ends (λ ext. (length ext ≡ 3) × Bytes ext) (ext_at xs)
unfolding ext_at
ext_at-Bytes [] h ext e = cc
ext_at-Bytes (a ∷ []) h ext e = cc
ext_at-Bytes (a ∷ b ∷ []) h ext e = cc
ext_at-Bytes (a ∷ b ∷ c ∷ xs) h ext e =
    Ends-some (λ ext. (length ext ≡ 3) × Bytes ext) (a ∷ b ∷ c ∷ [])
      (refl, (h.0, (h.1.0, (h.1.1.0, tt)))) ext e

get_ext-Bytes :
    (param : List ℕ)
    → Bytes param
    → Ends (λ (e : ℕ × List ℕ). (length e.1 ≡ 3) × Bytes e.1) (get_ext param)
unfolding get_ext
get_ext-Bytes param h =
    Ends-bind (λ (e : ℕ × List ℕ). (length e.1 ≡ 3) × Bytes e.1) (before_dot param) _
      λ r e.
        Ends-bind (λ (e : ℕ × List ℕ). (length e.1 ≡ 3) × Bytes e.1) _ _
          λ ext found.
            Ends-some (λ (e : ℕ × List ℕ). (length e.1 ≡ 3) × Bytes e.1) _
              (Ends-if (λ ext. (length ext ≡ 3) × Bytes ext) r.1 _ _
                (λ dot.
                  ext_at-Bytes (drop (r.0 + 1) param) (All-drop (λ b. b < 256) (r.0 + 1) param h))
                (λ none.
                  Ends-some (λ ext. (length ext ≡ 3) × Bytes ext) no_ext
                    (refl, All-replicate (λ b. b < 256) 3 (omega arith)))
                ext found)

copy_name-Bytes :
    (src : List ℕ) (n : ℕ)
    → 8 ≤ length src
    → Bytes src
    → Ends (λ name. (length name ≡ 8) × Bytes name) (copy_name src n)
unfolding copy_name
copy_name-Bytes src n long h =
    Ends-if (λ name. (length name ≡ 8) × Bytes name) (leb n 8) _ none
      (λ fits.
        let small : n ≤ 8 = ground (arith, fits) in
        let rest : length (replicate (8 - n) zero) ≡ 8 - n = length-replicate (8 - n) zero in
        Ends-some (λ name. (length name ≡ 8) × Bytes name) _
          (
            omega (
              arith,
              length-append (take n src) (replicate (8 - n) 0),
              length-take n src (omega arith),
              rest,
            ),
            All-append (λ b. b < 256) (take n src) (replicate (8 - n) 0)
                (All-take (λ b. b < 256) n src h)
                (All-replicate (λ b. b < 256) (8 - n) (omega arith)),
          ))
      (λ large name e. cc)

call-write-IsShell :
    (q : DriverRequest) (word : ℕ) (sh : Shell)
    → IsRequest q
    → IsShell sh
    → Ends (λ (r : ℕ × Shell). IsShell r.1) (call (write q sh.fs) word sh)
call-write-IsShell q word sh h v =
    call-IsShell (write q sh.fs) word sh v λ code s e. write-IsState q sh.fs s code h v.fs e

call-delete-IsShell :
    (q : DriverRequest) (word : ℕ) (sh : Shell)
    → IsShell sh
    → Ends (λ (r : ℕ × Shell). IsShell r.1) (call (delete q sh.fs) word sh)
call-delete-IsShell q word sh v =
    call-IsShell (delete q sh.fs) word sh v λ code s e. delete-IsState q sh.fs s code v.fs e

tells-IsShell :
    (buf : List ℕ) (color : ℕ) (sh : Shell)
    → IsShell sh
    → Ends IsShell (some (print_str buf color sh))
tells-IsShell buf color sh v = Ends-some IsShell _ (print_str-IsShell buf color sh v)

if-IsShell : (c : Bool) (a b : Shell) → IsShell a → IsShell b → IsShell (if c then a else b)
if-IsShell true a b v w = v
if-IsShell false a b v w = w

-- A text in one of four cases.
four-IsShell :
    (c c' c'' : Bool) (a b d e : List ℕ) (x y z w : ℕ) (sh : Shell)
    → IsShell sh
    → Ends IsShell (
        some (
          if c
          then print_str a x sh
          else if c'
          then print_str b y sh
          else if c''
          then print_str d z sh
          else print_str e w sh))
four-IsShell c c' c'' a b d e x y z w sh v = Ends-some IsShell _ (
    if-IsShell c _ _ (print_str-IsShell a x sh v) (
      if-IsShell c' _ _ (print_str-IsShell b y sh v)
        (if-IsShell c'' _ _ (print_str-IsShell d z sh v) (print_str-IsShell e w sh v))))

pub mkdir-IsShell :
    (frame : Frame) (command : List ℕ) (sh : Shell)
    → IsCommand command
    → IsShell sh
    → Ends IsShell (mkdir frame command sh)
unfolding mkdir
mkdir-IsShell frame command sh h v =
    Ends-bind IsShell (get_elem? sh.list_cluster sh.depth) _ λ parent e.
      let q : IsRequest (record {
        buf = frame.cbuf;
        name = take 8 (drop 6 command);
        ext = no_ext;
        parent_cluster_number = parent;
        buffer_size = 0;
      }) =
        record {
          name = length-take 8 (drop 6 command) (omega (arith, length-drop 6 command, h.length));
          ext = refl;
          name_bytes =
              All-take (λ b. b < 256) 8 (drop 6 command)
                (All-drop (λ b. b < 256) 6 command h.bytes);
          ext_bytes = All-replicate (λ b. b < 256) 3 (omega arith);
          parent = All-get (λ c. c < 2 ^ 32) sh.list_cluster sh.depth v.clusters e;
          size = omega arith;
        } in
      Ends-bind IsShell _ _ λ r done.
        four-IsShell (r.0 == 0) (r.0 == 1) (r.0 == 2) _ _ _ _ 0b1001 0b1100 0b1100 0b1100 r.1
          (call-write-IsShell _ frame.retcode sh q v r done)

pub rm-IsShell :
    (frame : Frame) (command : List ℕ) (sh : Shell)
    → IsShell sh
    → Ends IsShell (rm frame command sh)
unfolding rm
rm-IsShell frame command sh v = Ends-bind IsShell (get_elem? sh.list_cluster sh.depth) _ λ parent e.
    Ends-bind IsShell (scan_ext (drop 3 command)) _ λ x e1.
      let q : DriverRequest = file_request frame parent (take 8 (drop 3 command)) x.1 in
      Ends-bind IsShell (call (delete q sh.fs) frame.retcode sh) _ λ r done.
        four-IsShell (r.0 == 0) (r.0 == 1) (r.0 == 2) _ _ _ _ 0b1001 0b1100 0b1100 0b1100 r.1
          (call-delete-IsShell q frame.retcode sh v r done)

copy_write-IsShell :
    (frame : Frame) (request : DriverRequest) (found : Option ℕ) (sh : Shell)
    → IsRequest request
    → IsShell sh
    → Ends (λ (r : ℕ × Shell). IsShell r.1) (copy_write frame request found sh)
unfolding copy_write
copy_write-IsShell frame request none sh h v = Ends-some (λ (r : ℕ × Shell). IsShell r.1) _ v
copy_write-IsShell frame request (some i) sh h v =
    call-write-IsShell _ frame.code_write sh
      (record {
        name = h.name;
        ext = h.ext;
        name_bytes = h.name_bytes;
        ext_bytes = h.ext_bytes;
        parent = entry_cluster-lt sh (entry_at frame.table i) v;
        size = h.size;
      })
      v

copy_to-IsShell :
    (frame : Frame) (request destination : DriverRequest) (target : List ℕ) (sh : Shell)
    → IsRequest request
    → IsShell sh
    → Ends IsShell (copy_to frame request destination target sh)
unfolding copy_to
copy_to-IsShell frame request destination target sh h v =
    let cleared : Shell = zero_buffer frame.table sh in
    let c = zero_buffer-Looks sh.fs.disk frame.table sh (record { valid = v; disk = refl }) in
    Ends-bind IsShell (call (read_directory destination cleared.fs) frame.retcode cleared) _ λ r e.
      let w = call-read_directory-Looks sh.fs.disk destination frame.retcode cleared c r e in
      Ends-bind IsShell (string_len target) _ λ n e1. Ends-bind IsShell _ _ λ x e2.
        tells-IsShell (write_message x.0) 0b1111 x.1
          (copy_write-IsShell frame request _ r.1 h w.valid x e2)

copy_request-IsRequest :
    (frame : Frame) (command name : List ℕ) (parent : ℕ) (x : ℕ × List ℕ) (sh : Shell)
    → IsCommand command
    → IsShell sh
    → get_elem? sh.list_cluster sh.depth ≡ some parent
    → get_ext (drop 3 command) ≡ some x
    → copy_name (drop 3 command) x.0 ≡ some name
    → IsRequest (file_request frame parent name x.1)
copy_request-IsRequest frame command name parent x sh h v e e1 e2 =
    let text : Bytes (drop 3 command) = All-drop (λ b. b < 256) 3 command h.bytes in
    let long : 8 ≤ length (drop 3 command) = omega (arith, length-drop 3 command, h.length) in
    let named = copy_name-Bytes (drop 3 command) x.0 long text name e2 in
    let typed = get_ext-Bytes (drop 3 command) text x e1 in
    record {
      name = named.0;
      ext = typed.0;
      name_bytes = named.1;
      ext_bytes = typed.1;
      parent = All-get (λ c. c < 2 ^ 32) sh.list_cluster sh.depth v.clusters e;
      size = omega arith;
    }

copy-IsShell :
    (frame : Frame) (command : List ℕ) (sh : Shell)
    → IsCommand command
    → IsShell sh
    → Ends (λ (r : ℕ × Shell). IsShell r.1) (copy frame command sh)
unfolding copy
copy-IsShell frame command sh h v =
    let P : ℕ × Shell → Type 0 = λ r. IsShell r.1 in
    Ends-bind P (get_elem? sh.list_cluster sh.depth) _ λ parent e.
      Ends-bind P (get_ext (drop 3 command)) _ λ x e1.
        Ends-bind P (copy_name (drop 3 command) x.0) _ λ name e2.
          Ends-bind P (get_elem? sh.list_dir sh.depth) _ λ dir e3.
            Ends-bind P (strlen (load_bytes sh.fs.memory dir 256)) _ λ n e4.
              Ends-bind P (copy_name (load_bytes sh.fs.memory dir n) n) _ λ dir_name e5.
                let request : DriverRequest = file_request frame parent name x.1 in
                let there : DriverRequest = directory_request frame.table dir_name parent in
                Ends-bind P (call (read request sh.fs) frame.retcode sh) _ λ r e6.
                  let w =
                    call-read-Looks sh.fs.disk request frame.retcode sh
                      (record { valid = v; disk = refl }) r e6 in
                  let told : Shell = print_str (read_message r.0) 0b1001 r.1 in
                  Ends-bind P (copy_to frame request there (drop (x.0 + 8) command) told) _ λ t e7.
                    Ends-some P (x.0, t)
                      (copy_to-IsShell frame request there (drop (x.0 + 8) command) told
                        (copy_request-IsRequest frame command name parent x sh h v e e1 e2)
                        (print_str-IsShell (read_message r.0) 0b1001 r.1 w.valid) t e7)

pub cp-IsShell :
    (frame : Frame) (command : List ℕ) (sh : Shell)
    → IsCommand command
    → IsShell sh
    → Ends IsShell (cp frame command sh)
unfolding cp
cp-IsShell frame command sh h v =
    Ends-bind IsShell (copy frame command sh) _
      λ r e. Ends-some IsShell _ (copy-IsShell frame command sh h v r e)

delete_message-IsShell : (word : ℕ) (sh : Shell) → IsShell sh → IsShell (delete_message word sh)
unfolding delete_message
delete_message-IsShell word sh v =
    let told = λ (buf : List ℕ). print_str-IsShell buf 0b0110 sh v in
    if-IsShell (word == 0) _ _ (told (codes "Sukses menghapus")) (
      if-IsShell (word == 1) _ _ (told (codes "File/Folder tidak ditemukan"))
        (if-IsShell (word == 2) _ sh (told (codes "Sukses menghapus")) v))

pub mv-IsShell :
    (frame : Frame) (command : List ℕ) (sh : Shell)
    → IsCommand command
    → IsShell sh
    → Ends IsShell (mv frame command sh)
unfolding mv
mv-IsShell frame command sh h v = Ends-bind IsShell (copy frame command sh) _ λ c e.
    Ends-bind IsShell (get_elem? sh.list_cluster sh.depth) _ λ parent e1.
      Ends-bind IsShell (get_ext (drop 3 command)) _ λ x e2.
        Ends-bind IsShell (copy_name (drop 3 command) (c.0 + x.0)) _ λ name e3.
          let asked : Shell = print_str [] 0b0110 c.1 in
          Ends-bind IsShell _ _ λ r e4. Ends-some IsShell _ (
            delete_message-IsShell r.0 r.1 (
              call-delete-IsShell _ frame.del_code asked
                (print_str-IsShell [] 0b0110 c.1 (copy-IsShell frame command sh h v c e)) r e4))
