-- ===== src/Shell/Parse/Laws.antt =====
-- Every command, and every sequence of lines.
use os_2024_operatingstress.Base.{
  ℕ, zero, suc, ◌+◌, ◌≡◌, refl, Bool, true, false, Option, some, List, [], ◌∷◌, Ends, Ends-some,
  Ends-bind, ◌∙◌, Ends-if, get_elem?, All,
}
use os_2024_operatingstress.Disk.{Storage}
use os_2024_operatingstress.Shell.{Shell, Frame, codes, starts, print_str, print_at}
use os_2024_operatingstress.Shell.Valid.{
  IsShell, Looks, print_str-IsShell, print_str-Looks, print_at-Looks,
}
use os_2024_operatingstress.Shell.Files.{mkdir, cp, mv, rm}
use os_2024_operatingstress.Shell.Parse.{parse_command, prompt_loop, prompt, round, rounds}
use os_2024_operatingstress.Shell.Parse.Looks.{cd-Looks, ls-Looks, cat-Looks, find-Looks}
use os_2024_operatingstress.Shell.Parse.Valid.{
  IsCommand, mkdir-IsShell, cp-IsShell, mv-IsShell, rm-IsShell,
}

-- What the dispatch needs of each command that changes the disk.
record Writers (P : Shell → Type 0) (frame : Frame) (command : List ℕ) (sh : Shell) : Type 0 where
  mkdir : starts command (codes "mkdir") ≡ true → Ends P (mkdir frame command sh)
  cp : starts command (codes "cp") ≡ true → Ends P (cp frame command sh)
  mv : starts command (codes "mv") ≡ true → Ends P (mv frame command sh)
  rm : starts command (codes "rm") ≡ true → Ends P (rm frame command sh)

-- The dispatch, with what the commands that only look keep.
dispatch :
    (P : Shell → Type 0) (frame : Frame) (command : List ℕ) (sh : Shell)
    → ((t : Shell) → Looks sh.fs.disk t → P t)
    → IsShell sh
    → Writers P frame command sh
    → Ends P (parse_command frame command sh)
unfolding parse_command
dispatch P frame command sh kept v h =
    let d = sh.fs.disk in
    let here : Looks d sh = record { valid = v; disk = refl } in
    Ends-if P (starts command (codes "cd")) _ _
      (λ c t e. kept t (cd-Looks d frame command sh here t e))
      λ c.
        Ends-if P (starts command (codes "ls")) _ _ (λ c t e. kept t (ls-Looks d frame sh here t e))
          λ c. Ends-if P (starts command (codes "mkdir")) _ _ h.mkdir λ c.
            Ends-if P (starts command (codes "cat")) _ _
              (λ c t e. kept t (cat-Looks d frame command sh here t e))
              λ c. Ends-if P (starts command (codes "cp")) _ _ h.cp λ c.
                Ends-if P (starts command (codes "mv")) _ _ h.mv λ c.
                  Ends-if P (starts command (codes "rm")) _ _ h.rm λ c.
                    Ends-if P (starts command (codes "cls")) _ _
                      (λ c. Ends-some P _ (
                        kept _ (record {
                          valid = record {
                            fs = v.fs;
                            depth = v.depth;
                            list_cluster = v.list_cluster;
                            list_dir = v.list_dir;
                            clusters = v.clusters;
                          };
                          disk = refl;
                        })))
                      λ c.
                        Ends-if P (starts command (codes "find")) _ _
                          (λ c t e. kept t (find-Looks d frame command sh here t e))
                          λ c. Ends-some P _ (
                            kept _ (
                              print_str-Looks d (codes "Masukkin command yang bener dong") 0b1001 sh
                                here))

never : (P : Shell → Type 0) {c : Bool} (o : Option Shell) → c ≡ false → c ≡ true → Ends P o
never P o off on t e = cc

-- In a well-formed state, a command that returns and does not begin with "mkdir", "cp", "mv" or
-- "rm" leaves the disk as it was and the state well formed.
pub parse_command_looks :
    (frame : Frame) (command : List ℕ) (sh sh' : Shell)
    → IsShell sh
    → starts command (codes "mkdir") ≡ false
    → starts command (codes "cp") ≡ false
    → starts command (codes "mv") ≡ false
    → starts command (codes "rm") ≡ false
    → parse_command frame command sh ≡ some sh'
    → (sh'.fs.disk ≡ sh.fs.disk) × IsShell sh'
parse_command_looks frame command sh sh' v mkdir cp mv rm run =
    let w =
      dispatch (Looks sh.fs.disk) frame command sh (λ t k. k) v
        (record {
          mkdir = never (Looks sh.fs.disk) _ mkdir;
          cp = never (Looks sh.fs.disk) _ cp;
          mv = never (Looks sh.fs.disk) _ mv;
          rm = never (Looks sh.fs.disk) _ rm;
        })
        sh' run in
    (w.disk, w.valid)

-- In a well-formed state, a command of 256 bytes that returns leaves the state well formed,
-- whatever it says.
pub parse_command-IsShell :
    (frame : Frame) (command : List ℕ) (sh sh' : Shell)
    → IsCommand command
    → IsShell sh
    → parse_command frame command sh ≡ some sh'
    → IsShell sh'
parse_command-IsShell frame command sh sh' h v run =
    dispatch IsShell frame command sh (λ t k. k.valid) v
      (record {
        mkdir = λ c. mkdir-IsShell frame command sh h v;
        cp = λ c. cp-IsShell frame command sh h v;
        mv = λ c. mv-IsShell frame command sh h v;
        rm = λ c. rm-IsShell frame command sh v;
      })
      sh' run

prompt_loop-Looks :
    (d : Storage) (n i : ℕ) (sh : Shell) → Looks d sh → Ends (Looks d) (prompt_loop n i sh)
unfolding prompt_loop
prompt_loop-Looks d zero i sh v = Ends-some (Looks d) sh v
prompt_loop-Looks d (suc n) i sh v = Ends-bind (Looks d) (get_elem? sh.list_dir i) _ λ dir e.
    Ends-bind (Looks d) (print_at 256 dir 0b1101 (print_str (codes "/") 0b1101 sh)) _ λ t e1.
      prompt_loop-Looks d n (i + 1) t
        (print_at-Looks d 256 dir 0b1101 _ (print_str-Looks d (codes "/") 0b1101 sh v) t e1)

prompt-Looks : (d : Storage) (sh : Shell) → Looks d sh → Ends (Looks d) (prompt sh)
unfolding prompt
prompt-Looks d sh v =
    let told : Shell = print_str (codes "OperatingStess@User:~") 0b1010 sh in
    Ends-bind (Looks d) (prompt_loop (sh.depth + 1) 0 told) _ λ t e. Ends-some (Looks d) _ (
      print_str-Looks d (codes " ") 0 t (
        prompt_loop-Looks d (sh.depth + 1) 0 told
          (print_str-Looks d (codes "OperatingStess@User:~") 0b1010 sh v) t e))

round-IsShell :
    (frame : Frame) (command : List ℕ) (sh : Shell)
    → IsCommand command
    → IsShell sh
    → Ends IsShell (round frame command sh)
unfolding round
round-IsShell frame command sh h v = Ends-bind IsShell (prompt sh) _ λ asked e.
    let w = prompt-Looks sh.fs.disk sh (record { valid = v; disk = refl }) asked e in
    Ends-bind IsShell (parse_command frame command asked) _ λ done e1. Ends-some IsShell _ (
      print_str-IsShell (codes "\n") 0 done
        (parse_command-IsShell frame command asked done h w.valid e1))

-- From a well-formed state of the shell, the rounds for any sequence of lines of 256 bytes, as long
-- as none faults, end in a well-formed state: the depth is below 100, and the disk, the allocation
-- table and the directory are in their declared sizes.
pub rounds-IsShell :
    (lines : List (Frame × List ℕ)) (sh sh' : Shell)
    → All (λ (l : Frame × List ℕ). IsCommand l.1) lines
    → IsShell sh
    → rounds lines sh ≡ some sh'
    → IsShell sh'
unfolding rounds
rounds-IsShell [] sh sh' h v run = Ends-some IsShell sh v sh' run
rounds-IsShell ((frame, command) ∷ lines) sh sh' h v run =
    Ends-bind IsShell (round frame command sh) _
      (λ t e t' e'. rounds-IsShell lines t t' h.1 (round-IsShell frame command sh h.0 v t e) e') sh'
      run

-- A command that does not begin with the name of one that writes.
abbrev pub OnlyLooks : List ℕ → Type 0
OnlyLooks command =
    (starts command (codes "mkdir") ≡ false)
    × (starts command (codes "cp") ≡ false)
    × (starts command (codes "mv") ≡ false)
    × (starts command (codes "rm") ≡ false)

round-Looks :
    (d : Storage) (frame : Frame) (command : List ℕ) (sh : Shell)
    → OnlyLooks command
    → Looks d sh
    → Ends (Looks d) (round frame command sh)
unfolding round
round-Looks d frame command sh h v = Ends-bind (Looks d) (prompt sh) _ λ asked e.
    let w = prompt-Looks d sh v asked e in
    Ends-bind (Looks d) (parse_command frame command asked) _ λ done e1.
      let (disk, valid) = parse_command_looks frame command asked done w.valid h.0 h.1 h.2 h.3 e1 in
      Ends-some (Looks d) _
        (print_str-Looks d (codes "\n") 0 done (record { valid = valid; disk = disk ∙ w.disk }))

pub rounds-Looks :
    (d : Storage) (lines : List (Frame × List ℕ)) (sh : Shell)
    → All (λ (l : Frame × List ℕ). OnlyLooks l.1) lines
    → Looks d sh
    → Ends (Looks d) (rounds lines sh)
unfolding rounds
rounds-Looks d [] sh h v = Ends-some (Looks d) sh v
rounds-Looks d ((frame, command) ∷ lines) sh h v =
    Ends-bind (Looks d) (round frame command sh) _
      λ t e. rounds-Looks d lines t h.1 (round-Looks d frame command sh h.0 v t e)
