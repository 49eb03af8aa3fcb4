-- ===== src/Shell/Main/Laws.antt =====
-- What holds of the shell's `main`.
use os_2024_operatingstress.Base.{
  ℕ, zero, suc, ◌^◌, ◌<◌, ◌≡◌, refl, sym, ap, ◌∙◌, subst, some, List, [], ◌∷◌, ◌++◌, arith,
  Ends-bind, All, All-replicate,
}
use os_2024_operatingstress.Disk.{Storage}
use os_2024_operatingstress.Fat32.Driver.{DriverState}
use os_2024_operatingstress.Fat32.Driver.Invariant.{IsState}
use os_2024_operatingstress.Fat32.Read.{read}
use os_2024_operatingstress.Shell.{Shell, Frame, Output, home, codes, call, print_str}
use os_2024_operatingstress.Shell.Valid.{IsShell, Looks, call-read-Looks}
use os_2024_operatingstress.Shell.Parse.{clear_screen}
use os_2024_operatingstress.Shell.Parse.Laws.{OnlyLooks, rounds-Looks}
use os_2024_operatingstress.Shell.Main.{
  splash_lines, print_lines, splash_loop, splash, start_shell, start_request, main,
}
use Prim.Native.String.{String}

-- Printing lines, and the splash screen, change what is shown only.
print_lines-shown :
    (lines : List (String × ℕ)) (sh : Shell)
    → (out : List Output) × (print_lines lines sh ≡ record sh { shown = out })
unfolding print_lines
print_lines-shown [] sh = (sh.shown, refl)
print_lines-shown ((buf, color) ∷ lines) sh =
    print_lines-shown lines (print_str (codes buf) color sh)

splash_loop-shown :
    (n : ℕ) (sh : Shell) → (out : List Output) × (splash_loop n sh ≡ record sh { shown = out })
unfolding splash_loop
splash_loop-shown zero sh = (sh.shown, refl)
splash_loop-shown (suc n) sh =
    let (out, e) = print_lines-shown splash_lines sh in
    let (out', e') = splash_loop-shown n (record sh { shown = out ++ home ∷ [] }) in
    (out', ap (λ (t : Shell). splash_loop n (record t { shown = t.shown ++ home ∷ [] })) e ∙ e')

pub splash-shown : (sh : Shell) → (out : List Output) × (splash sh ≡ record sh { shown = out })
unfolding splash
splash-shown sh = splash_loop-shown 3000 sh

splash-Looks : (d : Storage) (sh : Shell) → Looks d sh → Looks d (splash sh)
splash-Looks d sh v =
    let (out, e) = splash-shown sh in
    let valid : IsShell (record sh { shown = out }) = record {
      fs = v.valid.fs;
      depth = v.valid.depth;
      list_cluster = v.valid.list_cluster;
      list_dir = v.valid.list_dir;
      clusters = v.valid.clusters;
    } in
    subst (Looks d) (sym e) (record { valid = valid; disk = v.disk })

clear_screen-Looks : (d : Storage) (sh : Shell) → Looks d sh → Looks d (clear_screen sh)
clear_screen-Looks d sh v =
    let valid : IsShell (clear_screen sh) = record {
      fs = v.valid.fs;
      depth = v.valid.depth;
      list_cluster = v.valid.list_cluster;
      list_dir = v.valid.list_dir;
      clusters = v.valid.clusters;
    } in
    record { valid = valid; disk = v.disk }

-- From a well-formed state of the file system, the shell's `main`, where it does not fault, leaves
-- the disk as it was after any sequence of lines of which none begins with "mkdir", "cp", "mv" or
-- "rm".
pub main_looks :
    (root cl retcode : ℕ) (lines : List (Frame × List ℕ)) (s : DriverState) (sh : Shell)
    → IsState s
    → All (λ (l : Frame × List ℕ). OnlyLooks l.1) lines
    → main root cl retcode lines s ≡ some sh
    → sh.fs.disk ≡ s.disk
unfolding main
main_looks root cl retcode lines s sh v h run =
    let start : IsShell (start_shell root s) = record {
      fs = v;
      depth = omega arith;
      list_cluster = refl;
      list_dir = refl;
      clusters = (omega arith, All-replicate (λ c. c < 2 ^ 32) 99 (omega arith));
    } in
    let w =
      Ends-bind (Looks s.disk) (call (read (start_request cl) s) retcode (start_shell root s)) _
        (λ r e.
          let read_back =
            call-read-Looks s.disk (start_request cl) retcode (start_shell root s)
              (record { valid = start; disk = refl }) r e in
          rounds-Looks s.disk lines _ h
            (clear_screen-Looks s.disk _ (splash-Looks s.disk r.1 read_back)))
        sh run in
    w.disk
