-- ===== src/Shell/Main.antt =====
-- `main` of src/user-shell.c: the splash screen, and the loop over the lines that are typed. Call
-- 7, which turns the keyboard on, is not in the shell's state.
mod Laws
mod Tests
use Prim.Native.String.{String}
use os_2024_operatingstress.Base.{
  ℕ, zero, suc, ◌+◌, ◌-◌, ◌*◌, ◌/◌, ◌%◌, ◌^◌, ◌≤◌, ◌<◌, bit_and, bit_or, ◌≡◌, refl, sym, ap, ap₂,
  ◌∙◌, fun_ext, subst, ◌≢◌, ◌↔◌, ◌⊎◌, inl, inr, Bool, true, false, not, ◌&&◌, ◌||◌, Option, none,
  some, List, [], ◌∷◌, ◌++◌, map, arith, ℤ, pos, negsuc, ltb, leb, ◌==◌, if◌then◌else◌, ltb→lt,
  lt→ltb, ==_iff, Bool-cases, Option-cases, Ends, Ends-some, Ends-bind, Ends-if, ◌>>=◌, length,
  get_elem?, get_or, set, take, drop, replicate, length-append, length-set, length-drop,
  length-take, length-replicate, take-append-drop, take-append, drop-append, take_all, eq-nil,
  get_elem?-set_self, get_elem?-set_ne, get_elem?-some, lt-length_of_some, All, All-set, All-get,
  All-append, All-get_or, All-front, All-back, All-take, All-drop, All-replicate, take-set_self,
  take-set_ge, take-append_le, All-map, set-set, split-set,
}
use os_2024_operatingstress.Fat32.Types.{DriverRequest, cluster_size, root_cluster_number}
use os_2024_operatingstress.Fat32.Driver.{DriverState}
use os_2024_operatingstress.Fat32.Read.{read}
use os_2024_operatingstress.Shell.{Shell, Frame, home, codes, print_str, call}
use os_2024_operatingstress.Shell.Parse.{clear_screen, rounds}

-- The texts of a round of `splash`, with their colours.
abbrev splash_lines : List (String × ℕ)
splash_lines =
    ("\n", 0)
    ∷ ("\n", 0)
    ∷ ("\n", 0)
    ∷ ("\n", 0)
    ∷ ("\n", 0)
    ∷ ("\n", 0)
    ∷ ("\n", 0)
    ∷ ("                      ____                    __  _          \n", 0b1010)
    ∷ ("                     / __ \\___  ___ _______ _/ /_(_)__  ___ _\n", 0b1010)
    ∷ ("                    / /_/ / _ \\/ -_) __/ _ `/ __/ / _ \\/ _ `/\n", 0b1010)
    ∷ ("                    \\____/ .__/\\__/_/  \\_,_/\\__/_/_//_/\\_, / \n", 0b1010)
    ∷ ("                        /_/  ____                     /___/  \n", 0b1010)
    ∷ ("                            / __/ /________ ___ ___                \n", 0b1010)
    ∷ ("                           _\\ \\/ __/ __/ -_|_-<(_-<                \n", 0b1010)
    ∷ ("                          /___/\\__/_/  \\__/___/___/                \n", 0b1010)
    ∷ ("\n", 0)
    ∷ ("                                   loading...                \n", 0b1111)
    ∷ ("\n", 0)
    ∷ ("\n", 0)
    ∷ ("\n", 0)
    ∷ ("\n", 0)
    ∷ ("\n", 0)
    ∷ ("\n", 0)
    ∷ []

unfoldable pub print_lines : List (String × ℕ) → Shell → Shell
print_lines [] sh = sh
print_lines ((buf, color) ∷ lines) sh = print_lines lines (print_str (codes buf) color sh)

unfoldable pub splash_loop : ℕ → Shell → Shell
splash_loop zero sh = sh
splash_loop (suc n) sh =
    let told : Shell = print_lines splash_lines sh in
    splash_loop n (record told { shown = told.shown ++ home ∷ [] })

unfoldable pub splash : Shell → Shell
splash sh = splash_loop 3000 sh

-- The globals after the first two lines of `main`; `root` is the address of the text "ROOT".
abbrev pub start_shell : ℕ → DriverState → Shell
start_shell root s = record {
  fs = s;
  depth = 0;
  list_cluster = root_cluster_number ∷ replicate 99 0;
  list_dir = root ∷ replicate 99 0;
  shown = [];
}

-- The request for the file "shell", into the local `cl`.
abbrev pub start_request : ℕ → DriverRequest
start_request cl = record {
  buf = cl;
  name = 115 ∷ 104 ∷ 101 ∷ 108 ∷ 108 ∷ 0 ∷ 0 ∷ 0 ∷ [];
  ext = 0 ∷ 0 ∷ 0 ∷ [];
  parent_cluster_number = root_cluster_number;
  buffer_size = cluster_size;
}

-- `main` up to the end of the lines that are given; `retcode` is what the stack holds for it.
unfoldable pub main : ℕ → ℕ → ℕ → List (Frame × List ℕ) → DriverState → Option Shell
main root cl retcode lines s =
    call (read (start_request cl) s) retcode (start_shell root s) >>= λ r.
    rounds lines (clear_screen (splash r.1))
