-- ===== src/Shell/Parse.antt =====
-- `parseCommand` of src/user-shell.c, and the rounds of the loop of `main`.
mod Looks
pub mod Valid
pub mod Laws
mod Moves
pub mod Tests
use os_2024_operatingstress.Base.{
  ℕ, zero, suc, ◌+◌, ◌-◌, ◌*◌, ◌/◌, ◌%◌, ◌^◌, ◌≤◌, ◌<◌, bit_and, bit_or, ◌≡◌, refl, sym, ap, ap₂,
  ◌∙◌, fun_ext, subst, ◌≢◌, ◌↔◌, ◌⊎◌, inl, inr, Bool, true, false, not, ◌&&◌, ◌||◌, Option, none,
  some, List, [], ◌∷◌, ◌++◌, map, arith, ℤ, pos, negsuc, ltb, leb, ◌==◌, if◌then◌else◌, ltb→lt,
  lt→ltb, ==_iff, Bool-cases, Option-cases, ◌>>=◌, length, get_elem?, get_or, set, take, drop,
  replicate, length-append, length-set, length-drop, length-take, length-replicate,
  take-append-drop, take-append, drop-append, take_all, eq-nil, get_elem?-set_self,
  get_elem?-set_ne, get_elem?-some, lt-length_of_some, All, All-set, All-get, All-append,
  All-get_or, All-front, All-back, All-take, All-drop, All-replicate, take-set_self, take-set_ge,
  take-append_le, All-map, set-set, split-set,
}
use os_2024_operatingstress.Fat32.Types.{DriverRequest, cluster_size, root_cluster_number}
use os_2024_operatingstress.Fat32.Read.{read}
use os_2024_operatingstress.Shell.{
  clear, Shell, Frame, Output, codes, print_str, print_at, call, starts, no_ext,
}
use os_2024_operatingstress.Shell.Navigate.{cd, ls, find}
use os_2024_operatingstress.Shell.Files.{mkdir, cat, cp, mv, rm}

-- `clearScreen`
abbrev pub clear_screen : Shell → Shell
clear_screen sh = record sh { shown = sh.shown ++ clear ∷ [] }

-- `parseCommand`: the first word that the command begins with.
unfoldable pub parse_command : Frame → List ℕ → Shell → Option Shell
parse_command frame command sh =
    if starts command (codes "cd")
    then cd frame command sh
    else if starts command (codes "ls")
    then ls frame sh
    else if starts command (codes "mkdir")
    then mkdir frame command sh
    else if starts command (codes "cat")
    then cat frame command sh
    else if starts command (codes "cp")
    then cp frame command sh
    else if starts command (codes "mv")
    then mv frame command sh
    else if starts command (codes "rm")
    then rm frame command sh
    else if starts command (codes "cls")
    then some (clear_screen sh)
    else if starts command (codes "find")
    then find frame command sh
    else some (print_str (codes "Masukkin command yang bener dong") 0b1001 sh)

-- The path in the prompt, `n` directories left.
unfoldable pub prompt_loop : ℕ → ℕ → Shell → Option Shell
prompt_loop zero i sh = some sh
prompt_loop (suc n) i sh = get_elem? sh.list_dir i >>= λ dir.
    print_at 256 dir 0b1101 (print_str (codes "/") 0b1101 sh) >>= λ sh'. prompt_loop n (i + 1) sh'

unfoldable pub prompt : Shell → Option Shell
prompt sh =
    prompt_loop (sh.depth + 1) 0 (print_str (codes "OperatingStess@User:~") 0b1010 sh) >>= λ sh'.
    some (print_str (codes " ") 0 sh')

-- A round of the loop of `main`: `command` is the line that the keyboard call gives.
unfoldable pub round : Frame → List ℕ → Shell → Option Shell
round frame command sh = prompt sh >>= λ asked.
    parse_command frame command asked >>= λ done. some (print_str (codes "\n") 0 done)

-- The rounds for a sequence of lines.
unfoldable pub rounds : List (Frame × List ℕ) → Shell → Option Shell
rounds [] sh = some sh
rounds ((frame, command) ∷ lines) sh = round frame command sh >>= λ sh'. rounds lines sh'
