-- ===== src/Shell/Main/Tests.antt =====
-- The shell's `main` on a blank disk, with one line.
use os_2024_operatingstress.Base.{ℕ, ◌≡◌, refl, some, List, [], ◌∷◌}
use os_2024_operatingstress.Shell.{call, print_at}
use os_2024_operatingstress.Strings.{memcmp, strlen}
use os_2024_operatingstress.Disk.{read_blocks}
use os_2024_operatingstress.Fat32.Codec.{decode_table, decode_entry}
use os_2024_operatingstress.Fat32.Driver.{read_table, read_clusters, same_bytes, load_bytes}
use os_2024_operatingstress.Fat32.Read.{read, read_scan, matches_file}
use os_2024_operatingstress.Shell.Navigate.{cd, cd_up}
use os_2024_operatingstress.Shell.Parse.{
  clear_screen, rounds, round, prompt, prompt_loop, parse_command,
}
use os_2024_operatingstress.Fat32.Tests.{blank, blank-IsState}
use os_2024_operatingstress.Shell.{Shell, Frame, codes}
use os_2024_operatingstress.Shell.Main.{start_shell, start_request, main}
use os_2024_operatingstress.Shell.Main.Laws.{splash-shown, main_looks}
use os_2024_operatingstress.Shell.Parse.Tests.{frame, line, result}

back : codes " \\ " ≡ 32 ∷ 92 ∷ 32 ∷ []
back = refl

abbrev lines : List (Frame × List ℕ)
lines = (frame, line) ∷ []

-- The state when the splash screen starts: there is no file "shell" on a blank disk.
abbrev started : Shell
started = record (start_shell 8192 blank) {
  fs = record blank { dir_table_buf = read_table blank.disk 2 };
}

-- The state when the loop starts.
abbrev splashed : Shell
splashed = clear_screen (record started { shown = (splash-shown started).0 })

abbrev after : Shell
after = result (rounds lines splashed)

shell_missing :
    call (read (start_request 16384) blank) 0 (start_shell 8192 blank) ≡ some (2, started)
unfolding call read read_table decode_table decode_entry read_clusters read_blocks read_scan
    matches_file same_bytes memcmp
shell_missing = refl

rounds_run : rounds lines splashed ≡ some after
unfolding rounds round prompt prompt_loop parse_command same_bytes memcmp cd cd_up print_at strlen
    load_bytes
rounds_run = refl

main_looks_example : after.fs.disk ≡ blank.disk
unfolding main same_bytes memcmp
main_looks_example =
    main_looks 8192 16384 0 lines blank after blank-IsState ((refl, refl, refl, refl), tt)
      (rw (shell_missing, (splash-shown started).1) rounds_run)
