-- ===== src/Shell/Parse/Tests.antt =====
-- The theorems on the shell at concrete lines, in a directory below the root.
use os_2024_operatingstress.Base.{
  ◌+◌, ◌⊎◌, ℕ, ◌^◌, ◌≤◌, ◌<◌, ◌≡◌, refl, Option, none, some, List, [], ◌∷◌, ◌++◌, arith, get_elem?,
  replicate, All-append, All-replicate,
}
use os_2024_operatingstress.Strings.{strlen, memcmp}
use os_2024_operatingstress.Fat32.Driver.{same_bytes, load_bytes}
use os_2024_operatingstress.Fat32.Tests.{blank, blank-IsState}
use os_2024_operatingstress.Shell.{
  Shell, Frame, entry_cluster, codes, print_at, before_dot, ext_at, get_ext,
}
use os_2024_operatingstress.Shell.Valid.{IsShell}
use os_2024_operatingstress.Shell.Navigate.{cd_up, cd, enter_directory}
use os_2024_operatingstress.Shell.Files.{mv}
use os_2024_operatingstress.Shell.Parse.Moves.{mv_long_name, cd_up_returns, cd_up-enter_directory}
use os_2024_operatingstress.Shell.Parse.{parse_command}
use os_2024_operatingstress.Shell.Parse.Valid.{IsCommand}
use os_2024_operatingstress.Shell.Parse.Laws.{parse_command_looks}

abbrev shell : Shell
shell = record {
  fs = blank;
  depth = 1;
  list_cluster = 2 ∷ 3 ∷ replicate 98 0;
  list_dir = 8192 ∷ 12288 ∷ replicate 98 0;
  shown = [];
}

shell-IsShell : IsShell shell
shell-IsShell = record {
  fs = blank-IsState;
  depth = omega arith;
  list_cluster = refl;
  list_dir = refl;
  clusters =
      All-append (λ c. c < 2 ^ 32) (2 ∷ 3 ∷ []) (replicate 98 0) (omega arith)
        (All-replicate (λ c. c < 2 ^ 32) 98 (omega arith));
}

abbrev pub frame : Frame
frame = record {
  cl = 16384;
  cbuf = 65536;
  table = 32768;
  retcode = 0;
  code_write = 0;
  del_code = 0;
}

abbrev pub line : List ℕ
line = codes "cd .." ++ replicate 251 0

pub line-IsCommand : IsCommand line
line-IsCommand = record {
  length = refl;
  bytes =
      All-append (λ b. b < 256) (codes "cd ..") (replicate 251 0) (omega arith)
        (All-replicate (λ b. b < 256) 251 (omega arith));
}

-- The state that a command or the rounds end in.
abbrev pub result : Option Shell → Shell
result none = shell
result (some sh) = sh

abbrev above : Shell
above = result (parse_command frame line shell)

parse_command_looks_example : (above.fs.disk ≡ shell.fs.disk) × IsShell above
unfolding parse_command same_bytes memcmp cd cd_up print_at strlen load_bytes
parse_command_looks_example =
    parse_command_looks frame line shell above shell-IsShell refl refl refl refl refl

-- The request to move "readme.txt" to "docs".
abbrev move_line : List ℕ
move_line = codes "mv readme.txt docs" ++ replicate 238 0

mv_long_name_example : mv frame move_line shell ≡ none
unfolding get_ext before_dot ext_at
mv_long_name_example = mv_long_name frame move_line shell (6, codes "txt") refl (omega arith)

cd_up_returns_example :
    (t : Shell) × (cd_up shell ≡ some t)
    × ((t.depth + 1 ≡ shell.depth) ⊎ ((t.depth ≡ 0) × (shell.depth ≡ 0)))
    × (t.fs ≡ shell.fs)
    × (t.list_cluster ≡ shell.list_cluster)
    × (t.list_dir ≡ shell.list_dir)
unfolding strlen load_bytes
cd_up_returns_example = cd_up_returns shell (omega arith) refl (λ i dir lt got. (0, refl))

cd_up-enter_directory_example :
    (t u : Shell) × (enter_directory 32800 shell ≡ some t)
    × (t.depth ≡ 2)
    × (get_elem? t.list_cluster t.depth ≡ some (entry_cluster shell 32800))
    × (get_elem? t.list_dir t.depth ≡ some 32800)
    × (t.fs ≡ shell.fs)
    × (cd_up t ≡ some u)
    × (u.depth ≡ 1)
    × (u.fs ≡ shell.fs)
    × ((i : ℕ) → i ≤ 1 → get_elem? u.list_cluster i ≡ get_elem? shell.list_cluster i)
    × ((i : ℕ) → i ≤ 1 → get_elem? u.list_dir i ≡ get_elem? shell.list_dir i)
unfolding strlen load_bytes
cd_up-enter_directory_example =
    cd_up-enter_directory 32800 12288 0 shell (omega arith) refl refl refl refl
