-- ===== src/Strings/Tests.antt =====
-- Runs of the string functions, and the theorems at concrete inputs.
use os_2024_operatingstress.Base.{ℕ, ◌+◌, ◌-◌, ◌%◌, ◌≡◌, List, [], ◌∷◌, if◌then◌else◌}
use os_2024_operatingstress.Strings.{memmove, Memory}
use os_2024_operatingstress.Strings.Laws.{within, memmove_lem}

-- Every address holds its own lowest byte.
abbrev ramp : Memory
ramp a = a % 256

abbrev word_one : List ℕ
word_one = 111 ∷ 110 ∷ 101 ∷ 0 ∷ []

abbrev word_only : List ℕ
word_only = 111 ∷ 110 ∷ 108 ∷ 121 ∷ 0 ∷ []

memmove_lem_example :
    memmove 10 8 4 ramp 12 ≡ (if within 10 4 12 then ramp (8 + (12 - 10)) else ramp 12)
memmove_lem_example = memmove_lem 10 8 4 ramp 12
