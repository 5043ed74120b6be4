-- ===== src/Memory/Tests.antt =====
-- kernel/lib/string.c and the 64-bit accesses on small inputs.
use ustc_26spring.Common.{◌≡◌, arith}
use ustc_26spring.Memory.{Mem, memmove, load64, store64}
use ustc_26spring.Memory.Ranges.{memmove_lem}
use ustc_26spring.Memory.Words.{load64-store64_self}

-- Each byte is its address.
abbrev bytes : Mem
bytes a = a

-- The ranges overlap.
memmove_lem_example : memmove bytes 5 4 3 6 ≡ 5
memmove_lem_example = memmove_lem bytes 5 4 3 6

load64-store64_self_example : load64 (store64 bytes 16 70000) 16 ≡ 70000
load64-store64_self_example = load64-store64_self bytes 16 70000 (omega arith)
