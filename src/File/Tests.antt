-- ===== src/File/Tests.antt =====
-- The open files of kernel/core/file.c on small inputs.
use ustc_26spring.Common.{true, some, List, [], ◌∷◌}
use ustc_26spring.File.{File, fd_pipe, no_file}

-- The writing end of pipe 7.
abbrev files : List File
files = no_file ∷ record no_file { kind = fd_pipe; ref = 1; writable = true; pipe = some 7 } ∷ []
