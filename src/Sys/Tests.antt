-- ===== src/Sys/Tests.antt =====
-- Runs of the calls on descriptors.
use ustc_26spring.Common.{
  ℕ, ◌≡◌, ◌≢◌, refl, true, false, none, some, List, [], ◌∷◌, get_or, set, replicate,
}
use ustc_26spring.Common.Int.{pos, negsuc}
use ustc_26spring.File.{no_file, fileinit, filealloc, filedup, fileclose}
use ustc_26spring.Sys.Fd.{
  Fds, free_fd, fdalloc, sys_dup, sys_close, pipealloc, pipe_fds, close_each, dup_each,
}
use ustc_26spring.Sys.Open.{open_as, open_inode, sys_open}
use ustc_26spring.Sys.System.{
  Call, dup_fd, close_fd, make_pipe, fork_proc, exit_proc, unused, run_call, run_step, run, start,
}
use ustc_26spring.Sys.Counts.{refs}
use ustc_26spring.Sys.Total.{total, run-refs, run-filealloc}
use ustc_26spring.Fs.Bits.{has_bit}

-- A pipe between parent and child; the parent closes the end to read, the child duplicates an end and
-- exits, and the parent opens the console.
abbrev pipe_calls : List (ℕ × Call)
pipe_calls =
    (0, make_pipe (some 7) true)
    ∷ (0, fork_proc)
    ∷ (0, close_fd (pos 0))
    ∷ (1, dup_fd (pos 1))
    ∷ (1, exit_proc)
    ∷ (0, close_fd (negsuc 0))
    ∷ []

-- Before the child exits.
abbrev forked_calls : List (ℕ × Call)
forked_calls =
    (0, make_pipe (some 7) true) ∷ (0, fork_proc) ∷ (0, close_fd (pos 0)) ∷ (1, dup_fd (pos 1)) ∷ []

forked :
    (refs (run forked_calls (start 1)).files 0 ≡ 1)
    × (refs (run forked_calls (start 1)).files 1 ≡ 3)
unfolding run run_step run_call unused sys_dup sys_close pipealloc pipe_fds fdalloc free_fd
    close_each dup_each filealloc filedup fileclose fileinit
forked = (refl, refl)

exited :
    (refs (run pipe_calls (start 1)).files 0 ≡ 0) × (refs (run pipe_calls (start 1)).files 1 ≡ 1)
unfolding run run_step run_call unused sys_dup sys_close pipealloc pipe_fds fdalloc free_fd
    close_each dup_each filealloc filedup fileclose fileinit
exited = (refl, refl)

-- The console is opened to read and write on the lowest descriptor.
console_opened : (sys_open 2 true true none (replicate 16 none) fileinit).0.0 ≡ some 0
unfolding sys_open open_as fdalloc free_fd filealloc fileinit has_bit
console_opened = refl

-- A directory cannot be opened to write.
dir_refused : (sys_open 1 true false (some (4, 1)) (replicate 16 none) fileinit).0.0 ≡ none
unfolding sys_open open_inode open_as fdalloc free_fd filealloc fileinit has_bit fileclose
dir_refused = refl

run-refs_example :
    refs (run forked_calls (start 1)).files 1 ≡ total 1 (run forked_calls (start 1)).procs
run-refs_example = run-refs 1 forked_calls 1

abbrev parent_fds : Fds
parent_fds = none ∷ some 1 ∷ replicate 14 none

finds_first :
    filealloc 0 (run pipe_calls (start 1)).files
    ≡ some (0, set (run pipe_calls (start 1)).files 0 (record no_file { ref = 1 }))
unfolding run run_step run_call unused sys_dup sys_close pipealloc pipe_fds fdalloc free_fd
    close_each dup_each filealloc filedup fileclose fileinit
finds_first = refl

parent_left : get_or (run pipe_calls (start 1)).procs 0 none ≡ some parent_fds
unfolding run run_step run_call unused sys_dup sys_close pipealloc pipe_fds fdalloc free_fd
    close_each dup_each filealloc filedup fileclose fileinit
parent_left = refl

run-filealloc_example : get_or parent_fds 1 none ≢ some 0
run-filealloc_example = run-filealloc 1 pipe_calls finds_first 0 parent_fds parent_left 1
