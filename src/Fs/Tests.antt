-- ===== src/Fs/Tests.antt =====
-- Path names and the table of inodes of kernel/fs/fs.c on small inputs.
use ustc_26spring.Common.{ℕ, zero, suc, ◌≡◌, refl, List, [], ◌∷◌, some}
use ustc_26spring.Common.Result.{ok}
use ustc_26spring.Fs.Names.{slash, skipelem, skip_slashes, element, first_bytes}
use ustc_26spring.Fs.Inode.{Inode, no_inode, reset_inode, iget, scan}
use ustc_26spring.Fs.Single.{Outcome, iget-Outcome, IsSingle, iget-IsSingle}

-- //ab/c
abbrev path : List ℕ
path = slash ∷ slash ∷ 97 ∷ 98 ∷ slash ∷ 99 ∷ []

skipelem_two : skipelem path ≡ some (97 ∷ 98 ∷ [], 99 ∷ [])
unfolding skipelem skip_slashes element first_bytes
skipelem_two = refl

abbrev table : List Inode
table = no_inode ∷ no_inode ∷ []

abbrev root_only : List Inode
root_only = reset_inode 1 1 no_inode ∷ no_inode ∷ []

iget-Outcome_example : Outcome 1 1 table (iget 1 1 table)
iget-Outcome_example = iget-Outcome 1 1 table

iget_root : iget 1 1 table ≡ ok (0, root_only)
unfolding iget scan
iget_root = refl

table-IsSingle : IsSingle table
table-IsSingle dev inum zero j h h' = cc
table-IsSingle dev inum (suc zero) j h h' = cc
table-IsSingle dev inum (suc (suc i)) j h h' = cc

iget-IsSingle_example : IsSingle root_only
iget-IsSingle_example = iget-IsSingle 1 1 table table-IsSingle iget_root
