-- ===== src/Sys/Links.antt =====
-- `isdirempty`, `sys_link` and `sys_unlink` of kernel/core/syscall.c, and sequences of the calls on paths.
use ustc_26spring.Common.{
  ℕ, zero, suc, ◌+◌, ◌*◌, ◌/◌, Bool, true, false, ◌||◌, not, leb, ◌==◌, if◌then◌else◌, Option, none,
  some, List, [], ◌∷◌, set,
}
use ustc_26spring.Common.Result.{Result, ok, panic, ◌>>=◌}
use ustc_26spring.Bio.{Disk}
use ustc_26spring.Fs.Bitmap.{Superblock}
use ustc_26spring.Fs.Inode.{Inode, inode_at}
use ustc_26spring.Fs.Dinode.{ilock, iunlock, iupdate}
use ustc_26spring.Fs.Write.{writei}
use ustc_26spring.Fs.Dirs.{dirent_size, entry_inum, read_entry, dirlookup, dirlink}
use ustc_26spring.Fs.Paths.{namei, nameiparent}
use ustc_26spring.Sys.Open.{t_dir}
use ustc_26spring.Sys.Paths.{
  has_links, one_more, one_less, less_if_any, dot, dot_dot, streq, look_at, relink, put_one,
  put_two, sys_mkdir, sys_chdir,
}

module _ (sb : Superblock) where
  -- The loop of `isdirempty` from an offset on: no entry is in use, and all can be read.
  unfoldable pub empty_from : ℕ → Inode → ℕ → Disk → Result Bool
  unfolding read_entry
  empty_from zero dp off d = ok true
  empty_from (suc fuel) dp off d = elim (leb (off + dirent_size) dp.size) [
    | false ↦ ok true
    | true ↦ elim (read_entry sb dp off d) [
      | panic ↦ panic
      | ok none ↦ ok false
      | ok (some bytes) ↦ elim (entry_inum bytes == 0) [
        | true ↦ empty_from fuel dp (off + dirent_size) d
        | false ↦ ok false
      ]
    ]
  ]

  unfoldable pub isdirempty : ℕ → List Inode → Disk → Result (Bool × List Inode)
  unfolding empty_from
  isdirempty i t d = ilock sb (inode_at i t) d >>= λ dp.
      (if dp.type == t_dir
        then empty_from (dp.size / dirent_size + 1) dp (2 * dirent_size) d
        else ok false)
      >>= λ empty. iunlock sb true dp >>= λ kp. ok (empty, set t i kp)

  -- Whether the inode j may lose its entry: it has links, and is no directory with entries.
  unfoldable pub may_unlink : ℕ → List Inode → Disk → Result (Bool × Inode × List Inode)
  unfolding look_at isdirempty
  may_unlink j t d = look_at sb j t d >>= λ (ip, u).
      if not (has_links ip.nlink)
      then ok (false, ip, u)
      else if ip.type == t_dir
      then (isdirempty j u d >>= λ (empty, v). ok (empty, ip, v))
      else ok (true, ip, u)

  -- The end of `sys_unlink`, when the entry is cleared.
  unfoldable pub drop_link : ℕ → ℕ → Bool → List Inode → Disk → Result (Bool × List Inode × Disk)
  unfolding relink
  drop_link i j dir t d = (if dir then relink sb less_if_any i t d else ok (t, d)) >>= λ (t1, d1).
      put_one sb true i t1 d1 >>= λ (r, t2, d2).
      relink sb one_less j t2 d2 >>= λ (t3, d3). put_one sb true j t3 d3

  -- `sys_unlink` of the inode j, whose entry is at an offset of the directory i.
  unfoldable pub unlink_entry : ℕ → ℕ → ℕ → List Inode → Disk → Result (Bool × List Inode × Disk)
  unfolding may_unlink drop_link
  unlink_entry i j off t d = may_unlink j t d >>= λ (may, ip, u).
      if not may
      then put_two sb false j i u d
      else (writei sb (λ k. 0) false (inode_at i u) off dirent_size d >>= λ (n, dp, d').
          if not (elim n [ none ↦ false | some m ↦ m == dirent_size ])
          then put_two sb false j i (set u i dp) d'
          else drop_link i j (ip.type == t_dir) (set u i dp) d')

  unfoldable pub unlink_in : ℕ → List ℕ → List Inode → Disk → Result (Bool × List Inode × Disk)
  unfolding look_at unlink_entry
  unlink_in i name t d = look_at sb i t d >>= λ (dp, t1).
      if not (dp.type == t_dir)
      then put_one sb false i t1 d
      else if streq name dot || streq name dot_dot
      then put_one sb false i t1 d
      else (dirlookup sb false i name t1 d >>= λ (found, t2). elim found [
        | none ↦ put_one sb false i t2 d
        | some (j, off) ↦ unlink_entry i j off t2 d
      ])

  -- The end of `sys_link` after a failure: the link of the inode i is taken back.
  unfoldable pub unlink_old : ℕ → List Inode → Disk → Result (Bool × List Inode × Disk)
  unfolding relink
  unlink_old i t d = relink sb less_if_any i t d >>= λ (u, d'). put_one sb false i u d'

  -- The new entry for the inode i in the directory j.
  unfoldable pub link_in : ℕ → ℕ → List ℕ → List Inode → Disk → Result (Bool × List Inode × Disk)
  unfolding look_at unlink_old
  link_in i j name t d = look_at sb j t d >>= λ (dp, u).
      if not (dp.type == t_dir) || not (dp.dev == (inode_at i u).dev)
      then (put_one sb false j u d >>= λ (r, v, d'). unlink_old i v d')
      else (dirlink sb false j name (inode_at i u).inum u d >>= λ (linked, v, d').
          if not linked
          then (put_one sb false j v d' >>= λ (r, w, d''). unlink_old i w d'')
          else put_two sb true j i v d')

  module _ (rootdev : ℕ) where
    unfoldable pub sys_unlink :
        Option ℕ → Option (List ℕ) → List Inode → Disk → Result (Bool × List Inode × Disk)
    unfolding unlink_in
    sys_unlink cwd none t d = ok (false, t, d)
    sys_unlink cwd (some path) t d = nameiparent sb rootdev cwd path t d >>= λ w. elim w.inode [
      | none ↦ ok (false, w.table, w.disk)
      | some i ↦ unlink_in i w.name w.table w.disk
    ]

    -- `sys_link` of the inode i, which `namei` has found.
    unfoldable pub link_inode :
        Option ℕ → ℕ → List ℕ → List Inode → Disk → Result (Bool × List Inode × Disk)
    unfolding unlink_old link_in
    link_inode cwd i path t d = ilock sb (inode_at i t) d >>= λ ip.
        if ip.type == t_dir
        then (iunlock sb true ip >>= λ kp. put_one sb false i (set t i kp) d)
        else (iupdate sb true (record ip { nlink = one_more ip.nlink }) d >>= λ (jp, d').
            iunlock sb true jp >>= λ kp. nameiparent sb rootdev cwd path (set t i kp) d' >>= λ w.
            elim w.inode [
              | none ↦ unlink_old i w.table w.disk
              | some j ↦ link_in i j w.name w.table w.disk
            ])

    unfoldable pub sys_link :
        Option ℕ → Option (List ℕ × List ℕ) → List Inode → Disk → Result (Bool × List Inode × Disk)
    unfolding link_inode
    sys_link cwd none t d = ok (false, t, d)
    sys_link cwd (some (old, new)) t d = namei sb rootdev cwd old t d >>= λ w. elim w.inode [
      | none ↦ ok (false, w.table, w.disk)
      | some i ↦ link_inode cwd i new w.table w.disk
    ]

-- A call on paths, with the paths as they are copied.
pub data PathCall : Type 0 where
  mkdir : Option (List ℕ) → PathCall
  chdir : Option (List ℕ) → PathCall
  link : Option (List ℕ × List ℕ) → PathCall
  unlink : Option (List ℕ) → PathCall

-- The directory of the process, the table of inodes and the disk.
pub record Files : Type 0 where
  pub cwd : Option ℕ
  pub table : List Inode
  pub disk : Disk

module _ (sb : Superblock) (rootdev : ℕ) where
  unfoldable pub call : PathCall → Files → Result Files
  unfolding sys_mkdir sys_chdir sys_link sys_unlink
  call (mkdir path) s = sys_mkdir sb rootdev s.cwd path s.table s.disk >>= λ (r, t, d).
      ok (record { cwd = s.cwd; table = t; disk = d })
  call (chdir path) s = sys_chdir sb rootdev s.cwd path s.table s.disk >>= λ ((r, cwd), t, d).
      ok (record { cwd = cwd; table = t; disk = d })
  call (link paths) s = sys_link sb rootdev s.cwd paths s.table s.disk >>= λ (r, t, d).
      ok (record { cwd = s.cwd; table = t; disk = d })
  call (unlink path) s = sys_unlink sb rootdev s.cwd path s.table s.disk >>= λ (r, t, d).
      ok (record { cwd = s.cwd; table = t; disk = d })

  -- Calls one after the other.
  unfoldable pub calls : List PathCall → Files → Result Files
  unfolding call
  calls [] s = ok s
  calls (c ∷ cs) s = call c s >>= calls cs
