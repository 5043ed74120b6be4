-- ===== src/Sys/Paths.antt =====
-- Calls on paths of kernel/core/syscall.c: `create`, `sys_mkdir`, `sys_chdir`, `isdirempty`, `sys_link` and
-- `sys_unlink`, for one caller. A path is what `copyinstr` has copied, `none` if it could not. `cwd` is the
-- slot of the directory of the process, and 0, an inode or a failure is an Option or a Bool.
use ustc_26spring.Common.{
  ℕ, ◌+◌, ◌-◌, ◌%◌, ◌^◌, Bool, true, false, ◌&&◌, ◌||◌, not, ltb, ◌==◌, if◌then◌else◌, Option, none,
  some, List, [], ◌∷◌, set, replicate,
}
use ustc_26spring.Common.Result.{Result, ok, ◌>>=◌}
use ustc_26spring.Bio.{Disk}
use ustc_26spring.Fs.Bitmap.{Superblock}
use ustc_26spring.Fs.Inode.{Inode, naddrs, inode_at}
use ustc_26spring.Fs.Dinode.{ilock, iunlock, iupdate, ialloc}
use ustc_26spring.Fs.Dirs.{iput, dirlookup, dirlink}
use ustc_26spring.Fs.Paths.{namei, nameiparent}
use ustc_26spring.Sys.Open.{t_dir, t_file}

abbrev pub t_device : ℕ
t_device = 3

-- Whether a number of links, a short, is above 0.
abbrev pub has_links : ℕ → Bool
has_links n = ltb 0 n && ltb n (2 ^ 15)

abbrev pub one_more : ℕ → ℕ
one_more n = (n + 1) % 2 ^ 16

abbrev pub one_less : ℕ → ℕ
one_less n = (n + (2 ^ 16 - 1)) % 2 ^ 16

-- if (nlink > 0) nlink--;
abbrev pub less_if_any : ℕ → ℕ
less_if_any n = if has_links n then one_less n else n

abbrev pub dot : List ℕ
dot = 46 ∷ []

abbrev pub dot_dot : List ℕ
dot_dot = 46 ∷ 46 ∷ []

-- Beyond a list is a 0.
unfoldable pub streq : List ℕ → List ℕ → Bool
streq [] [] = true
streq [] (b ∷ t) = b == 0
streq (a ∷ s) [] = a == 0
streq (a ∷ s) (b ∷ t) =
    let rest = streq s t in
    if (a == 0) || (b == 0) then (a == 0) && (b == 0) else if a == b then rest else false

module _ (sb : Superblock) where
  -- ilock(ip); type = ip->type; nlink = ip->nlink; iunlock(ip);
  unfoldable pub look_at : ℕ → List Inode → Disk → Result (Inode × List Inode)
  look_at i t d =
      ilock sb (inode_at i t) d >>= λ ip. iunlock sb true ip >>= λ jp. ok (ip, set t i jp)

  -- ilock(ip); ip->nlink = f(ip->nlink); iupdate(ip); iunlock(ip);
  unfoldable pub relink : (ℕ → ℕ) → ℕ → List Inode → Disk → Result (List Inode × Disk)
  relink f i t d = ilock sb (inode_at i t) d >>= λ ip.
      iupdate sb true (record ip { nlink = f ip.nlink }) d >>= λ (jp, d').
      iunlock sb true jp >>= λ kp. ok (set t i kp, d')

  -- The new inode is filled in.
  unfoldable pub fill_inode : ℕ → ℕ → List Inode → Disk → Result (List Inode × Disk)
  fill_inode type i t d = ilock sb (inode_at i t) d >>= λ ip.
      iupdate sb true
        (record ip {
          type = type;
          major = 0;
          minor = 0;
          nlink = 1;
          size = 0;
          addrs = replicate naddrs 0;
        })
        d
      >>= λ (jp, d'). iunlock sb true jp >>= λ kp. ok (set t i kp, d')

  -- The end of a call that gives one or two inodes back.
  abbrev pub put_one : {A : Type 0} → A → ℕ → List Inode → Disk → Result (A × List Inode × Disk)
  put_one r i t d = iput sb i t d >>= λ (u, d'). ok (r, u, d')

  abbrev pub put_two : {A : Type 0} → A → ℕ → ℕ → List Inode → Disk → Result (A × List Inode × Disk)
  put_two r i j t d = iput sb i t d >>= λ (u, d'). put_one r j u d'

  -- `create` after a failure: the new inode j of the directory i goes.
  unfoldable pub undo_create : ℕ → ℕ → List Inode → Disk → Result (Option ℕ × List Inode × Disk)
  unfolding relink
  undo_create i j t d = relink (λ n. 0) j t d >>= λ (u, d'). put_two none j i u d'

  -- The entries "." and ".." of a new directory.
  unfoldable pub link_dots : ℕ → ℕ → ℕ → List Inode → Disk → Result (Bool × List Inode × Disk)
  link_dots type i j t d =
      if not (type == t_dir)
      then ok (true, t, d)
      else (dirlink sb false j dot (inode_at j t).inum t d >>= λ (linked, u, d').
          if not linked
          then ok (false, u, d')
          else dirlink sb false j dot_dot (inode_at i u).inum u d')

  -- The end of `create`: the directory has one more link from a new directory.
  unfoldable pub finish_create :
      ℕ → ℕ → ℕ → List Inode → Disk → Result (Option ℕ × List Inode × Disk)
  unfolding relink
  finish_create type i j t d =
      if type == t_dir
      then (relink one_more i t d >>= λ (u, d'). put_one (some j) i u d')
      else put_one (some j) i t d

  -- `create` of an inode for a name that the directory i does not have.
  unfoldable pub create_new :
      ℕ → ℕ → List ℕ → List Inode → Disk → Result (Option ℕ × List Inode × Disk)
  unfolding fill_inode undo_create link_dots finish_create
  create_new type i name t d = ialloc sb (inode_at i t).dev type t d >>= λ (new, t1, d1). elim new [
    | none ↦ put_one none i t1 d1
    | some j ↦ fill_inode type j t1 d1 >>= λ (t2, d2).
        link_dots type i j t2 d2 >>= λ (dots, t3, d3).
        if not dots
        then undo_create i j t3 d3
        else (dirlink sb false i name (inode_at j t3).inum t3 d3 >>= λ (linked, t4, d4).
            if not linked then undo_create i j t4 d4 else finish_create type i j t4 d4)
  ]

  -- `create` for a name that the directory i has for the inode j.
  unfoldable pub create_found :
      ℕ → ℕ → ℕ → List Inode → Disk → Result (Option ℕ × List Inode × Disk)
  unfolding look_at
  create_found type i j t d = look_at j t d >>= λ (ip, u).
      if (type == t_file) && ((ip.type == t_file) || (ip.type == t_device))
      then put_one (some j) i u d
      else put_two none j i u d

  unfoldable pub create_in :
      ℕ → ℕ → List ℕ → List Inode → Disk → Result (Option ℕ × List Inode × Disk)
  unfolding look_at create_new create_found
  create_in type i name t d = look_at i t d >>= λ (dp, t1).
      if not (dp.type == t_dir)
      then put_one none i t1 d
      else (dirlookup sb false i name t1 d >>= λ (found, t2). elim found [
        | some (j, off) ↦ create_found type i j t2 d
        | none ↦ create_new type i name t2 d
      ])

  module _ (rootdev : ℕ) where
    unfoldable pub create :
        Option ℕ → List ℕ → ℕ → List Inode → Disk → Result (Option ℕ × List Inode × Disk)
    unfolding create_in
    create cwd path type t d = nameiparent sb rootdev cwd path t d >>= λ w. elim w.inode [
      | none ↦ ok (none, w.table, w.disk)
      | some i ↦ create_in type i w.name w.table w.disk
    ]

    unfoldable pub sys_mkdir :
        Option ℕ → Option (List ℕ) → List Inode → Disk → Result (Bool × List Inode × Disk)
    unfolding create
    sys_mkdir cwd none t d = ok (false, t, d)
    sys_mkdir cwd (some path) t d = create cwd path t_dir t d >>= λ (new, u, d'). elim new [
      | none ↦ ok (false, u, d')
      | some i ↦ put_one true i u d'
    ]

    -- The end of `sys_chdir`, with the old directory.
    abbrev pub leave_old :
        Option ℕ → ℕ → List Inode → Disk → Result ((Bool × Option ℕ) × List Inode × Disk)
    leave_old none i t d = ok ((true, some i), t, d)
    leave_old (some old) i t d = put_one (true, some i) old t d

    -- Whether it succeeds, and the directory of the process.
    unfoldable pub sys_chdir :
        Option ℕ
        → Option (List ℕ)
        → List Inode
        → Disk
        → Result ((Bool × Option ℕ) × List Inode × Disk)
    unfolding look_at
    sys_chdir cwd none t d = ok ((false, cwd), t, d)
    sys_chdir cwd (some path) t d = namei sb rootdev cwd path t d >>= λ w. elim w.inode [
      | none ↦ ok ((false, cwd), w.table, w.disk)
      | some i ↦ look_at i w.table w.disk >>= λ (ip, u).
          if not (ip.type == t_dir)
          then put_one (false, cwd) i u w.disk
          else leave_old cwd i u w.disk
    ]
