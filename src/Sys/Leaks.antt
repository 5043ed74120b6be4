-- ===== src/Sys/Leaks.antt =====
-- The references of the slots of the table of inodes through `sys_link` and `sys_unlink` of
-- kernel/core/syscall.c, and through sequences of calls on paths.
use ustc_26spring.Common.{
  ℕ, ◌+◌, ◌*◌, ◌/◌, ◌≡◌, ◌∙◌, Bool, true, false, not, ◌||◌, ◌==◌, if◌then◌else◌, Option, none, some,
  List, [], ◌∷◌, set, arith,
}
use ustc_26spring.Common.Result.{ok, ◌>>=◌}
use ustc_26spring.Bio.{Disk}
use ustc_26spring.Fs.Bitmap.{Superblock}
use ustc_26spring.Fs.Inode.{Inode, inode_at}
use ustc_26spring.Fs.Write.{writei}
use ustc_26spring.Fs.Dirs.{dirent_size}
use ustc_26spring.Fs.Held.{
  Ok, fine, Ok-bind, Ok-if, Ok_result, any_result, ilock-ref, iunlock-ref, iupdate-ref, writei-ref,
}
use ustc_26spring.Fs.Refs.{
  HasRefs, plus, plus_found, plus_entry, set-HasRefs, dirlookup-HasRefs, dirlink-HasRefs,
}
use ustc_26spring.Fs.Balance.{namex-Refs}
use ustc_26spring.Sys.Open.{t_dir}
use ustc_26spring.Sys.Paths.{
  has_links, one_more, one_less, less_if_any, dot, dot_dot, streq, put_one, put_two,
}
use ustc_26spring.Sys.Balance.{
  look_at-Refs, relink-Refs, put_one-Refs, put_two-Refs, sys_mkdir-Refs, sys_chdir-Refs,
}
use ustc_26spring.Sys.Links.{
  empty_from, isdirempty, may_unlink, drop_link, unlink_entry, unlink_in, unlink_old, link_in,
  sys_unlink, link_inode, sys_link, PathCall, mkdir, chdir, link, unlink, Files, call, calls,
}

module _ (sb : Superblock) (b : ℕ → ℕ) where
  isdirempty-Refs :
      (i : ℕ) (t : List Inode) (d : Disk)
      → HasRefs b t
      → Ok (λ r. HasRefs b r.1) (isdirempty sb i t d)
  unfolding isdirempty
  isdirempty-Refs i t d h = Ok-bind _ (ilock-ref sb (inode_at i t) d) (λ dp e.
      Ok-bind _
        (any_result (
          if dp.type == t_dir
          then empty_from sb (dp.size / dirent_size + 1) dp (2 * dirent_size) d
          else ok false))
        (λ empty u.
          Ok-bind _ (iunlock-ref sb true dp) (λ kp f. fine (set-HasRefs b t i kp (f ∙ e) h))))

  may_unlink-Refs :
      (j : ℕ) (t : List Inode) (d : Disk)
      → HasRefs b t
      → Ok (λ r. HasRefs b r.2) (may_unlink sb j t d)
  unfolding may_unlink
  may_unlink-Refs j t d h = Ok-bind _ (look_at-Refs sb b j t d h) (λ r g.
      Ok-if (not (has_links r.0.nlink)) (fine g) (
        Ok-if (r.0.type == t_dir) (Ok-bind _ (isdirempty-Refs j r.1 d g) (λ s k. fine k)) (fine g)))

-- What is left when a call returns, whatever it returns.
abbrev always : (ℕ → ℕ) → Bool → ℕ → ℕ
always b r = b

module _ (sb : Superblock) (b : ℕ → ℕ) where
  drop_link-Refs :
      (i j : ℕ) (dir : Bool) (t : List Inode) (d : Disk)
      → HasRefs (plus i (plus j b)) t
      → Ok (λ r. HasRefs b r.1) (drop_link sb i j dir t d)
  unfolding drop_link
  drop_link-Refs i j dir t d h =
      Ok-bind (λ r. HasRefs (plus i (plus j b)) r.0)
        (Ok-if dir (relink-Refs sb (plus i (plus j b)) less_if_any i t d h) (fine h))
        (λ r1 h1. Ok-bind _ (put_one-Refs sb (always (plus j b)) true i r1.0 r1.1 h1) (λ r2 h2.
          Ok-bind _ (relink-Refs sb (plus j b) one_less j r2.1 r2.2 h2)
            (λ r3 h3. put_one-Refs sb (always b) true j r3.0 r3.1 h3)))

  unlink_entry-Refs :
      (i j off : ℕ) (t : List Inode) (d : Disk)
      → HasRefs (plus j (plus i b)) t
      → Ok (λ r. HasRefs b r.1) (unlink_entry sb i j off t d)
  unfolding unlink_entry
  unlink_entry-Refs i j off t d h =
      Ok-bind _ (may_unlink-Refs sb (plus j (plus i b)) j t d h) (λ r g. checked r.0 r.1 r.2 g)
    where
      swap : (u : List Inode) → HasRefs (plus j (plus i b)) u → HasRefs (plus i (plus j b)) u
      swap u g k = ground (arith, g k)

      checked :
          (may : Bool) (ip : Inode) (u : List Inode)
          → HasRefs (plus j (plus i b)) u
          → Ok
              (λ (r : Bool × List Inode × Disk). HasRefs b r.1)
              (if not may
                then put_two sb false j i u d
                else (writei sb (λ k. 0) false (inode_at i u) off dirent_size d >>= λ (n, dp, d').
                    if not (elim n [ none ↦ false | some m ↦ m == dirent_size ])
                    then put_two sb false j i (set u i dp) d'
                    else drop_link sb i j (ip.type == t_dir) (set u i dp) d'))
      checked may ip u g = Ok-if (not may) (put_two-Refs sb (always b) false j i u d g) (
          Ok-bind _ (writei-ref sb (λ k. 0) false (inode_at i u) off dirent_size d) (λ r e.
            let kept = set-HasRefs (plus j (plus i b)) u i r.1 e g in
            Ok-if (not (elim r.0 [ none ↦ false | some m ↦ m == dirent_size ]))
              (put_two-Refs sb (always b) false j i (set u i r.1) r.2 kept)
              (drop_link-Refs i j (ip.type == t_dir) (set u i r.1) r.2 (swap (set u i r.1) kept))))

  unlink_in-Refs :
      (i : ℕ) (name : List ℕ) (t : List Inode) (d : Disk)
      → HasRefs (plus i b) t
      → Ok (λ r. HasRefs b r.1) (unlink_in sb i name t d)
  unfolding unlink_in
  unlink_in-Refs i name t d h = Ok-bind _ (look_at-Refs sb (plus i b) i t d h) (λ r1 h1.
      Ok-if (not (r1.0.type == t_dir)) (put_one-Refs sb (always b) false i r1.1 d h1) (
        Ok-if (streq name dot || streq name dot_dot) (put_one-Refs sb (always b) false i r1.1 d h1)
          (Ok-bind _ (dirlookup-HasRefs sb (plus i b) false i name r1.1 d h1)
            (λ r2 h2. on_found r2.0 r2.1 h2))))
    where
      on_found :
          (found : Option (ℕ × ℕ)) (t2 : List Inode)
          → HasRefs (plus_entry found (plus i b)) t2
          → Ok
              (λ (r : Bool × List Inode × Disk). HasRefs b r.1)
              (elim found [
                | none ↦ put_one sb false i t2 d
                | some (j, off) ↦ unlink_entry sb i j off t2 d
              ])
      on_found none t2 g = put_one-Refs sb (always b) false i t2 d g
      on_found (some (j, off)) t2 g = unlink_entry-Refs i j off t2 d g

  unlink_old-Refs :
      (i : ℕ) (t : List Inode) (d : Disk)
      → HasRefs (plus i b) t
      → Ok (λ r. HasRefs b r.1) (unlink_old sb i t d)
  unfolding unlink_old
  unlink_old-Refs i t d h =
      Ok-bind _ (relink-Refs sb (plus i b) less_if_any i t d h)
        (λ r g. put_one-Refs sb (always b) false i r.0 r.1 g)

  link_in-Refs :
      (i j : ℕ) (name : List ℕ) (t : List Inode) (d : Disk)
      → HasRefs (plus j (plus i b)) t
      → Ok (λ r. HasRefs b r.1) (link_in sb i j name t d)
  unfolding link_in
  link_in-Refs i j name t d h = Ok-bind _ (look_at-Refs sb (plus j (plus i b)) j t d h) (λ r1 h1.
      Ok-if (not (r1.0.type == t_dir) || not (r1.0.dev == (inode_at i r1.1).dev))
        (Ok-bind _ (put_one-Refs sb (always (plus i b)) false j r1.1 d h1)
          (λ r2 h2. unlink_old-Refs i r2.1 r2.2 h2))
        (Ok-bind _
          (dirlink-HasRefs sb (plus j (plus i b)) false j name (inode_at i r1.1).inum r1.1 d h1)
          (λ r3 h3.
            Ok-if (not r3.0)
              (Ok-bind _ (put_one-Refs sb (always (plus i b)) false j r3.1 r3.2 h3)
                (λ r4 h4. unlink_old-Refs i r4.1 r4.2 h4))
              (put_two-Refs sb (always b) true j i r3.1 r3.2 h3))))

  module _ (rootdev : ℕ) (cwd : Option ℕ) where
    sys_unlink-Refs :
        (path : Option (List ℕ)) (t : List Inode) (d : Disk)
        → HasRefs b t
        → Ok (λ r. HasRefs b r.1) (sys_unlink sb rootdev cwd path t d)
    unfolding sys_unlink
    sys_unlink-Refs none t d h = fine h
    sys_unlink-Refs (some path) t d h =
        Ok-bind _ (namex-Refs sb b rootdev cwd true path t d h)
          (λ w g. on_walk w.inode w.name w.table w.disk g)
      where
        on_walk :
            (inode : Option ℕ) (name : List ℕ) (u : List Inode) (d' : Disk)
            → HasRefs (plus_found inode b) u
            → Ok
                (λ (r : Bool × List Inode × Disk). HasRefs b r.1)
                (elim inode [ none ↦ ok (false, u, d') | some i ↦ unlink_in sb i name u d' ])
        on_walk none name u d' g = fine g
        on_walk (some i) name u d' g = unlink_in-Refs i name u d' g

    link_inode-Refs :
        (i : ℕ) (path : List ℕ) (t : List Inode) (d : Disk)
        → HasRefs (plus i b) t
        → Ok (λ r. HasRefs b r.1) (link_inode sb rootdev cwd i path t d)
    unfolding link_inode
    link_inode-Refs i path t d h = Ok-bind _ (ilock-ref sb (inode_at i t) d) (λ ip e.
        Ok-if (ip.type == t_dir)
          (Ok-bind _ (iunlock-ref sb true ip) (λ kp k.
            put_one-Refs sb (always b) false i (set t i kp) d
              (set-HasRefs (plus i b) t i kp (k ∙ e) h)))
          (Ok-bind _ (iupdate-ref sb true (record ip { nlink = one_more ip.nlink }) d) (λ r g.
            Ok-bind _ (iunlock-ref sb true r.0) (λ kp k.
              Ok-bind _
                (namex-Refs sb (plus i b) rootdev cwd true path (set t i kp) r.1
                  (set-HasRefs (plus i b) t i kp (k ∙ g ∙ e) h))
                (λ w l. on_walk w.inode w.name w.table w.disk l)))))
      where
        on_walk :
            (inode : Option ℕ) (name : List ℕ) (u : List Inode) (d' : Disk)
            → HasRefs (plus_found inode (plus i b)) u
            → Ok
                (λ (r : Bool × List Inode × Disk). HasRefs b r.1)
                (elim inode [ none ↦ unlink_old sb i u d' | some j ↦ link_in sb i j name u d' ])
        on_walk none name u d' g = unlink_old-Refs i u d' g
        on_walk (some j) name u d' g = link_in-Refs i j name u d' g

    sys_link-Refs :
        (paths : Option (List ℕ × List ℕ)) (t : List Inode) (d : Disk)
        → HasRefs b t
        → Ok (λ r. HasRefs b r.1) (sys_link sb rootdev cwd paths t d)
    unfolding sys_link
    sys_link-Refs none t d h = fine h
    sys_link-Refs (some (old, new)) t d h =
        Ok-bind _ (namex-Refs sb b rootdev cwd false old t d h)
          (λ w g. on_walk w.inode w.table w.disk g)
      where
        on_walk :
            (inode : Option ℕ) (u : List Inode) (d' : Disk)
            → HasRefs (plus_found inode b) u
            → Ok
                (λ (r : Bool × List Inode × Disk). HasRefs b r.1)
                (elim inode [
                  | none ↦ ok (false, u, d')
                  | some i ↦ link_inode sb rootdev cwd i new u d'
                ])
        on_walk none u d' g = fine g
        on_walk (some i) u d' g = link_inode-Refs i new u d' g

module _ (sb : Superblock) (rootdev : ℕ) (b : ℕ → ℕ) where
  -- Besides those that others hold, there is a reference for the directory of the process.
  abbrev Balanced : Files → Type 0
  Balanced s = HasRefs (plus_found s.cwd b) s.table

  call-Balanced : (c : PathCall) (s : Files) → Balanced s → Ok Balanced (call sb rootdev c s)
  unfolding call
  call-Balanced (mkdir path) s h =
      Ok-bind _ (sys_mkdir-Refs sb (plus_found s.cwd b) rootdev s.cwd path s.table s.disk h)
        (λ r g. fine g)
  call-Balanced (chdir path) s h =
      Ok-bind _ (sys_chdir-Refs sb b rootdev s.cwd path s.table s.disk h) (λ r g. fine g)
  call-Balanced (link paths) s h =
      Ok-bind _ (sys_link-Refs sb (plus_found s.cwd b) rootdev s.cwd paths s.table s.disk h)
        (λ r g. fine g)
  call-Balanced (unlink path) s h =
      Ok-bind _ (sys_unlink-Refs sb (plus_found s.cwd b) rootdev s.cwd path s.table s.disk h)
        (λ r g. fine g)

  calls-Balanced :
      (cs : List PathCall) (s : Files) → Balanced s → Ok Balanced (calls sb rootdev cs s)
  unfolding calls
  calls-Balanced [] s h = fine h
  calls-Balanced (c ∷ cs) s h = Ok-bind _ (call-Balanced c s h) (λ r g. calls-Balanced cs r g)

-- When each slot of the table of inodes has b references from elsewhere and one more if it is the directory of
-- the process, then it has the same b, and one more if it is the new directory of the process, after any calls of
-- `sys_mkdir`, `sys_chdir`, `sys_link` and `sys_unlink` that return, whether they succeed or fail.
pub calls-refs :
    (sb : Superblock) (rootdev : ℕ) (b : ℕ → ℕ) (cs : List PathCall) (s : Files) {s' : Files}
    → ((k : ℕ) → (inode_at k s.table).ref ≡ plus_found s.cwd b k)
    → calls sb rootdev cs s ≡ ok s'
    → (k : ℕ) → (inode_at k s'.table).ref ≡ plus_found s'.cwd b k
calls-refs sb rootdev b cs s {s'} h e = Ok_result (rw e at (calls-Balanced sb rootdev b cs s h))
