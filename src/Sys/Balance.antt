-- ===== src/Sys/Balance.antt =====
-- The references of the slots of the table of inodes through the calls on paths of kernel/core/syscall.c.
use ustc_26spring.Common.{
  ℕ, ◌∙◌, Bool, true, false, not, ◌&&◌, ◌||◌, ◌==◌, if◌then◌else◌, Option, none, some, List,
  replicate, arith,
}
use ustc_26spring.Common.Result.{ok, ◌>>=◌}
use ustc_26spring.Bio.{Disk}
use ustc_26spring.Fs.Bitmap.{Superblock}
use ustc_26spring.Fs.Inode.{Inode, naddrs, inode_at}
use ustc_26spring.Fs.Dirs.{dirlink}
use ustc_26spring.Fs.Held.{Ok, fine, Ok-bind, Ok-if, ilock-ref, iunlock-ref, iupdate-ref}
use ustc_26spring.Fs.Refs.{
  HasRefs, plus, plus_found, plus_entry, set-HasRefs, iput-HasRefs, ialloc-HasRefs,
  dirlookup-HasRefs, dirlink-HasRefs,
}
use ustc_26spring.Fs.Balance.{namex-Refs}
use ustc_26spring.Sys.Open.{t_dir, t_file}
use ustc_26spring.Sys.Paths.{
  t_device, one_more, dot, dot_dot, look_at, relink, fill_inode, put_one, put_two, undo_create,
  link_dots, finish_create, create_new, create_found, create_in, create, sys_mkdir, leave_old,
  sys_chdir,
}

module _ (sb : Superblock) where
  module _ (b : ℕ → ℕ) where
    pub look_at-Refs :
        (i : ℕ) (t : List Inode) (d : Disk)
        → HasRefs b t
        → Ok (λ r. HasRefs b r.1) (look_at sb i t d)
    unfolding look_at
    look_at-Refs i t d h =
        Ok-bind _ (ilock-ref sb (inode_at i t) d) (λ ip e.
          Ok-bind _ (iunlock-ref sb true ip) (λ jp f. fine (set-HasRefs b t i jp (f ∙ e) h)))

    pub relink-Refs :
        (f : ℕ → ℕ) (i : ℕ) (t : List Inode) (d : Disk)
        → HasRefs b t
        → Ok (λ r. HasRefs b r.0) (relink sb f i t d)
    unfolding relink
    relink-Refs f i t d h = Ok-bind _ (ilock-ref sb (inode_at i t) d) (λ ip e.
        Ok-bind _ (iupdate-ref sb true (record ip { nlink = f ip.nlink }) d) (λ r g.
          Ok-bind _ (iunlock-ref sb true r.0) (λ kp k. fine (set-HasRefs b t i kp (k ∙ g ∙ e) h))))

    fill_inode-Refs :
        (type i : ℕ) (t : List Inode) (d : Disk)
        → HasRefs b t
        → Ok (λ r. HasRefs b r.0) (fill_inode sb type i t d)
    unfolding fill_inode
    fill_inode-Refs type i t d h = Ok-bind _ (ilock-ref sb (inode_at i t) d) (λ ip e.
        Ok-bind _
          (iupdate-ref sb true
            (record ip {
              type = type;
              major = 0;
              minor = 0;
              nlink = 1;
              size = 0;
              addrs = replicate naddrs 0;
            })
            d)
          (λ r g.
            Ok-bind _ (iunlock-ref sb true r.0)
              (λ kp k. fine (set-HasRefs b t i kp (k ∙ g ∙ e) h))))

  -- What is left depends on what is returned.
  pub put_one-Refs :
      {A : Type 0} (B : A → ℕ → ℕ) (r : A) (i : ℕ) (t : List Inode) (d : Disk)
      → HasRefs (plus i (B r)) t
      → Ok (λ s. HasRefs (B s.0) s.1) (put_one sb r i t d)
  put_one-Refs B r i t d h = Ok-bind _ (iput-HasRefs sb (B r) i t d h) (λ s g. fine g)

  pub put_two-Refs :
      {A : Type 0} (B : A → ℕ → ℕ) (r : A) (i j : ℕ) (t : List Inode) (d : Disk)
      → HasRefs (plus i (plus j (B r))) t
      → Ok (λ s. HasRefs (B s.0) s.1) (put_two sb r i j t d)
  put_two-Refs B r i j t d h =
      Ok-bind _ (iput-HasRefs sb (plus j (B r)) i t d h) (λ s g. put_one-Refs B r j s.0 s.1 g)

  swap :
      (b : ℕ → ℕ) (i j : ℕ) (t : List Inode)
      → HasRefs (plus i (plus j b)) t
      → HasRefs (plus j (plus i b)) t
  swap b i j t h k = ground (arith, h k)

  module _ (b : ℕ → ℕ) where
    link_dots-Refs :
        (type i j : ℕ) (t : List Inode) (d : Disk)
        → HasRefs b t
        → Ok (λ r. HasRefs b r.1) (link_dots sb type i j t d)
    unfolding link_dots
    link_dots-Refs type i j t d h = Ok-if (not (type == t_dir)) (fine h) (
        Ok-bind _ (dirlink-HasRefs sb b false j dot (inode_at j t).inum t d h) (λ r g.
          Ok-if (not r.0) (fine g)
            (dirlink-HasRefs sb b false j dot_dot (inode_at i r.1).inum r.1 r.2 g)))

  module _ (b : ℕ → ℕ) where
    -- What is left when `create` returns an inode or none.
    abbrev left : Option ℕ → ℕ → ℕ
    left r = plus_found r b

    undo_create-Refs :
        (i j : ℕ) (t : List Inode) (d : Disk)
        → HasRefs (plus j (plus i b)) t
        → Ok (λ r. HasRefs (left r.0) r.1) (undo_create sb i j t d)
    unfolding undo_create
    undo_create-Refs i j t d h =
        Ok-bind _ (relink-Refs (plus j (plus i b)) (λ n. 0) j t d h)
          (λ r g. put_two-Refs left none j i r.0 r.1 g)

    finish_create-Refs :
        (type i j : ℕ) (t : List Inode) (d : Disk)
        → HasRefs (plus j (plus i b)) t
        → Ok (λ r. HasRefs (left r.0) r.1) (finish_create sb type i j t d)
    unfolding finish_create
    finish_create-Refs type i j t d h =
        let g = swap b j i t h in
        Ok-if (type == t_dir)
          (Ok-bind _ (relink-Refs (plus i (plus j b)) one_more i t d g)
            (λ r k. put_one-Refs left (some j) i r.0 r.1 k))
          (put_one-Refs left (some j) i t d g)

    create_new-Refs :
        (type i : ℕ) (name : List ℕ) (t : List Inode) (d : Disk)
        → HasRefs (plus i b) t
        → Ok (λ r. HasRefs (left r.0) r.1) (create_new sb type i name t d)
    unfolding create_new
    create_new-Refs type i name t d h =
        Ok-bind _ (ialloc-HasRefs sb (plus i b) (inode_at i t).dev type t d h)
          (λ r g. on_new r.0 r.1 r.2 g)
      where
        on_new :
            (new : Option ℕ) (t1 : List Inode) (d1 : Disk)
            → HasRefs (plus_found new (plus i b)) t1
            → Ok
                (λ (r : Option ℕ × List Inode × Disk). HasRefs (left r.0) r.1)
                (elim new [
                  | none ↦ put_one sb none i t1 d1
                  | some j ↦ fill_inode sb type j t1 d1 >>= λ (t2, d2).
                      link_dots sb type i j t2 d2 >>= λ (dots, t3, d3).
                      if not dots
                      then undo_create sb i j t3 d3
                      else (dirlink sb false i name (inode_at j t3).inum t3 d3
                          >>= λ (linked, t4, d4).
                              if not linked
                              then undo_create sb i j t4 d4
                              else finish_create sb type i j t4 d4)
                ])
        on_new none t1 d1 g = put_one-Refs left none i t1 d1 g
        on_new (some j) t1 d1 g =
            let c = plus j (plus i b) in
            Ok-bind _ (fill_inode-Refs c type j t1 d1 g) (λ r2 h2.
              Ok-bind _ (link_dots-Refs c type i j r2.0 r2.1 h2) (λ r3 h3.
                Ok-if (not r3.0) (undo_create-Refs i j r3.1 r3.2 h3) (
                  Ok-bind _ (dirlink-HasRefs sb c false i name (inode_at j r3.1).inum r3.1 r3.2 h3)
                    (λ r4 h4.
                      Ok-if (not r4.0) (undo_create-Refs i j r4.1 r4.2 h4)
                        (finish_create-Refs type i j r4.1 r4.2 h4)))))

    create_found-Refs :
        (type i j : ℕ) (t : List Inode) (d : Disk)
        → HasRefs (plus j (plus i b)) t
        → Ok (λ r. HasRefs (left r.0) r.1) (create_found sb type i j t d)
    unfolding create_found
    create_found-Refs type i j t d h = Ok-bind _ (look_at-Refs (plus j (plus i b)) j t d h) (λ r g.
        Ok-if ((type == t_file) && ((r.0.type == t_file) || (r.0.type == t_device)))
          (put_one-Refs left (some j) i r.1 d (swap b j i r.1 g))
          (put_two-Refs left none j i r.1 d g))

    create_in-Refs :
        (type i : ℕ) (name : List ℕ) (t : List Inode) (d : Disk)
        → HasRefs (plus i b) t
        → Ok (λ r. HasRefs (left r.0) r.1) (create_in sb type i name t d)
    unfolding create_in
    create_in-Refs type i name t d h = Ok-bind _ (look_at-Refs (plus i b) i t d h) (λ r1 h1.
        Ok-if (not (r1.0.type == t_dir)) (put_one-Refs left none i r1.1 d h1) (
          Ok-bind _ (dirlookup-HasRefs sb (plus i b) false i name r1.1 d h1)
            (λ r2 h2. on_found r2.0 r2.1 h2)))
      where
        on_found :
            (found : Option (ℕ × ℕ)) (t2 : List Inode)
            → HasRefs (plus_entry found (plus i b)) t2
            → Ok
                (λ (r : Option ℕ × List Inode × Disk). HasRefs (left r.0) r.1)
                (elim found [
                  | some (j, off) ↦ create_found sb type i j t2 d
                  | none ↦ create_new sb type i name t2 d
                ])
        on_found none t2 g = create_new-Refs type i name t2 d g
        on_found (some (j, off)) t2 g = create_found-Refs type i j t2 d g

    -- `create` takes a reference for the inode that it returns, and no other.
    pub create-Refs :
        (rootdev : ℕ) (cwd : Option ℕ) (path : List ℕ) (type : ℕ) (t : List Inode) (d : Disk)
        → HasRefs b t
        → Ok (λ r. HasRefs (left r.0) r.1) (create sb rootdev cwd path type t d)
    unfolding create
    create-Refs rootdev cwd path type t d h =
        Ok-bind _ (namex-Refs sb b rootdev cwd true path t d h)
          (λ w g. on_walk w.inode w.name w.table w.disk g)
      where
        on_walk :
            (inode : Option ℕ) (name : List ℕ) (u : List Inode) (d' : Disk)
            → HasRefs (plus_found inode b) u
            → Ok
                (λ (r : Option ℕ × List Inode × Disk). HasRefs (left r.0) r.1)
                (elim inode [ none ↦ ok (none, u, d') | some i ↦ create_in sb type i name u d' ])
        on_walk none name u d' g = fine g
        on_walk (some i) name u d' g = create_in-Refs type i name u d' g

    pub sys_mkdir-Refs :
        (rootdev : ℕ) (cwd : Option ℕ) (path : Option (List ℕ)) (t : List Inode) (d : Disk)
        → HasRefs b t
        → Ok (λ r. HasRefs b r.1) (sys_mkdir sb rootdev cwd path t d)
    unfolding sys_mkdir
    sys_mkdir-Refs rootdev cwd none t d h = fine h
    sys_mkdir-Refs rootdev cwd (some path) t d h =
        Ok-bind _ (create-Refs rootdev cwd path t_dir t d h) (λ r g. on_new r.0 r.1 r.2 g)
      where
        on_new :
            (new : Option ℕ) (u : List Inode) (d' : Disk)
            → HasRefs (left new) u
            → Ok
                (λ (r : Bool × List Inode × Disk). HasRefs b r.1)
                (elim new [ none ↦ ok (false, u, d') | some i ↦ put_one sb true i u d' ])
        on_new none u d' g = fine g
        on_new (some i) u d' g = put_one-Refs (λ r. b) true i u d' g

    -- `sys_chdir` gives back the old directory for the new one.
    pub sys_chdir-Refs :
        (rootdev : ℕ) (cwd : Option ℕ) (path : Option (List ℕ)) (t : List Inode) (d : Disk)
        → HasRefs (left cwd) t
        → Ok (λ r. HasRefs (left r.0.1) r.1) (sys_chdir sb rootdev cwd path t d)
    unfolding sys_chdir
    sys_chdir-Refs rootdev cwd none t d h = fine h
    sys_chdir-Refs rootdev cwd (some path) t d h =
        Ok-bind _ (namex-Refs sb (left cwd) rootdev cwd false path t d h)
          (λ w g. on_walk w.inode w.table w.disk g)
      where
        leave :
            (old : Option ℕ) (i : ℕ) (u : List Inode) (d' : Disk)
            → HasRefs (plus i (left old)) u
            → Ok (λ r. HasRefs (left r.0.1) r.1) (leave_old sb rootdev old i u d')
        leave none i u d' g = fine g
        leave (some old) i u d' g =
            put_one-Refs (λ (r : Bool × Option ℕ). left r.1) (true, some i) old u d'
              (swap b i old u g)

        on_walk :
            (inode : Option ℕ) (u : List Inode) (d' : Disk)
            → HasRefs (plus_found inode (left cwd)) u
            → Ok
                (λ (r : (Bool × Option ℕ) × List Inode × Disk). HasRefs (left r.0.1) r.1)
                (elim inode [
                  | none ↦ ok ((false, cwd), u, d')
                  | some i ↦ look_at sb i u d' >>= λ (ip, v).
                      if not (ip.type == t_dir)
                      then put_one sb (false, cwd) i v d'
                      else leave_old sb rootdev cwd i v d'
                ])
        on_walk none u d' g = fine g
        on_walk (some i) u d' g = Ok-bind _ (look_at-Refs (plus i (left cwd)) i u d' g) (λ r k.
            Ok-if (not (r.0.type == t_dir))
              (put_one-Refs (λ (x : Bool × Option ℕ). left x.1) (false, cwd) i r.1 d' k)
              (leave cwd i r.1 d' k))
