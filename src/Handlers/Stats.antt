-- ===== src/Handlers/Stats.antt =====
-- The stat results of the filesystem after a truncation.
use pytagsfs.Base.{
  insert, Dict, ℕ, ◌≡◌, refl, Bool, true, false, ◌==◌, ltb, if◌then◌else◌, Option, none, some, Text,
  lookup, Result, ok, err, Bool-cases, inl, inr, list_eq, nat_eq, list_beq_iff,
}
use pytagsfs.OpenFiles.{is_shorter, FrozenPath, FileSystem, shown_size, defer_truncate}
use pytagsfs.OpenFiles.Calls.{truncate}
use pytagsfs.OpenFiles.Truncation.{truncate_lem, defer_truncate_lem, shown_after}
use pytagsfs.SourceTreeRep.{SourceTreeRep, Stat}
use pytagsfs.SourceTreeRep.SourceFiles.{Settings}
use pytagsfs.SourceTreeRep.Attributes.{getattr}
use pytagsfs.Handlers.{Disk, os, getattr_of, post_process_stat_result, with_size}

-- A stat result whose size is cut at the length, for the path that was truncated.
abbrev pub cut_stat : Bool → ℕ → Result Stat → Result Stat
cut_stat false len r = r
cut_stat true len (ok st) =
    ok (record st { st_size = if ltb len st.st_size then len else st.st_size })
cut_stat true len (err c) = err c

module _ {ℓ} {W : Type ℓ} (settings : Settings W) (root_path : Text) (disk : Disk W) where
  -- What the representation gives, with the size that is shown.
  abbrev thawed_stat : Option ℕ → Result Stat → Result Stat
  thawed_stat t (ok st) = ok (post_process_stat_result (with_size (shown_size st.st_size t) st))
  thawed_stat t (err c) = err c

  abbrev frozen_stat : Result Stat → Result Stat
  frozen_stat (ok st) = ok (post_process_stat_result st)
  frozen_stat (err c) = err c

  -- `getattr` reads three things of the state.
  abbrev stat_of : Text → Option FrozenPath → Option ℕ → SourceTreeRep W → Result Stat
  stat_of q none t w = thawed_stat t (getattr settings.objects root_path q w).0
  stat_of q (some f) t w = frozen_stat (disk.os_lstat f.real_path w.world).0

  getattr_of_lem :
      (q : Text) (s : FileSystem (SourceTreeRep W))
      → (getattr_of settings root_path disk q s).0
        ≡ stat_of q (lookup q s.frozen_path_mappings) (lookup q s.truncated_paths) s.world
  unfolding getattr_of
  getattr_of_lem q s = go (lookup q s.frozen_path_mappings) refl
    where
      frozen :
          (f : FrozenPath) (r : Result Stat)
          → (disk.os_lstat f.real_path s.world.world).0 ≡ r
          → lookup q s.frozen_path_mappings ≡ some f
          → (getattr_of settings root_path disk q s).0
            ≡ stat_of q (some f) (lookup q s.truncated_paths) s.world
      frozen f (ok st) e h = rw (h, getattr_of) (rw e refl)
      frozen f (err c) e h = rw (h, getattr_of) (rw e refl)

      thawed :
          (r : Result Stat)
          → (getattr settings.objects root_path q s.world).0 ≡ r
          → lookup q s.frozen_path_mappings ≡ none
          → (getattr_of settings root_path disk q s).0
            ≡ stat_of q none (lookup q s.truncated_paths) s.world
      thawed (ok st) e h = rw (h, getattr_of) (rw e refl)
      thawed (err c) e h = rw (h, getattr_of) (rw e refl)

      go :
          (o : Option FrozenPath)
          → lookup q s.frozen_path_mappings ≡ o
          → (getattr_of settings root_path disk q s).0
            ≡ stat_of q (lookup q s.frozen_path_mappings) (lookup q s.truncated_paths) s.world
      go none h = rw h (thawed (getattr settings.objects root_path q s.world).0 refl h)
      go (some f) h = rw h (frozen f (disk.os_lstat f.real_path s.world.world).0 refl h)

  -- The size that is shown is cut where the path is the one that was truncated.
  thawed_stat_lem :
      (p q : Text) (len : ℕ) (d : Dict Text ℕ) (r : Result Stat)
      → thawed_stat (lookup q (if is_shorter len (lookup p d) then insert p len d else d)) r
        ≡ cut_stat (p == q) len (thawed_stat (lookup q d) r)
  thawed_stat_lem p q len d (ok st) =
      rw (shown_after p q len st.st_size d)
        (elim (Bool-cases (p == q)) [ inl e ↦ rw e refl | inr e ↦ rw e refl ])
  thawed_stat_lem p q len d (err c) = elim (Bool-cases (p == q)) [
    | inl e ↦ rw e refl
    | inr e ↦ rw e refl
  ]

  stat_of-cut :
      (p q : Text) (len : ℕ) (s : FileSystem (SourceTreeRep W)) (o : Option FrozenPath)
      → lookup p s.frozen_path_mappings ≡ none
      → lookup q s.frozen_path_mappings ≡ o
      → stat_of q o
          (lookup q (
            if is_shorter len (lookup p s.truncated_paths)
            then insert p len s.truncated_paths
            else s.truncated_paths))
          s.world
        ≡ cut_stat (p == q) len (stat_of q o (lookup q s.truncated_paths) s.world)
  stat_of-cut p q len s none thawed e =
      thawed_stat_lem p q len s.truncated_paths (getattr settings.objects root_path q s.world).0
  stat_of-cut p q len s (some f) thawed e = elim (Bool-cases (p == q)) [
    | inl b ↦ cc (thawed, e, (list_beq_iff p q).0 b)
    | inr b ↦ rw b refl
  ]

  -- After `truncate` of a path that is not open for writing, `getattr` of every path, open for writing
  -- or not, returns the stat result or raises the exception that it would have before, except that for
  -- the path itself the size in the stat result is the smaller of the new length and the size before.
  pub getattr_of-truncate :
      (p q : Text) (len : ℕ) (s : FileSystem (SourceTreeRep W))
      → lookup p s.frozen_path_mappings ≡ none
      → (getattr_of settings root_path disk q (truncate (os settings root_path disk) p len s).1).0
        ≡ cut_stat (p == q) len (getattr_of settings root_path disk q s).0
  getattr_of-truncate p q len s thawed =
      let deferred = defer_truncate_lem p len s in
      rw
        (
          truncate_lem (os settings root_path disk) p len s thawed,
          getattr_of_lem q (defer_truncate p len s).1,
          getattr_of_lem q s,
          deferred.1,
          deferred.2,
          deferred.3,
        )
        (stat_of-cut p q len s (lookup q s.frozen_path_mappings) thawed refl)
