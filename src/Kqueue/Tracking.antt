-- ===== src/Kqueue/Tracking.antt =====
-- Beginning and ending a watch keeps the dicts of a `KqueueManager` in step.
use pytagsfs.Base.{
  ℕ, ◌≡◌, Bool, true, false, none, some, List, Text, lookup, insert, erase, is_none,
  insert-IsDistinct, erase-IsDistinct, lookup-insert, lookup-erase, nat_eq, list_eq, nat_beq_iff,
  list_beq_iff, arith,
}
use pytagsfs.Kqueue.{KqueueManager, Kevent, file, directory}
use pytagsfs.Kqueue.Watches.{IsTracked, has_watch, has_watch_at, has_watch-insert, has_watch-erase}

module _ {ℓ} {W : Type ℓ} (is_open : W → ℕ → Bool) where
  -- Another world, in which no file descriptor that is watched was closed.
  pub world-IsTracked :
      (w : W) (s : KqueueManager W)
      → ((g : ℕ)
          → is_none (lookup g s.paths) ≡ false
          → is_open s.world g ≡ true
          → is_open w g ≡ true)
      → IsTracked is_open s
      → IsTracked is_open (record s { world = w })
  world-IsTracked w s h v = record {
    is_distinct = v.is_distinct;
    typed = v.typed;
    has_kevent = v.has_kevent;
    single = v.single;
    listed = v.listed;
    lists_watched = v.lists_watched;
    opened = λ fd e. h fd e (v.opened fd e);
  }

  abbrev with_file : ℕ → Text → Kevent → KqueueManager W → KqueueManager W
  with_file fd path base_kevent s = record s {
    paths = insert fd path s.paths;
    types = insert fd file s.types;
    base_kevents = insert fd base_kevent s.base_kevents;
  }

  abbrev with_directory : ℕ → Text → Kevent → List Text → KqueueManager W → KqueueManager W
  with_directory fd path base_kevent entries s = record s {
    paths = insert fd path s.paths;
    types = insert fd directory s.types;
    base_kevents = insert fd base_kevent s.base_kevents;
    directory_entries = insert path entries s.directory_entries;
  }

  single-insert :
      (fd : ℕ) (path : Text) (s : KqueueManager W)
      → has_watch path s.paths ≡ false
      → IsTracked is_open s
      → (f g : ℕ) (p : Text) → lookup f (insert fd path s.paths) ≡ some p
      → lookup g (insert fd path s.paths) ≡ some p
      → f ≡ g
  single-insert fd path s n v f g p h k = ground (
    arith,
    lookup-insert fd f path s.paths,
    lookup-insert fd g path s.paths,
    v.single f g p,
    has_watch_at path f s.paths,
    has_watch_at path g s.paths,
    n,
    h,
    k,
    nat_beq_iff fd f,
    nat_beq_iff fd g,
  )

  pub with_file-IsTracked :
      (fd : ℕ) (path : Text) (base_kevent : Kevent) (s : KqueueManager W)
      → has_watch path s.paths ≡ false
      → lookup fd s.paths ≡ none
      → is_open s.world fd ≡ true
      → IsTracked is_open s
      → IsTracked is_open (with_file fd path base_kevent s)
  with_file-IsTracked fd path base_kevent s n e o v = record {
    is_distinct = insert-IsDistinct fd path s.paths v.is_distinct;
    typed = λ g.
        ground (arith, v.typed g, lookup-insert fd g path s.paths, lookup-insert fd g file s.types);
    has_kevent = λ g. ground (
      arith,
      v.has_kevent g,
      lookup-insert fd g path s.paths,
      lookup-insert fd g base_kevent s.base_kevents,
    );
    single = single-insert fd path s n v;
    listed = λ g p h. ground (
      arith,
      v.listed g p,
      v.lists_watched p,
      n,
      h,
      lookup-insert fd g path s.paths,
      lookup-insert fd g file s.types,
    );
    lists_watched =
        λ p h. ground (arith, v.lists_watched p h, has_watch-insert path p fd s.paths e);
    opened =
        λ g h. ground (arith, v.opened g, h, o, lookup-insert fd g path s.paths, nat_beq_iff fd g);
  }

  pub with_directory-IsTracked :
      (fd : ℕ) (path : Text) (base_kevent : Kevent) (entries : List Text) (s : KqueueManager W)
      → has_watch path s.paths ≡ false
      → lookup fd s.paths ≡ none
      → is_open s.world fd ≡ true
      → IsTracked is_open s
      → IsTracked is_open (with_directory fd path base_kevent entries s)
  with_directory-IsTracked fd path base_kevent entries s n e o v = record {
    is_distinct = insert-IsDistinct fd path s.paths v.is_distinct;
    typed = λ g.
        ground
          (arith, v.typed g, lookup-insert fd g path s.paths, lookup-insert fd g directory s.types);
    has_kevent = λ g. ground (
      arith,
      v.has_kevent g,
      lookup-insert fd g path s.paths,
      lookup-insert fd g base_kevent s.base_kevents,
    );
    single = single-insert fd path s n v;
    listed = λ g p h. ground (
      arith,
      v.listed g p,
      has_watch_at path g s.paths,
      n,
      h,
      list_beq_iff path p,
      lookup-insert fd g path s.paths,
      lookup-insert fd g directory s.types,
      lookup-insert path p entries s.directory_entries,
    );
    lists_watched = λ p h. ground (
      arith,
      v.lists_watched p,
      h,
      has_watch-insert path p fd s.paths e,
      list_beq_iff path p,
      lookup-insert path p entries s.directory_entries,
    );
    opened =
        λ g h. ground (arith, v.opened g, h, o, lookup-insert fd g path s.paths, nat_beq_iff fd g);
  }

  abbrev pub forgotten : ℕ → Text → KqueueManager W → KqueueManager W
  forgotten fd path s = record s {
    paths = erase fd s.paths;
    types = erase fd s.types;
    directory_entries = erase path s.directory_entries;
    base_kevents = erase fd s.base_kevents;
  }

  pub forgotten-IsTracked :
      (fd : ℕ) (path : Text) (s : KqueueManager W)
      → lookup fd s.paths ≡ some path
      → IsTracked is_open s
      → IsTracked is_open (forgotten fd path s)
  forgotten-IsTracked fd path s e v = record {
    is_distinct = erase-IsDistinct fd s.paths v.is_distinct;
    typed = λ g. ground (arith, v.typed g, lookup-erase fd g s.paths, lookup-erase fd g s.types);
    has_kevent = λ g.
        ground (arith, v.has_kevent g, lookup-erase fd g s.paths, lookup-erase fd g s.base_kevents);
    single = λ f g p h k.
        ground (arith, v.single f g p, h, k, lookup-erase fd f s.paths, lookup-erase fd g s.paths);
    listed = λ g p h. ground (
      arith,
      v.listed g p,
      v.single fd g p,
      e,
      h,
      list_beq_iff path p,
      nat_beq_iff fd g,
      lookup-erase fd g s.paths,
      lookup-erase fd g s.types,
      lookup-erase path p s.directory_entries,
    );
    lists_watched = λ p h. ground (
      arith,
      v.lists_watched p,
      h,
      lookup-erase path p s.directory_entries,
      has_watch-erase path p fd s.paths v.is_distinct e (λ g k. v.single fd g path e k),
    );
    opened = λ g h. ground (arith, v.opened g, h, lookup-erase fd g s.paths);
  }
