-- ===== src/Kqueue/Watches.antt =====
-- What the dicts of a `KqueueManager` have in common, over a kernel that gives no file descriptor
-- twice.
use pytagsfs.Base.{
  ℕ, ◌≡◌, refl, Bool, true, false, not, ◌&&◌, ◌||◌, ◌==◌, Option, none, some, [], ◌∷◌, Text, Dict,
  lookup, insert, erase, keys, is_none, IsDistinct, erase-IsDistinct, lookup-erase, contains-keys,
  nat_eq, list_eq, nat_beq_iff, list_beq_iff, arith, ok, Bool-cases, inl, inr,
}
use pytagsfs.Kqueue.{Kernel, KqueueManager, Kevent, Kind, file, get_fd_for_path}

pub record KernelLaws {ℓ} {W : Type ℓ} (k : Kernel W) : Type ℓ where
  -- Whether the file descriptor is open.
  pub is_open : W → ℕ → Bool
  pub fresh : (p : Text) (w : W) (fd : ℕ) → (k.os_open p w).0 ≡ ok fd → is_open w fd ≡ false
  pub opens :
      (p : Text) (w : W) (fd : ℕ) → (k.os_open p w).0 ≡ ok fd → is_open (k.os_open p w).1 fd ≡ true
  pub open_keeps :
      (p : Text) (w : W) (g : ℕ) → is_open w g ≡ true → is_open (k.os_open p w).1 g ≡ true
  pub fstat_keeps :
      (fd : ℕ) (w : W) (g : ℕ) → is_open w g ≡ true → is_open (k.os_fstat_mode fd w).1 g ≡ true
  pub listdir_keeps :
      (p : Text) (w : W) (g : ℕ) → is_open w g ≡ true → is_open (k.os_listdir p w).1 g ≡ true
  pub add_keeps :
      (e : Kevent) (w : W) (g : ℕ) → is_open w g ≡ true → is_open (k.kevent_add e w).1 g ≡ true
  pub poll_keeps : (w : W) (g : ℕ) → is_open w g ≡ true → is_open (k.kevent_poll w).1 g ≡ true
  pub close_keeps :
      (fd : ℕ) (w : W) (g : ℕ)
      → (fd == g) ≡ false
      → is_open w g ≡ true
      → is_open (k.os_close fd w).1 g ≡ true

abbrev pub has_watch : Text → Dict ℕ Text → Bool
has_watch p d = not (is_none (get_fd_for_path p d))

abbrev pub is_file_type : Option Kind → Bool
is_file_type (some file) = true
is_file_type _ = false

pub record IsTracked {ℓ} {W : Type ℓ} (is_open : W → ℕ → Bool) (s : KqueueManager W) : Type 0 where
  pub is_distinct : IsDistinct (keys s.paths)
  pub typed : (fd : ℕ) → is_none (lookup fd s.types) ≡ is_none (lookup fd s.paths)
  pub has_kevent : (fd : ℕ) → is_none (lookup fd s.base_kevents) ≡ is_none (lookup fd s.paths)
  pub single : (f g : ℕ) (p : Text) → lookup f s.paths ≡ some p → lookup g s.paths ≡ some p → f ≡ g
  pub listed :
      (fd : ℕ) (p : Text)
      → lookup fd s.paths ≡ some p
      → is_none (lookup p s.directory_entries) ≡ is_file_type (lookup fd s.types)
  pub lists_watched :
      (p : Text) → is_none (lookup p s.directory_entries) ≡ false → has_watch p s.paths ≡ true
  pub opened : (fd : ℕ) → is_none (lookup fd s.paths) ≡ false → is_open s.world fd ≡ true

pub lookup-get_fd_for_path :
    (p : Text) (fd : ℕ) (d : Dict ℕ Text)
    → IsDistinct (keys d)
    → get_fd_for_path p d ≡ some fd
    → lookup fd d ≡ some p
unfolding get_fd_for_path lookup keys
lookup-get_fd_for_path p fd [] v h = cc
lookup-get_fd_for_path p fd ((g, q) ∷ d) v h = ground (
  arith,
  lookup-get_fd_for_path p fd d v.1,
  list_beq_iff q p,
  nat_beq_iff g fd,
  v.0,
  contains-keys g d,
)

-- A path is watched where some file descriptor leads to it.
pub has_watch_at :
    (p : Text) (fd : ℕ) (d : Dict ℕ Text) → lookup fd d ≡ some p → has_watch p d ≡ true
unfolding get_fd_for_path lookup
has_watch_at p fd [] h = cc
has_watch_at p fd ((g, q) ∷ d) h =
    ground (arith, has_watch_at p fd d, list_beq_iff q p, nat_beq_iff g fd)

pub has_watch-fd :
    (p : Text) (d : Dict ℕ Text)
    → IsDistinct (keys d)
    → has_watch p d ≡ true
    → (fd : ℕ) × (lookup fd d ≡ some p)
has_watch-fd p d v h = go (get_fd_for_path p d) refl
  where
    go : (o : Option ℕ) → get_fd_for_path p d ≡ o → (fd : ℕ) × (lookup fd d ≡ some p)
    go none e = absurd (ground (arith, e, h))
    go (some fd) e = (fd, lookup-get_fd_for_path p fd d v e)

pub has_watch-insert :
    (p q : Text) (fd : ℕ) (d : Dict ℕ Text)
    → lookup fd d ≡ none
    → has_watch q (insert fd p d) ≡ (p == q || has_watch q d)
unfolding get_fd_for_path lookup insert
has_watch-insert p q fd [] h = ground arith
has_watch-insert p q fd ((g, r) ∷ d) h = ground (arith, has_watch-insert p q fd d)

pub has_watch-erase :
    (p q : Text) (fd : ℕ) (d : Dict ℕ Text)
    → IsDistinct (keys d)
    → lookup fd d ≡ some p
    → ((g : ℕ) → lookup g d ≡ some p → fd ≡ g)
    → has_watch q (erase fd d) ≡ (not (p == q) && has_watch q d)
has_watch-erase p q fd d v h single = elim (Bool-cases (has_watch q (erase fd d))) [
  | inl e ↦
      let (g, at) = has_watch-fd q (erase fd d) (erase-IsDistinct fd d v) e in
      ground (
        arith,
        at,
        lookup-erase fd g d,
        has_watch_at q g d,
        single g,
        list_beq_iff p q,
        nat_beq_iff fd g,
        e,
      )
  | inr e ↦ elim (Bool-cases (has_watch q d)) [
    | inr n ↦ ground (arith, e, n)
    | inl w ↦
        let (g, at) = has_watch-fd q d v w in
        ground (
          arith,
          e,
          w,
          at,
          lookup-erase fd g d,
          has_watch_at q g (erase fd d),
          h,
          nat_beq_iff fd g,
          list_beq_iff p q,
        )
  ]
]
