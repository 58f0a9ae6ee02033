-- ===== src/Kqueue/Ready.antt =====
-- What a set of watched paths may answer, and the calls between the opening of a path and its watch.
use pytagsfs.Base.{
  ℕ, ◌≡◌, refl, Bool, true, false, not, ◌&&◌, ◌||◌, ◌==◌, none, some, Text, lookup, erase, is_none,
  nat_eq, list_eq, Exc, Result, ok, err, Exec, Proc, ◌>>=◌, Dict, pure, raise, watch_exists,
  no_such_watch, name_error, is_os_error,
}
use pytagsfs.Base.Invariants.{Keeps, Keeps-bind, Keeps-pure, Keeps-raise, Keeps-catch, bind-ensures}
use pytagsfs.Kqueue.{
  Kernel, KqueueManager, Kevent, call, refuse, try_listdir, add_kevent, delete_fd,
}
use pytagsfs.Kqueue.Watches.{KernelLaws, IsTracked, has_watch}
use pytagsfs.Kqueue.Tracking.{world-IsTracked}

-- What a set of watched paths is asked for.
pub data Request : Type 0 where
  begin : Text → Request
  end : Text → Request

-- What a set of watched paths may answer, and how it may change.
pub data IsAllowed (before after : Text → Bool) : Request → Result (Unit {0}) → Type 0 where
  begin_refused :
      (p : Text)
      → before p ≡ true
      → ((q : Text) → after q ≡ before q)
      → IsAllowed before after (begin p) (err watch_exists)
  begun :
      (p : Text)
      → before p ≡ false
      → ((q : Text) → after q ≡ (p == q || before q))
      → IsAllowed before after (begin p) (ok tt)
  not_begun :
      (p : Text) (r : Result (Unit {0}))
      → before p ≡ false
      → ((q : Text) → after q ≡ before q)
      → IsAllowed before after (begin p) r
  end_refused :
      (p : Text)
      → before p ≡ false
      → ((q : Text) → after q ≡ before q)
      → IsAllowed before after (end p) (err no_such_watch)
  ended :
      (p : Text) (r : Result (Unit {0}))
      → before p ≡ true
      → ((q : Text) → after q ≡ (not (p == q) && before q))
      → IsAllowed before after (end p) r

pub delete_fd-some {ℓ} :
    {V : Type ℓ} (fd : ℕ) (v : V) (d : Dict ℕ V)
    → lookup fd d ≡ some v
    → delete_fd fd d ≡ (ok tt, erase fd d)
unfolding delete_fd
delete_fd-some fd v d e = rw (e, delete_fd) refl

module _ {ℓ} {W : Type ℓ} (k : Kernel W) (laws : KernelLaws k) (before : Text → Bool) where
  -- The paths that were watched are watched still, and those only.
  pub record IsSame (s : KqueueManager W) : Type 0 where
    pub tracked : IsTracked laws.is_open s
    pub same : (q : Text) → has_watch q s.paths ≡ before q

  -- A file descriptor that was opened and is not watched.
  pub record IsReady (fd : ℕ) (p : Text) (s : KqueueManager W) : Type 0 where
    pub is_same : IsSame s
    pub is_fresh : lookup fd s.paths ≡ none
    pub is_open : laws.is_open s.world fd ≡ true
    pub unwatched : before p ≡ false

  abbrev pub Answers : Request → Result (Unit {0}) × KqueueManager W → Type 0
  Answers request t =
      IsTracked laws.is_open t.1 × IsAllowed before (λ q. has_watch q t.1.paths) request t.0

  pub failed :
      (p : Text) (r : Result (Unit {0})) (s : KqueueManager W)
      → before p ≡ false
      → IsSame s
      → Answers (begin p) (r, s)
  failed p r s n h = (h.tracked, not_begun p r n h.same)

  pub world-IsSame :
      (w : W) (s : KqueueManager W)
      → ((g : ℕ)
          → is_none (lookup g s.paths) ≡ false
          → laws.is_open s.world g ≡ true
          → laws.is_open w g ≡ true)
      → IsSame s
      → IsSame (record s { world = w })
  world-IsSame w s h v = record {
    tracked = world-IsTracked laws.is_open w s h v.tracked;
    same = v.same;
  }

  -- A call of the kernel that closes nothing.
  pub call-IsReady {κ} :
      {A : Type κ} (m : Exec W A) (fd : ℕ) (p : Text)
      → ((w : W) (g : ℕ) → laws.is_open w g ≡ true → laws.is_open (m w).1 g ≡ true)
      → Keeps (IsReady fd p) (call m)
  call-IsReady m fd p h = record {
    at = λ s v. record {
      is_same = world-IsSame (m s.world).1 s (λ g _. h s.world g) v.is_same;
      is_fresh = v.is_fresh;
      is_open = h s.world fd v.is_open;
      unwatched = v.unwatched;
    };
  }

  pub step-Answers {κ} :
      {A : Type κ} (m : Exec (KqueueManager W) A) (f : A → Proc (KqueueManager W)) (fd : ℕ)
      (p : Text)
      → Keeps (IsReady fd p) m
      → ((a : A) (s : KqueueManager W) → IsReady fd p s → Answers (begin p) (f a s))
      → (s : KqueueManager W) → IsReady fd p s
      → Answers (begin p) ((m >>= f) s)
  step-Answers m f fd p keeps next s v =
      bind-ensures (Answers (begin p)) m f s (λ a e. next a (m s).1 (keeps.at s v))
        (λ c e. failed p (err c) (m s).1 v.unwatched ((keeps.at s v).is_same))

  pub refuse-IsReady : (b : Bool) (c : Exc) (fd : ℕ) (p : Text) → Keeps (IsReady fd p) (refuse b c)
  refuse-IsReady true c fd p = record { at = λ s v. v }
  refuse-IsReady false c fd p = record { at = λ s v. v }

  pub add_kevent-IsReady : (e : Kevent) (fd : ℕ) (p : Text) → Keeps (IsReady fd p) (add_kevent k e)
  unfolding add_kevent
  add_kevent-IsReady e fd p =
      Keeps-catch is_os_error (raise name_error) (call (k.kevent_add e)) (Keeps-raise name_error)
        (call-IsReady (k.kevent_add e) fd p (laws.add_keeps e))

  pub try_listdir-IsReady : (fd : ℕ) (p : Text) → Keeps (IsReady fd p) (try_listdir k p)
  unfolding try_listdir
  try_listdir-IsReady fd p =
      Keeps-catch is_os_error (pure none) (do entries ← call (k.os_listdir p); pure (some entries))
        (Keeps-pure none)
        (Keeps-bind (call (k.os_listdir p)) (λ entries. pure (some entries))
          (call-IsReady (k.os_listdir p) fd p (laws.listdir_keeps p))
          (λ entries. Keeps-pure (some entries)))
