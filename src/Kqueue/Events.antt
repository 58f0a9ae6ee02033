-- ===== src/Kqueue/Events.antt =====
-- The events of a directory, against its listings.
use pytagsfs.Base.{
  ◌≡◌, refl, sym, ◌∙◌, Bool, true, false, not, ◌&&◌, ◌||◌, ◌==◌, if◌then◌else◌, List, [], ◌∷◌, ◌++◌,
  map, Text, All, contains, nat_eq, list_eq, list_beq_iff, arith, is_empty,
}
use pytagsfs.Util.Paths.{path_join, starts_with_sep, ends_with_sep}
use pytagsfs.Kqueue.{Kevent, KqueueEvent, Action, add, remove, update}
use pytagsfs.Kqueue.Processing.{difference, entry_event, directory_events}

-- A name that os.listdir gives has no separator, and so does not start with one.
abbrev pub IsName : Text → Type 0
IsName entry = starts_with_sep entry ≡ false

-- What an event makes of a set of paths.
abbrev pub apply_event : KqueueEvent → (Text → Bool) → Text → Bool
apply_event event view q = elim event.type [
  | add ↦ event.path == q || view q
  | remove ↦ not (event.path == q) && view q
  | update ↦ view q
]

abbrev pub replay : List KqueueEvent → (Text → Bool) → Text → Bool
replay [] view = view
replay (event ∷ events) view = replay events (apply_event event view)

-- Whether the path is that of an entry.
abbrev pub lists : Text → List Text → Text → Bool
lists path entries q = contains q (map (path_join path) entries)

append_cancel : (a x y : Text) → a ++ x ≡ a ++ y → x ≡ y
append_cancel [] x y h = h
append_cancel (c ∷ a) x y h = append_cancel a x y (cc h)

path_join-IsName :
    (path x : Text)
    → IsName x
    → path_join path x
      ≡ (if is_empty path then x else if ends_with_sep path then path ++ x else path ++ 47 ∷ x)
unfolding path_join
path_join-IsName path x h = rw h refl

path_join_cancel :
    (path x y : Text) → IsName x → IsName y → path_join path x ≡ path_join path y → x ≡ y
path_join_cancel path x y hx hy h =
    go (is_empty path) (ends_with_sep path)
      (sym (path_join-IsName path x hx) ∙ h ∙ path_join-IsName path y hy)
  where
    go :
        (b c : Bool)
        → (if b then x else if c then path ++ x else path ++ 47 ∷ x)
          ≡ (if b then y else if c then path ++ y else path ++ 47 ∷ y)
        → x ≡ y
    go true c e = e
    go false true e = append_cancel path x y e
    go false false e = cc (append_cancel path (47 ∷ x) (47 ∷ y) e)

-- An entry has its path to itself.
lists-path_join :
    (path x : Text) (ys : List Text)
    → IsName x
    → All IsName ys
    → lists path ys (path_join path x) ≡ contains x ys
unfolding contains
lists-path_join path x [] hx h = refl
lists-path_join path x (y ∷ ys) hx h = ground (
  arith,
  lists-path_join path x ys hx h.1,
  path_join_cancel path y x h.0 hx,
  list_beq_iff (path_join path y) (path_join path x),
  list_beq_iff y x,
)

lists-difference :
    (path : Text) (xs ys : List Text) (q : Text)
    → All IsName xs
    → All IsName ys
    → lists path (difference xs ys) q ≡ (lists path xs q && not (lists path ys q))
unfolding contains difference
lists-difference path [] ys q hx hy = refl
lists-difference path (x ∷ xs) ys q hx hy = ground (
  arith,
  lists-difference path xs ys q hx.1 hy,
  lists-path_join path x ys hx.0 hy,
  lists-path_join path x xs hx.0 hx.1,
  list_beq_iff (path_join path x) q,
)

replay-append :
    (es fs : List KqueueEvent) (view : Text → Bool)
    → replay (es ++ fs) view ≡ replay fs (replay es view)
replay-append [] fs view = refl
replay-append (e ∷ es) fs view = replay-append es fs (apply_event e view)

replay-add :
    (path : Text) (k : Kevent) (xs : List Text) (view : Text → Bool) (q : Text)
    → replay (map (entry_event path add k) xs) view q ≡ (lists path xs q || view q)
unfolding contains
replay-add path k [] view q = refl
replay-add path k (x ∷ xs) view q =
    ground (arith, replay-add path k xs (apply_event (entry_event path add k x) view) q)

replay-remove :
    (path : Text) (k : Kevent) (xs : List Text) (view : Text → Bool) (q : Text)
    → replay (map (entry_event path remove k) xs) view q ≡ (not (lists path xs q) && view q)
unfolding contains
replay-remove path k [] view q = refl
replay-remove path k (x ∷ xs) view q =
    ground (arith, replay-remove path k xs (apply_event (entry_event path remove k x) view) q)

-- Whether some event is for the path.
abbrev pub mentions : List KqueueEvent → Text → Bool
mentions [] q = false
mentions (event ∷ events) q = event.path == q || mentions events q

mentions-append :
    (es fs : List KqueueEvent) (q : Text) → mentions (es ++ fs) q ≡ (mentions es q || mentions fs q)
mentions-append [] fs q = refl
mentions-append (e ∷ es) fs q = ground (arith, mentions-append es fs q)

mentions-map :
    (path : Text) (action : Action) (k : Kevent) (xs : List Text) (q : Text)
    → mentions (map (entry_event path action k) xs) q ≡ lists path xs q
unfolding contains
mentions-map path action k [] q = refl
mentions-map path action k (x ∷ xs) q = ground (arith, mentions-map path action k xs q)

-- For a directory whose listing was `old` and is `new`, with names in both that do not start with a
-- separator, the events that a kevent of it yields, applied in their order to the paths of the old
-- listing, make the paths of the new one, and a path that both listings or neither have has no
-- event.
pub replay-directory_events :
    (path : Text) (kevent : Kevent) (old new : List Text) (q : Text)
    → All IsName old
    → All IsName new
    → (replay (directory_events path kevent old new) (lists path old) q ≡ lists path new q)
      × (lists path old q ≡ lists path new q
          → mentions (directory_events path kevent old new) q ≡ false)
unfolding directory_events
replay-directory_events path k old new q ho hn =
    let added = map (entry_event path add k) (difference new old) in
    let removed = map (entry_event path remove k) (difference old new) in
    let in_added = lists-difference path new old q hn ho in
    let in_removed = lists-difference path old new q ho hn in
    (
      rw (replay-append added removed (lists path old)) (
          ground (
            arith,
            replay-remove path k (difference old new) (replay added (lists path old)) q,
            replay-add path k (difference new old) (lists path old) q,
            in_added,
            in_removed,
          )),
      λ same. ground (
        arith,
        mentions-append added removed q,
        mentions-map path add k (difference new old) q,
        mentions-map path remove k (difference old new) q,
        in_added,
        in_removed,
        same,
      ),
    )
