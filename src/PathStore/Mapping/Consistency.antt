-- ===== src/PathStore/Mapping/Consistency.antt =====
-- The two directions of a `PathMapping` agree, and every method keeps that.
use pytagsfs.Base.{
  bind_assoc, pure, continue, ◌+◌, ◌≡◌, refl, sym, ap, ◌∙◌, inl, inr, true, Option, none, some,
  List, [], ◌∷◌, ◌++◌, Text, lookup, Result, ok, err, Exc, key_error, get_last?, init, contains,
  remove_first, count, list_eq, nat_eq, ◌==◌, if◌then◌else◌, arith, count-append, count-init,
  count-remove_first, count_pos-contains, contains-count_pos, list_beq_iff, eq_refl, Bool-cases,
  get_last?-append, init-append,
}
use pytagsfs.PathStore.Mapping.{
  clean, PathMapping, add_real_path, take_real_path, remove_real_path, real_path_at,
}
use pytagsfs.PathStore.Mapping.DictLists.{DictList, remove_value, append_value, pop_and_clean}
use pytagsfs.PathStore.Mapping.DictLists.Laws.{
  nonempty, lookup-nonempty, pop_and_clean-err, HasNoEmpty, values_at, remove_and_clean,
  append_value-ok, append_value-HasNoEmpty, values_at-append_value, pop_and_clean-HasNoEmpty,
  values_at-pop_and_clean, pop_and_clean_result, remove_and_clean-HasNoEmpty,
  values_at-remove_and_clean, remove_and_clean-ok, remove_and_clean-err,
}

-- A real path stands at a fake path as often as the fake path stands at the real path, and no
-- key keeps an empty list.
pub record IsConsistent (m : PathMapping) : Type 0 where
  pub forward_full : HasNoEmpty m.forward_mapping
  pub reverse_full : HasNoEmpty m.reverse_mapping
  pub paired :
      (f r : Text)
      → count r (values_at f m.forward_mapping) ≡ count f (values_at r m.reverse_mapping)

-- The mapping with one pair appended in both directions.
abbrev pub appended : Text → Text → PathMapping → PathMapping
appended f r m = record {
  forward_mapping = (append_value f r m.forward_mapping).1;
  reverse_mapping = (append_value r f m.reverse_mapping).1;
}

pub add_real_path_lem :
    (f r : Text) (m : PathMapping) → add_real_path f r m ≡ (ok tt, appended f r m)
unfolding add_real_path
add_real_path_lem f r m =
    ground (arith, append_value-ok f r m.forward_mapping, append_value-ok r f m.reverse_mapping)

-- `add_real_path` keeps the two directions in agreement.
pub add_real_path-IsConsistent :
    (f r : Text) (m : PathMapping) → IsConsistent m → IsConsistent (add_real_path f r m).1
unfolding count
add_real_path-IsConsistent f r m h = rw add_real_path_lem (record {
  forward_full = append_value-HasNoEmpty f r m.forward_mapping h.forward_full;
  reverse_full = append_value-HasNoEmpty r f m.reverse_mapping h.reverse_full;
  paired = λ f' r'. ground (
    arith,
    values_at-append_value f r m.forward_mapping f',
    values_at-append_value r f m.reverse_mapping r',
    h.paired f' r',
    h.paired f r',
    h.paired f' r,
    h.paired f r,
    count-append r' (values_at f m.forward_mapping) (r ∷ []),
    count-append f' (values_at r m.reverse_mapping) (f ∷ []),
    list_beq_iff f f',
    list_beq_iff r r',
  );
})

-- What `take_real_path` does to the list at the fake path: nothing where it raises, and one
-- occurrence of the real path that it returns is gone where it does not.
data Taken (f : Text) (d : DictList) (t : Result Text × DictList) : Type 0 where
  refused : (c : Exc) → t ≡ (err c, d) → Taken f d t
  taken :
      (r : Text) (xs : List Text)
      → t.0 ≡ ok r
      → HasNoEmpty t.1
      → ((j : Text) → values_at j t.1 ≡ (if f == j then xs else values_at j d))
      → ((a : Text) → count a (values_at f d) ≡ count a xs + (if r == a then 1 else 0))
      → Taken f d t

pop-Taken :
    (f : Text) (d : DictList)
    → HasNoEmpty d
    → (o : Option Text) → get_last? (values_at f d) ≡ o
    → Taken f d (take_real_path f none d)
unfolding take_real_path
pop-Taken f d h none e = refused key_error (pop_and_clean-err f d h e)
pop-Taken f d h (some r) e =
    taken r (init (values_at f d)) (rw (pop_and_clean_result f d h) (rw e refl))
      (pop_and_clean-HasNoEmpty f d h) (values_at-pop_and_clean f d h)
      (λ a. count-init a r (values_at f d) e)

take_real_path-some :
    (f r : Text) (d : DictList)
    → take_real_path f (some r) d
      ≡ continue (remove_and_clean f r d).0 (λ _. pure r) (remove_and_clean f r d).1
unfolding take_real_path
take_real_path-some f r d = sym (bind_assoc (remove_value f r) (λ _. clean f) (λ _. pure r) d)

remove-Taken : (f r : Text) (d : DictList) → HasNoEmpty d → Taken f d (take_real_path f (some r) d)
remove-Taken f r d h = elim (Bool-cases (contains r (values_at f d))) [
  | inl present ↦
      rw (take_real_path-some, remove_and_clean-ok f r d h present)
        (taken r (remove_first r (values_at f d)) refl (remove_and_clean-HasNoEmpty f r d h)
          (values_at-remove_and_clean f r d h)
          (λ a. ground (
            arith,
            count-remove_first r a (values_at f d),
            count_pos-contains r (values_at f d),
            list_beq_iff r a,
          )))
  | inr absent ↦
      let (c, e) = remove_and_clean-err f r d h absent in
      refused c (rw (take_real_path-some, e) refl)
]

take_real_path-Taken :
    (f : Text) (r : Option Text) (d : DictList) → HasNoEmpty d → Taken f d (take_real_path f r d)
take_real_path-Taken f none d h = pop-Taken f d h _ refl
take_real_path-Taken f (some r) d h = remove-Taken f r d h

-- What `remove_real_path` does: it raises and changes nothing, or one pair is gone in both
-- directions.
data Removed (f : Text) (m : PathMapping) (t : Result (Unit {0}) × PathMapping) : Type 0 where
  refused : (c : Exc) → t ≡ (err c, m) → Removed f m t
  removed :
      (r : Text) (xs : List Text)
      → t.0 ≡ ok tt
      → IsConsistent t.1
      → ((j : Text)
          → values_at j t.1.forward_mapping
            ≡ (if f == j then xs else values_at j m.forward_mapping))
      → ((a : Text)
          → count a (values_at f m.forward_mapping) ≡ count a xs + (if r == a then 1 else 0))
      → Removed f m t

Taken-Removed :
    (f : Text) (r : Option Text) (m : PathMapping)
    → IsConsistent m
    → (t : Result Text × DictList) → t ≡ take_real_path f r m.forward_mapping
    → Taken f m.forward_mapping t
    → Removed f m (remove_real_path f r m)
unfolding remove_real_path
Taken-Removed f r m h t e (refused c p) = refused c (rw (← e, p) refl)
Taken-Removed f r m h t e (taken x xs p full at counts) =
    let there : contains f (values_at x m.reverse_mapping) ≡ true =
      contains-count_pos f (values_at x m.reverse_mapping)
        (ground (arith, counts x, h.paired f x, eq_refl x)) in
    rw (← e, p, remove_and_clean-ok x f m.reverse_mapping h.reverse_full there)
      (removed x xs refl
        (record {
          forward_full = full;
          reverse_full = remove_and_clean-HasNoEmpty x f m.reverse_mapping h.reverse_full;
          paired = λ f' r'. ground (
            arith,
            at f',
            values_at-remove_and_clean x f m.reverse_mapping h.reverse_full r',
            h.paired f' r',
            h.paired f r',
            h.paired f' x,
            counts r',
            count-remove_first f f' (values_at x m.reverse_mapping),
            list_beq_iff f f',
            list_beq_iff x r',
          );
        })
        at counts)

remove_real_path-Removed :
    (f : Text) (r : Option Text) (m : PathMapping)
    → IsConsistent m
    → Removed f m (remove_real_path f r m)
remove_real_path-Removed f r m h =
    Taken-Removed f r m h _ refl (take_real_path-Taken f r m.forward_mapping h.forward_full)

-- `remove_real_path` keeps the two directions in agreement, whether it raises or not.
pub remove_real_path-IsConsistent :
    (f : Text) (r : Option Text) (m : PathMapping)
    → IsConsistent m
    → IsConsistent (remove_real_path f r m).1
remove_real_path-IsConsistent f r m h = go _ (remove_real_path-Removed f r m h)
  where
    go : (t : Result (Unit {0}) × PathMapping) → Removed f m t → IsConsistent t.1
    go t (refused c e) = rw e h
    go t (removed x xs p k at counts) = k

-- Where `remove_real_path` raises on a mapping that agrees, it has changed nothing.
pub remove_real_path_raised :
    (f : Text) (r : Option Text) (m : PathMapping) {c : Exc}
    → IsConsistent m
    → (remove_real_path f r m).0 ≡ err c
    → (remove_real_path f r m).1 ≡ m
remove_real_path_raised f r m {c} h raised = go _ (remove_real_path-Removed f r m h) raised
  where
    go : (t : Result (Unit {0}) × PathMapping) → Removed f m t → t.0 ≡ err c → t.1 ≡ m
    go t (refused c' e) p = rw e refl
    go t (removed x xs p' k at counts) p = cc

-- Without a real path given, the latest one is taken off.
remove_real_path_latest :
    (f r : Text) (m : PathMapping)
    → IsConsistent m
    → get_last? (values_at f m.forward_mapping) ≡ some r
    → ((remove_real_path f none m).0 ≡ ok tt)
      × ((remove_real_path f none m).1.forward_mapping ≡ (pop_and_clean f m.forward_mapping).1)
unfolding remove_real_path take_real_path
remove_real_path_latest f r m h last =
    let there : contains f (values_at r m.reverse_mapping) ≡ true =
      contains-count_pos f (values_at r m.reverse_mapping) (
        ground
          (arith, count-init r r (values_at f m.forward_mapping) last, h.paired f r, eq_refl r)) in
    rw
      (
        pop_and_clean_result f m.forward_mapping h.forward_full,
        last,
        remove_and_clean-ok r f m.reverse_mapping h.reverse_full there,
      )
      (refl, refl)

pub real_path_at_lem :
    (f : Text) (m : PathMapping) → real_path_at f m ≡ get_last? (values_at f m.forward_mapping)
unfolding real_path_at
real_path_at_lem f m = ground arith

-- The real paths of a fake path are a stack: after `add_real_path` the path that was added is the
-- one that is read, and `remove_real_path` then succeeds and leaves at every fake path the list
-- that was there before.
pub remove_real_path-add_real_path :
    (f r : Text) (m : PathMapping)
    → IsConsistent m
    → (real_path_at f (add_real_path f r m).1 ≡ some r)
      × ((remove_real_path f none (add_real_path f r m).1).0 ≡ ok tt)
      × ((j : Text)
          → lookup j (remove_real_path f none (add_real_path f r m).1).1.forward_mapping
            ≡ lookup j m.forward_mapping)
remove_real_path-add_real_path f r m h =
    let m' : PathMapping = (add_real_path f r m).1 in
    let h' : IsConsistent m' = add_real_path-IsConsistent f r m h in
    let at : (j : Text)
        → values_at j m'.forward_mapping ≡ (
            if f == j
            then values_at f m.forward_mapping ++ r ∷ []
            else values_at j m.forward_mapping) =
      λ j. rw add_real_path_lem (values_at-append_value f r m.forward_mapping j) in
    let last : get_last? (values_at f m'.forward_mapping) ≡ some r =
      rw (at f, eq_refl f) (get_last?-append (values_at f m.forward_mapping) r) in
    let gone = remove_real_path_latest f r m' h' last in
    (
      real_path_at_lem f m' ∙ last,
      gone.0,
      λ j.
          rw
            (
              gone.1,
              lookup-nonempty j _ (pop_and_clean-HasNoEmpty f m'.forward_mapping h'.forward_full),
              values_at-pop_and_clean f m'.forward_mapping h'.forward_full j,
              lookup-nonempty j m.forward_mapping h.forward_full,
            )
            (ap nonempty (
              ground (
                arith,
                at j,
                at f,
                eq_refl f,
                list_beq_iff f j,
                init-append (values_at f m.forward_mapping) r,
              ))),
    )
