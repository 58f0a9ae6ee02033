-- ===== src/OpenFiles/Truncation.antt =====
-- `truncate` of a path that is not open for writing.
use Prim.Native.Nat.{ℕ}
use pytagsfs.Base.{
  Dict, ◌&&◌, ◌≡◌, refl, ap, ◌∙◌, if◌then◌else◌, ◌==◌, ltb, none, Text, lookup, insert, ok,
  Bool-cases, Option-cases, inl, inr, arith, list_eq, nat_eq, list_beq_iff, lookup-insert,
}
use pytagsfs.OpenFiles.Calls.{truncate, getattr_size}
use pytagsfs.OpenFiles.{FileSystem, Os, shown_size, is_shorter, defer_truncate, set_truncate_to}

module _ {ℓ} {W : Type ℓ} (os : Os W) where
  getattr_size_lem :
      (q : Text) (n : ℕ) (s : FileSystem W)
      → lookup q s.frozen_path_mappings ≡ none
      → (os.source_size q s.world).0 ≡ ok n
      → (getattr_size os q s).0 ≡ ok (shown_size n (lookup q s.truncated_paths))
  unfolding getattr_size
  getattr_size_lem q n s thawed e = rw (thawed, getattr_size) (rw e refl)

  -- What `truncate` leaves of a table in which the path is not frozen.
  pub truncate_lem :
      (p : Text) (len : ℕ) (s : FileSystem W)
      → lookup p s.frozen_path_mappings ≡ none
      → truncate os p len s ≡ defer_truncate p len s
  unfolding truncate
  truncate_lem p len s thawed = rw (thawed, truncate) refl

module _ {ℓ} {W : Type ℓ} where
  pub defer_truncate_lem :
      (p : Text) (len : ℕ) (s : FileSystem W)
      → ((defer_truncate p len s).0 ≡ ok tt)
        × ((defer_truncate p len s).1.world ≡ s.world)
        × ((defer_truncate p len s).1.frozen_path_mappings ≡ s.frozen_path_mappings)
        × ((defer_truncate p len s).1.truncated_paths ≡ (
            if is_shorter len (lookup p s.truncated_paths)
            then insert p len s.truncated_paths
            else s.truncated_paths))
  unfolding defer_truncate set_truncate_to
  defer_truncate_lem p len s = elim (Bool-cases (is_shorter len (lookup p s.truncated_paths))) [
    | inl b ↦ rw (b, defer_truncate) (refl, refl, refl, refl)
    | inr b ↦ rw (b, defer_truncate) (refl, refl, refl, refl)
  ]

-- The size that is shown after the new length was noted.
pub shown_after :
    (p q : Text) (len n : ℕ) (d : Dict Text ℕ)
    → shown_size n (lookup q (if is_shorter len (lookup p d) then insert p len d else d))
      ≡ (if p == q && ltb len (shown_size n (lookup q d)) then len else shown_size n (lookup q d))
unfolding shown_size is_shorter
shown_after p q len n d = elim (Option-cases (lookup p d)) [
  | inl none_p ↦ elim (Option-cases (lookup q d)) [
    | inl none_q ↦ ground (arith, lookup-insert p q len d, list_beq_iff p q)
    | inr (t, some_q) ↦ ground (arith, lookup-insert p q len d, list_beq_iff p q)
  ]
  | inr (u, some_p) ↦ elim (Option-cases (lookup q d)) [
    | inl none_q ↦ ground (arith, lookup-insert p q len d, list_beq_iff p q)
    | inr (t, some_q) ↦ ground (arith, lookup-insert p q len d, list_beq_iff p q)
  ]
]

module _ {ℓ} {W : Type ℓ} (os : Os W) where
  -- `truncate` of a path that is not open for writing returns without a call of the operating
  -- system or the source tree, and from then on `getattr` shows for the path the smaller of its new
  -- length and the size that it showed before, and for each other path that is not open for writing
  -- the size that it showed before.
  pub getattr_size-truncate :
      (p q : Text) (len n : ℕ) (s : FileSystem W)
      → lookup p s.frozen_path_mappings ≡ none
      → lookup q s.frozen_path_mappings ≡ none
      → (os.source_size q s.world).0 ≡ ok n
      → ((truncate os p len s).0 ≡ ok tt)
        × ((truncate os p len s).1.world ≡ s.world)
        × (m : ℕ) × ((getattr_size os q s).0 ≡ ok m)
        × ((getattr_size os q (truncate os p len s).1).0
            ≡ ok (if p == q && ltb len m then len else m))
  getattr_size-truncate p q len n s thawed_p thawed_q e =
      let deferred = defer_truncate_lem p len s in
      rw (truncate_lem os p len s thawed_p) (
        deferred.0,
        deferred.1,
        shown_size n (lookup q s.truncated_paths),
        getattr_size_lem os q n s thawed_q e,
        getattr_size_lem os q n (defer_truncate p len s).1 (rw deferred.2 thawed_q)
              (rw deferred.1 e)
            ∙ ap ok (
                ap (λ d. shown_size n (lookup q d)) deferred.3
                ∙ shown_after p q len n s.truncated_paths),
      )
