-- ===== src/SourceTreeRep/Filling.antt =====
-- `fill_path`, the filters and the splitters of a source tree representation.
use pytagsfs.Base.{
  ◌==◌, Bool, true, false, not, if◌then◌else◌, List, [], ◌∷◌, Text, Result, ok, err,
  unrepresentable_path, contains, is_empty, length, take, list_eq, nat_eq, Proc,
}
use pytagsfs.Util.Paths.{sep, join_path_abs, split_path}
use pytagsfs.Patterns.{Nodes}
use pytagsfs.Patterns.Filling.{CaseMap, Filled, filled, fill_error, Substitutions, fill}
use pytagsfs.Patterns.Splitting.{Re, Splitter, get_splitter}
use pytagsfs.PathStore.PyTypes
use pytagsfs.SourceTreeRep.{SourceTreeRep, on_path_store}

-- A part, as the loop of `fill_path` tests it.
unfoldable pub checked_part : Filled → Result Text
checked_part (fill_error x d ps) = err unrepresentable_path
checked_part (filled s) =
    if is_empty s
    then err unrepresentable_path
    else if contains sep s
    then err unrepresentable_path
    else ok s

-- What follows a part in the list of parts.
abbrev pub cons_part : Result Text → Result (List Text) → Result (List Text)
cons_part (err c) parts = err c
cons_part (ok part) (err c) = err c
cons_part (ok part) (ok parts) = ok (part ∷ parts)

abbrev pub joined : Result (List Text) → Result Text
joined (err c) = err c
joined (ok parts) = ok (join_path_abs parts)

module _ (case_map : CaseMap) where
  unfoldable pub fill_parts : List Nodes → Substitutions → Result (List Text)
  unfolding checked_part
  fill_parts [] substitutions = ok []
  fill_parts (pattern ∷ patterns) substitutions =
      cons_part (checked_part (fill case_map pattern substitutions))
        (fill_parts patterns substitutions)

  unfoldable pub fill_path : List Nodes → Substitutions → Result Text
  unfolding fill_parts
  fill_path patterns substitutions = joined (fill_parts patterns substitutions)

-- A filter's expression after a `!`, and whether there is one.
pub record Filter : Type 0 where
  pub expression : Text
  pub is_negated : Bool
  pub real : Bool

unfoldable pub make_filter : Text → Bool → Filter
make_filter [] real = record { expression = []; is_negated = false; real = real }
make_filter (c ∷ expr) real =
    if c == b'!'
    then record { expression = expr; is_negated = true; real = real }
    else record { expression = c ∷ expr; is_negated = false; real = real }

-- `regex.search` is the `re` module's.
module _ (search : Text → Text → Bool) where
  unfoldable pub apply_filter : Filter → Text → Text → Bool
  apply_filter filtr real_path fake_path =
      let found = search filtr.expression (if filtr.real then real_path else fake_path) in
      if filtr.is_negated then not found else found

  unfoldable pub filter_path : List Filter → Text → Text → Bool
  unfolding apply_filter
  filter_path [] real_path fake_path = true
  filter_path (filtr ∷ filters) real_path fake_path =
      let rest = filter_path filters real_path fake_path in
      if not (apply_filter filtr real_path fake_path) then false else rest

abbrev pub cons_splitter : Result Splitter → Result (List Splitter) → Result (List Splitter)
cons_splitter (err c) splitters = err c
cons_splitter (ok splitter) (err c) = err c
cons_splitter (ok splitter) (ok splitters) = ok (splitter ∷ splitters)

module _ (re : Re) where
  unfoldable pub get_splitters : List Nodes → Substitutions → Result (List Splitter)
  unfolding get_splitter
  get_splitters [] values = ok []
  get_splitters (pattern ∷ patterns) values =
      cons_splitter (get_splitter re pattern values) (get_splitters patterns values)

  abbrev pub splitters_for :
      List Nodes → Substitutions → Result (List Text) → Result (List Splitter)
  splitters_for patterns values (err c) = err c
  splitters_for patterns values (ok fake_path_parts) =
      get_splitters (take (length fake_path_parts) patterns) values

  unfoldable pub create_splitters : List Nodes → Text → Substitutions → Result (List Splitter)
  unfolding get_splitters split_path
  create_splitters patterns fake_path values = splitters_for patterns values (split_path fake_path)

module _ {ℓ} {W : Type ℓ} where
  abbrev pub set_splitters : Text → List Splitter → Proc (SourceTreeRep W)
  set_splitters fake_path splitters = on_path_store (PyTypes.set_meta_data fake_path splitters)
