-- ===== src/PathStore/Mapping/DictLists.antt =====
-- `DictList` of modules/pytagsfs/pathstore/pytypes.py: a dict of lists.
pub mod Laws
use pytagsfs.Base.{
  Bool, Option, none, some, List, [], ◌∷◌, ◌++◌, Text, Dict, lookup, insert, erase, Exec, Proc,
  Result, ok, err, raise, pure, modify, key_error, index_error, value_error, get_last?, init,
  is_empty, contains, remove_first, ◌>>=◌, ◌>>◌, list_eq, nat_eq, if◌then◌else◌,
}

abbrev pub DictList : Type 0
DictList = Dict Text (List Text)

unfoldable pub get_or_set_and_get : Text → Exec DictList (List Text)
get_or_set_and_get k d = elim (lookup k d) [ none ↦ pure [] (insert k [] d) | some l ↦ pure l d ]

-- self.get_or_set_and_get(k).append(v)
unfoldable pub append_value : Text → Text → Proc DictList
unfolding get_or_set_and_get
append_value k v = do l ← get_or_set_and_get k; modify (insert k (l ++ v ∷ []))

unfoldable pub clean : Text → Proc DictList
clean k d = elim (lookup k d) [
  | none ↦ raise key_error d
  | some l ↦ if is_empty l then pure tt (erase k d) else pure tt d
]

-- `self[k].pop()` on a list that is there; `finally` cleans after a pop and after an IndexError.
pop_list : Text → List Text → Option Text → Exec DictList Text
unfolding clean
pop_list k l none = do clean k; raise index_error
pop_list k l (some v) = do modify (insert k (init l)); clean k; pure v

-- With no such key the clean-up raises the same KeyError again.
unfoldable pub pop_and_clean : Text → Exec DictList Text
unfolding pop_list
pop_and_clean k d = elim (lookup k d) [
  | none ↦ raise key_error d
  | some l ↦ pop_list k l (get_last? l) d
]

-- self[k].remove(v)
unfoldable pub remove_value : Text → Text → Proc DictList
remove_value k v d = elim (lookup k d) [
  | none ↦ raise key_error d
  | some l ↦ if contains v l then pure tt (insert k (remove_first v l) d) else raise value_error d
]
