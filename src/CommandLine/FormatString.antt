-- ===== src/CommandLine/FormatString.antt =====
-- The format string of `PyTagsFileSystem.process_options` of modules/pytagsfs/fs/__init__.py.
pub mod Pieces
use pytagsfs.Base.{
  Bool, true, false, not, ◌&&◌, ◌==◌, if◌then◌else◌, List, [], ◌∷◌, Text, nat_eq, Result,
}
use pytagsfs.Util.Paths.{sep, rstrip_sep, starts_with_sep, split_path}

-- re.sub('/{2,}', '/', s)
unfoldable pub collapse : Text → Text
unfolding starts_with_sep
collapse [] = []
collapse (c ∷ s) = let rest = collapse s in if c == sep && starts_with_sep s then rest else c ∷ rest

unfoldable pub with_sep : Text → Text
unfolding starts_with_sep
with_sep s = if starts_with_sep s then s else sep ∷ s

unfoldable pub normal_format : Text → Text
unfolding rstrip_sep with_sep collapse
normal_format format = collapse (with_sep (rstrip_sep format))

unfoldable pub format_string_parts : Text → Result (List Text)
unfolding normal_format split_path
format_string_parts format = split_path (normal_format format)
