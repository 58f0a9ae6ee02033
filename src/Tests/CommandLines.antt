-- ===== src/Tests/CommandLines.antt =====
-- Command lines and special files at concrete values.
use pytagsfs.Base.{
  ◌↔◌, if◌then◌else◌, ℕ, ◌≡◌, refl, true, false, none, some, List, [], ◌∷◌, ◌++◌, map, Text, text,
  Result, ok, err, opt_parse_error, component_error, pure, All, contains, list_eq, nat_eq, ◌==◌,
  ◌>>=◌, ◌||◌,
}
use pytagsfs.Util.Paths.{root, starts_with_sep}
use pytagsfs.Util.Paths.Joining.{IsPart}
use pytagsfs.LogFile.{VirtualLogFile, new_buffer}
use pytagsfs.SpecialFiles.{
  SpecialFile, Super, base_file, getattr_log, path_of, getattr_mixed, readdir_mixed, with_links,
}
use pytagsfs.SpecialFiles.Delegation.{names, delegation_lem}
use pytagsfs.CommandLine.{Options, Mount, Monitor, parse, mount_of, pick_monitor, monitor_names}
use pytagsfs.CommandLine.FormatString.{format_string_parts}
use pytagsfs.CommandLine.FormatString.Pieces.{pieces, parts_or_error, format_string_parts_lem}
use pytagsfs.CommandLine.Outcomes.{is_accepted, Takes, parse_lem, IsFirst, pick_monitor_lem}
use pytagsfs.Tests.Representation.{no_stat}

abbrev artist_title : Text
artist_title = text "//%a//%t.%e/"

artist_title_run : pieces artist_title ≡ text "%a" ∷ text "%t.%e" ∷ []
unfolding starts_with_sep
artist_title_run = refl

format_string_parts_lem_example :
    (format_string_parts artist_title ≡ parts_or_error (pieces artist_title))
    × All IsPart (pieces artist_title)
format_string_parts_lem_example = format_string_parts_lem artist_title

abbrev options : Options
options = record {
  d = true;
  f = false;
  s = false;
  r = false;
  o_debug = false;
  o_read_only = false;
  allow_other = false;
  allow_root = false;
  nonempty = false;
  profile = false;
  nocache = false;
  uid = none;
  gid = none;
  verbosity = some (text "loud");
  sourcetreemon = none;
  logsize = 1048576;
  iocharset = text "utf-8";
  source_iocharset = text "utf-8";
  sourcetreerep = text "rep";
  pathstore = text "store";
  metastores = text "tags";
  format = artist_title;
  filters = [];
}

abbrev args : List Text
args = text "/src" ∷ text "/mnt" ∷ []

parse_lem_example :
    (is_accepted options args ≡ false → parse (λ p. p) options args ≡ err opt_parse_error)
    × (is_accepted options args ≡ true
        → Takes
            (λ p. p)
            options
            (parse (λ p. p) options args)
            (parts_or_error (pieces artist_title)))
parse_lem_example = parse_lem (λ p. p) options args

-- A monitor that lacks its library, and one that stands in for every system.
abbrev dummy : Monitor
dummy = record {
  monitor_name = text "dummy";
  supports_writes = true;
  supports_threads = true;
  can_handle_fork = true;
}

abbrev get_monitor : Text → Result Monitor
get_monitor name = if name == text "inotify" then err component_error else ok dummy

abbrev all_monitors : List Text
all_monitors = text "inotify" ∷ text "dummy" ∷ []

abbrev mount : Mount
mount = mount_of (λ p. p) options (text "/src") (text "/mnt") none []

pick_monitor_lem_example :
    (pick_monitor get_monitor all_monitors mount ≡ ok dummy)
    ↔ (IsFirst get_monitor dummy (monitor_names none all_monitors) × ((false || true) ≡ true))
pick_monitor_lem_example = pick_monitor_lem get_monitor all_monitors mount dummy

abbrev log : VirtualLogFile
log = record { file_obj = new_buffer 9; atime = 1; mtime = 2 }

-- A filesystem with one song.
abbrev one_song : Super ℕ
one_song = record {
  super_getattr = λ p. pure no_stat;
  super_readdir = λ p. pure (text "song" ∷ []);
  super_rename = λ p q. pure tt;
  super_rmdir = λ p. pure tt;
  super_truncate = λ p len. pure tt;
  super_utimens = λ p times. pure tt;
  super_read_only = λ p flags t. pure 0;
  super_read_write = λ p flags t. pure 0;
}

abbrev log_file : SpecialFile ℕ
log_file = record (base_file (text ".log") (λ p flags t. pure 1)) {
  getattr_file = λ p. getattr_log (λ w. log) 3 (λ q. pure no_stat);
}

abbrev special_files : List (SpecialFile ℕ)
special_files = log_file ∷ []

delegation_lem_example :
    All
      (λ c.
        (s : ℕ) → getattr_mixed one_song special_files (path_of c) s ≡ c.getattr_file (path_of c) s)
      special_files
    × ((p : Text) (s : ℕ)
        → contains p (map path_of special_files) ≡ false
        → (p == root) ≡ false
        → (getattr_mixed one_song special_files p s ≡ one_song.super_getattr p s)
          × (readdir_mixed one_song special_files p s ≡ one_song.super_readdir p s))
    × ((s : ℕ)
        → getattr_mixed one_song special_files root s
          ≡ (do st ← one_song.super_getattr root; pure (with_links one_song special_files st)) s)
    × ((s : ℕ)
        → readdir_mixed one_song special_files root s
          ≡ (do l ← one_song.super_readdir root; pure (names special_files ++ l)) s)
unfolding contains
delegation_lem_example = delegation_lem one_song special_files (refl, tt) (refl, tt)
