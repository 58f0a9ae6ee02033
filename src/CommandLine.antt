-- ===== src/CommandLine.antt =====
-- The command line of modules/pytagsfs/fs/__init__.py, from what the option parser gives on: what
-- `process_options` stores, the command line of fuse, and the parts that a filesystem is built of.
-- `abspath` is os.path.abspath, and text is decoded already.
pub mod FormatString
pub mod Outcomes
use pytagsfs.Base.{
  ℕ, Bool, true, false, not, ◌||◌, ◌&&◌, ◌==◌, if◌then◌else◌, Option, none, some, List, [], ◌∷◌,
  ◌++◌, map, Text, text, Dict, lookup, Result, ok, err, Exc, opt_parse_error, component_error,
  starts_with, list_eq, nat_eq,
}
use pytagsfs.CommandLine.FormatString.{format_string_parts}
use pytagsfs.SourceTreeRep.{Cached}
use pytagsfs.PathPropCache.{PathPropCache}

pub data Level : Type 0 where
  level_debug level_info level_warning level_error level_critical : Level

-- `verbosities`
abbrev pub verbosities : Dict Text Level
verbosities =
    (text "debug", level_debug)
    ∷ (text "info", level_info)
    ∷ (text "warning", level_warning)
    ∷ (text "error", level_error)
    ∷ (text "critical", level_critical)
    ∷ []

-- `opts`, with the mount options of `opts.o`.
pub record Options : Type 0 where
  pub d : Bool
  pub f : Bool
  pub s : Bool
  pub r : Bool
  pub o_debug : Bool
  pub o_read_only : Bool
  pub allow_other : Bool
  pub allow_root : Bool
  pub nonempty : Bool
  pub profile : Bool
  pub nocache : Bool
  pub uid : Option Text
  pub gid : Option Text
  pub verbosity : Option Text
  pub sourcetreemon : Option Text
  pub logsize : ℕ
  pub iocharset : Text
  pub source_iocharset : Text
  pub sourcetreerep : Text
  pub pathstore : Text
  pub metastores : Text
  pub format : Text
  pub filters : List (Text × Text)

-- The attributes that `process_options` sets.
pub record Mount : Type 0 where
  pub debug : Bool
  pub foreground : Bool
  pub readonly : Bool
  pub multithreaded : Bool
  pub allow_other : Bool
  pub allow_root : Bool
  pub nonempty : Bool
  pub profile : Bool
  pub nocache : Bool
  pub uid : Option Text
  pub gid : Option Text
  pub source_tree_mon_cls_dotted_name : Option Text
  pub verbosity : Option Level
  pub logsize : ℕ
  pub iocharset : Text
  pub source_iocharset : Text
  pub source_tree_path : Text
  pub mount_point : Text
  pub source_tree_rep_cls_dotted_name : Text
  pub path_store_cls_dotted_name : Text
  pub meta_store_cls_dotted_names : Text
  pub path_filters : List (Text × Bool)
  pub format_string_parts : List Text

-- s in t
unfoldable pub is_within : Text → Text → Bool
unfolding starts_with
is_within s [] = starts_with [] s
is_within s (c ∷ t) = starts_with (c ∷ t) s || is_within s t

unfoldable pub append_filter : Text → Text → List (Text × Text) → List (Text × Text)
unfolding is_within
append_filter opt_str value filters =
    filters ++ (if is_within (text "src") opt_str then text "src" else text "dst", value) ∷ []

abbrev pub or_parse_error {ℓ} : {A : Type ℓ} → Option A → Result (Option A)
or_parse_error none = err opt_parse_error
or_parse_error (some a) = ok (some a)

-- The default of the class, None, stays where only the debug mode is given.
unfoldable pub verbosity_of : Bool → Option Text → Result (Option Level)
unfolding lookup
verbosity_of true none = ok none
verbosity_of true (some name) = ok (some level_debug)
verbosity_of false none = or_parse_error (lookup (text "warning") verbosities)
verbosity_of false (some name) = or_parse_error (lookup name verbosities)

abbrev pub path_filter : Text × Text → Text × Bool
path_filter (which, expr) = (expr, which == text "src")

abbrev pub then_ok {ℓ κ} : {A : Type ℓ} {B : Type κ} → Result A → (A → Result B) → Result B
then_ok (ok a) f = f a
then_ok (err c) f = err c

module _ (abspath : Text → Text) where
  -- The attributes, where the verbosity and the parts of the format string are found.
  abbrev pub mount_of : Options → Text → Text → Option Level → List Text → Mount
  mount_of opts source mount verbosity parts = record {
    debug = opts.d || opts.o_debug;
    foreground = if not (opts.d || opts.o_debug) then opts.f else true;
    readonly = opts.r || opts.o_read_only;
    multithreaded = not opts.s;
    allow_other = opts.allow_other;
    allow_root = opts.allow_root;
    nonempty = opts.nonempty;
    profile = opts.profile;
    nocache = opts.nocache;
    uid = opts.uid;
    gid = opts.gid;
    source_tree_mon_cls_dotted_name = opts.sourcetreemon;
    verbosity = verbosity;
    logsize = opts.logsize;
    iocharset = opts.iocharset;
    source_iocharset = opts.source_iocharset;
    source_tree_path = abspath source;
    mount_point = abspath mount;
    source_tree_rep_cls_dotted_name = opts.sourcetreerep;
    path_store_cls_dotted_name = opts.pathstore;
    meta_store_cls_dotted_names = opts.metastores;
    path_filters = map path_filter opts.filters;
    format_string_parts = parts;
  }

  -- `process_options` of both classes: the format string is read after all the rest.
  unfoldable pub process_options : Options → Text → Text → Result Mount
  unfolding verbosity_of format_string_parts
  process_options opts source mount =
      then_ok (verbosity_of (opts.d || opts.o_debug) opts.verbosity) (λ verbosity.
        then_ok (format_string_parts opts.format)
          (λ parts. ok (mount_of opts source mount verbosity parts)))

  -- `parse` after the option parser: it takes two arguments.
  unfoldable pub parse : Options → List Text → Result Mount
  unfolding process_options
  parse opts [] = err opt_parse_error
  parse opts (source ∷ []) = err opt_parse_error
  parse opts (source ∷ mount ∷ []) = process_options opts source mount
  parse opts (source ∷ mount ∷ extra ∷ args) = err opt_parse_error

-- `-o` and an option
abbrev pub o_option : Text → List Text
o_option option = text "-o" ∷ option ∷ []

abbrev pub where_set : Bool → List Text → List Text
where_set true args = args
where_set false args = []

abbrev pub where_given : Option Text → Text → List Text
where_given none name = []
where_given (some value) name = o_option (name ++ value)

-- The platform decides on two of the options, and paths are encoded by `encode`.
unfoldable pub build_fuse_cmdline_arguments :
    Bool → Text → (Text → Text) → Option Text → Mount → List Text
build_fuse_cmdline_arguments is_darwin read_only_option encode subtype m =
    o_option (text "default_permissions")
    ++ o_option (text "entry_timeout=0")
    ++ o_option (text "negative_timeout=0")
    ++ o_option (text "attr_timeout=0")
    ++ (if is_darwin
        then o_option (text "nolocalcaches")
          ++ o_option (text "noreadahead")
          ++ o_option (text "noubc")
          ++ o_option (text "novncache")
        else o_option (text "max_readahead=0"))
    ++ where_given subtype (text "subtype=")
    ++ where_set m.readonly (o_option read_only_option)
    ++ where_set m.debug (text "-d" ∷ [])
    ++ where_set m.foreground (text "-f" ∷ [])
    ++ where_set (not m.multithreaded) (text "-s" ∷ [])
    ++ where_set m.allow_other (o_option (text "allow_other"))
    ++ where_set m.allow_root (o_option (text "allow_root"))
    ++ where_set m.nonempty (o_option (text "nonempty"))
    ++ where_given m.uid (text "uid=")
    ++ where_given m.gid (text "gid=")
    ++ o_option (text "fsname=" ++ encode m.source_tree_path)
    ++ encode m.mount_point ∷ []

-- What `build_source_tree_rep` looks at of a monitor.
pub record Monitor : Type 0 where
  pub monitor_name : Text
  pub supports_writes : Bool
  pub supports_threads : Bool
  pub can_handle_fork : Bool

-- except ComponentError
abbrev pub is_component_error : Exc → Bool
is_component_error component_error = true
is_component_error _ = false

-- The first monitor of the classes that can be made; another exception than ComponentError goes on.
abbrev pub try_monitor : Result Monitor → Result (Option Monitor) → Result (Option Monitor)
try_monitor (ok monitor) next = ok (some monitor)
try_monitor (err c) next = if is_component_error c then next else err c

unfoldable pub first_monitor : (Text → Result Monitor) → List Text → Result (Option Monitor)
first_monitor get_source_tree_monitor [] = ok none
first_monitor get_source_tree_monitor (name ∷ names) =
    try_monitor (get_source_tree_monitor name) (first_monitor get_source_tree_monitor names)

abbrev pub monitor_names : Option Text → List Text → List Text
monitor_names none all_names = all_names
monitor_names (some name) all_names = name ∷ []

abbrev pub must_support_writes : Bool → Option Monitor → Result Monitor
must_support_writes readonly none = err opt_parse_error
must_support_writes readonly (some monitor) =
    if not readonly && not monitor.supports_writes then err opt_parse_error else ok monitor

-- The monitor that `build_source_tree_rep` picks, and the cache that it makes.
unfoldable pub pick_monitor : (Text → Result Monitor) → List Text → Mount → Result Monitor
unfolding first_monitor
pick_monitor get_source_tree_monitor source_tree_monitors m =
    then_ok
      (first_monitor get_source_tree_monitor
        (monitor_names m.source_tree_mon_cls_dotted_name source_tree_monitors))
      (must_support_writes m.readonly)

unfoldable pub make_cache : Bool → Option (PathPropCache Cached)
make_cache true = none
make_cache false = some []

-- `start` runs once, before the process detaches where the monitor carries across a fork.
unfoldable pub starts_in_pre_init : Monitor → Bool
starts_in_pre_init monitor = monitor.can_handle_fork

unfoldable pub starts_in_init : Monitor → Bool
starts_in_init monitor = not monitor.can_handle_fork

-- `multithreaded` after `pre_init`
unfoldable pub is_multithreaded : Mount → Monitor → Bool
is_multithreaded m monitor = m.multithreaded && monitor.supports_threads
