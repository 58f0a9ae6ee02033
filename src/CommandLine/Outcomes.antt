-- ===== src/CommandLine/Outcomes.antt =====
-- Which command lines are taken, and which monitor a filesystem gets.
use pytagsfs.Base.{
  ◌↔◌, inl, ◌⊎◌, inr, ◌≡◌, refl, ap, ◌∙◌, Bool, true, false, not, ◌||◌, ◌&&◌, if◌then◌else◌, Option,
  none, some, List, [], ◌∷◌, Text, lookup, Result, ok, err, Exc, opt_parse_error, component_error,
  is_none, list_eq, nat_eq, list_beq, arith,
}
use pytagsfs.CommandLine.{
  level_warning, level_debug, Level, Options, Mount, Monitor, verbosities, verbosity_of,
  or_parse_error, process_options, mount_of, parse, then_ok, is_component_error, try_monitor,
  first_monitor, monitor_names, must_support_writes, pick_monitor,
}
use pytagsfs.CommandLine.FormatString.Pieces.{pieces, parts_or_error, format_string_parts_lem}

abbrev pub is_debug : Options → Bool
is_debug opts = opts.d || opts.o_debug

abbrev pub is_known : Option Text → Bool
is_known none = true
is_known (some name) = not (is_none (lookup name verbosities))

abbrev pub has_two : List Text → Bool
has_two (source ∷ mount ∷ []) = true
has_two _ = false

-- Two arguments, and a verbosity that is known or that the debug mode overrides.
abbrev pub is_accepted : Options → List Text → Bool
is_accepted opts args = has_two args && (is_debug opts || is_known opts.verbosity)

verbosity-refused :
    (debug : Bool) (o : Option Text)
    → (debug || is_known o) ≡ false
    → verbosity_of debug o ≡ err opt_parse_error
unfolding verbosity_of
verbosity-refused true o h = cc
verbosity-refused false none h = cc
verbosity-refused false (some name) h = go (lookup name verbosities) h
  where
    go : (l : Option Level) → not (is_none l) ≡ false → or_parse_error l ≡ err opt_parse_error
    go none k = refl
    go (some l) k = cc

verbosity-accepted :
    (debug : Bool) (o : Option Text)
    → (debug || is_known o) ≡ true
    → (l : Option Level) × (verbosity_of debug o ≡ ok l)
unfolding verbosity_of lookup list_beq
verbosity-accepted true none h = (none, refl)
verbosity-accepted true (some name) h = (some level_debug, refl)
verbosity-accepted false none h = (some level_warning, refl)
verbosity-accepted false (some name) h = go (lookup name verbosities) h
  where
    go :
        (l : Option Level) → not (is_none l) ≡ true → (k : Option Level) × (or_parse_error l ≡ ok k)
    go none k = cc
    go (some l) k = (some l, refl)

module _ (abspath : Text → Text) (opts : Options) where
  two-refused :
      (source mount : Text)
      → (is_debug opts || is_known opts.verbosity) ≡ false
      → process_options abspath opts source mount ≡ err opt_parse_error
  unfolding process_options
  two-refused source mount h = rw (verbosity-refused (is_debug opts) opts.verbosity h) refl

  -- What process_options makes of a format string.
  abbrev pub Takes : Result Mount → Result (List Text) → Type 0
  Takes r (err c) = r ≡ err c
  Takes r (ok parts) =
      (m : Mount) × (r ≡ ok m)
      × (m.format_string_parts ≡ parts)
      × (is_debug opts ≡ true → m.foreground ≡ true)

  two-accepted :
      (source mount : Text)
      → (is_debug opts || is_known opts.verbosity) ≡ true
      → Takes (process_options abspath opts source mount) (parts_or_error (pieces opts.format))
  unfolding process_options
  two-accepted source mount h =
      let (l, e) = verbosity-accepted (is_debug opts) opts.verbosity h in
      rw (e, (format_string_parts_lem opts.format).0) (go l (parts_or_error (pieces opts.format)))
    where
      go :
          (l : Option Level) (r : Result (List Text))
          → Takes (then_ok r (λ parts. ok (mount_of abspath opts source mount l parts))) r
      go l (ok parts) =
          (mount_of abspath opts source mount l parts, refl, refl, λ d. ground (arith, d))
      go l (err c) = refl

  -- The command line is taken exactly if it has two arguments and the verbosity is known or
  -- overridden by the debug mode, and the format string has something between its separators. Without
  -- the first two OptParseError is raised, and without the last ValueError. A command line that is
  -- taken gives the parts of the format string that stand between its separators, and runs in the
  -- foreground in debug mode.
  pub parse_lem :
      (args : List Text)
      → (is_accepted opts args ≡ false → parse abspath opts args ≡ err opt_parse_error)
        × (is_accepted opts args ≡ true
            → Takes (parse abspath opts args) (parts_or_error (pieces opts.format)))
  unfolding parse
  parse_lem [] = (λ h. refl, λ h. cc)
  parse_lem (source ∷ []) = (λ h. refl, λ h. cc)
  parse_lem (source ∷ mount ∷ []) =
      (λ h. two-refused source mount h, λ h. two-accepted source mount h)
  parse_lem (source ∷ mount ∷ extra ∷ args) = (λ h. refl, λ h. cc)

-- The names up to the one of the monitor that is taken: the classes before it lack something.
abbrev pub IsFirst : (Text → Result Monitor) → Monitor → List Text → Type 0
IsFirst get monitor [] = ⊥
IsFirst get monitor (name ∷ names) =
    (get name ≡ ok monitor) ⊎ ((get name ≡ err component_error) × IsFirst get monitor names)

component_of : (c : Exc) → is_component_error c ≡ true → c ≡ component_error
component_of component_error h = refl
component_of _ h = cc

first_monitor-IsFirst :
    (get : Text → Result Monitor) (names : List Text) (monitor : Monitor)
    → first_monitor get names ≡ ok (some monitor)
    → IsFirst get monitor names
unfolding first_monitor
first_monitor-IsFirst get [] monitor h = cc
first_monitor-IsFirst get (name ∷ names) monitor h =
    go (get name) refl (first_monitor-IsFirst get names monitor) h
  where
    failed :
        (c : Exc) (b : Bool)
        → is_component_error c ≡ b
        → get name ≡ err c
        → (first_monitor get names ≡ ok (some monitor) → IsFirst get monitor names)
        → (if b then first_monitor get names else err c) ≡ ok (some monitor)
        → IsFirst get monitor (name ∷ names)
    failed c true d e ih k = inr (e ∙ ap err (component_of c d), ih k)
    failed c false d e ih k = cc

    go :
        (r : Result Monitor)
        → get name ≡ r
        → (first_monitor get names ≡ ok (some monitor) → IsFirst get monitor names)
        → try_monitor r (first_monitor get names) ≡ ok (some monitor)
        → IsFirst get monitor (name ∷ names)
    go (ok m) e ih k = inl (ground (arith, e, k))
    go (err c) e ih k = failed c (is_component_error c) refl e ih k

IsFirst-first_monitor :
    (get : Text → Result Monitor) (names : List Text) (monitor : Monitor)
    → IsFirst get monitor names
    → first_monitor get names ≡ ok (some monitor)
unfolding first_monitor
IsFirst-first_monitor get [] monitor h = elim h [ ]
IsFirst-first_monitor get (name ∷ names) monitor (inl e) = rw e refl
IsFirst-first_monitor get (name ∷ names) monitor (inr (e, h)) =
    rw e (IsFirst-first_monitor get names monitor h)

-- build_source_tree_rep gets a monitor exactly if it is the one of the first class, of the class that
-- the command line names or else of all in their order, that does not raise ComponentError, with
-- no other exception before it, and the filesystem is mounted read-only or the monitor supports
-- writes.
pub pick_monitor_lem :
    (get_source_tree_monitor : Text → Result Monitor) (source_tree_monitors : List Text) (m : Mount)
    (monitor : Monitor)
    → (pick_monitor get_source_tree_monitor source_tree_monitors m ≡ ok monitor) ↔ (
        IsFirst get_source_tree_monitor monitor
          (monitor_names m.source_tree_mon_cls_dotted_name source_tree_monitors)
        × ((m.readonly || monitor.supports_writes) ≡ true))
unfolding pick_monitor
pick_monitor_lem get all m monitor = (
  λ h.
      let (e, w) = go (first_monitor get names) h in (first_monitor-IsFirst get names monitor e, w),
  λ h. rw (IsFirst-first_monitor get names monitor h.0) (ground (arith, h.1)),
)
  where
    names : List Text
    names = monitor_names m.source_tree_mon_cls_dotted_name all

    go :
        (r : Result (Option Monitor))
        → then_ok r (must_support_writes m.readonly) ≡ ok monitor
        → (r ≡ ok (some monitor)) × ((m.readonly || monitor.supports_writes) ≡ true)
    go (ok (some n)) h = (ground (arith, h), ground (arith, h))
    go (ok none) h = cc
    go (err c) h = cc
