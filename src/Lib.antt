-- ===== src/Lib.antt =====
-- pytagsfs: a FUSE filesystem that shows media files under virtual paths made from their tags.
--
-- A virtual ("fake") path leads to a file of the source tree ("real" path). The filesystem
-- (modules/pytagsfs/fs) answers the kernel, the source tree representation keeps the two trees in
-- step, and the path store (modules/pytagsfs/pathstore) holds which virtual path stands for which
-- real paths and what each virtual directory lists. `Values` are the tags of a file.
--
-- Base         Boolean tests, equality tests, lists, dicts, text, and the monad of methods that
--              change an object and may raise: what was written before a raise stays written. An
--              exception is its class. Base.Invariants has the rules for invariants of methods.
-- Util         modules/pytagsfs/util.py: Util.Unique has `unique` and `last_unique`, Util.Paths
--              has `split_path` and `join_path_abs` over os.path.
-- PathStore    modules/pytagsfs/pathstore/pytypes.py: PathStore.Mapping has `DictList` and
--              `PathMapping`, PathStore.Entries has `Entry` and `EntryStore`, and
--              PathStore.PyTypes has `PyTypesPathStore`, with `get_end_points` of its base class in
--              PathStore.EndPoints, each method under its own name, with
--              `remove_empty_directory` for `_remove_directory` and `must_exist` and the like for
--              the methods with a leading underscore. `write_entry` and `unset_at` are the methods
--              of an entry, which is named by its place.
-- Values       modules/pytagsfs/values.py: the class `Values`, an association list.
-- PathPropCache  modules/pytagsfs/pathpropcache.py.
-- LogFile      modules/pytagsfs/specialfile/logfile.py: the ring buffer, where the change of class
--              at the first overflow is the field `is_full`, and the virtual file that shows it.
-- OpenFiles    modules/pytagsfs/fs/__init__.py and modules/pytagsfs/file.py: the table of open
--              files, the frozen paths and the deferred truncations, and in OpenFiles.Calls
--              `open_file` for `open`, `release`, `truncate` and the size in `getattr`, and in
--              OpenFiles.Reads the reads of a file that was truncated. The methods stand without
--              `return_errno`, which is in Handlers. The operating system and the source tree
--              representation are the record `Os`, a parameter of every definition that calls them.
-- SourceTree   modules/pytagsfs/sourcetree.py: the paths of `SourceTree`, whose root is an argument.
-- DeferredMonitor  modules/pytagsfs/sourcetreemon/deferred.py: the queue of events, with `report`
--              for the call of the callback that an event's kind names. The callbacks are a
--              parameter, over a state of theirs, which does not reach the queue.
-- Regex        modules/pytagsfs/regex.py: the segments of a regular expression, put together into its
--              string by `eval`, from the content of a `Context` to its content afterwards.
-- Patterns     modules/pytagsfs/subspat.py: the nodes of a pattern and their `consume`, Patterns.Parsing
--              has the loop that parses, Patterns.Filling `fill`, whose error has its expression,
--              its substitutions and its parameters until `fill_path` turns it into another one, and Patterns.Splitting the split
--              regex and `Splitter`. What the `re` module answers for a string is the record `Re`.
-- SourceTreeRep  modules/pytagsfs/sourcetreerep: the state and the cache of a source tree
--              representation. SourceTreeRep.Filling has `fill_path`, the filters and the splitters,
--              SourceFiles and SourceDirs the source files and directories, Queries, Directories,
--              Renaming, Attributes and Times the methods on virtual paths, and Callbacks what a monitor
--              calls, and `populate` of pollinline.py. A method keeps its name, without a leading
--              underscore. The source tree, the meta-data store and the monitor are the record
--              `Outside`, and what a representation is made with is the record `Settings`. A walk of
--              the source tree is a finite tree of directories, which is an argument.
-- MetaStores   modules/pytagsfs/metastore/__init__.py: `DelegateMultiMetaStore`, with `delegate_get` and
--              `delegate_set` for its methods, over a list of stores, which share a dict of values
--              that each of them may change, and in MetaStores.PathTags
--              modules/pytagsfs/metastore/path.py, with `path_tags` and `path_set` for its methods.
-- Kqueue       modules/pytagsfs/sourcetreemon/kqueue_.py: `KqueueManager`, over the kernel as the record
--              `Kernel`, whose laws are the record `KernelLaws`. A generator is a method with the body
--              of the loop that it feeds as its argument, in Kqueue.Processing. `start_directory` and
--              `finish_directory` are `watch_directory` after its calls of open and listdir.
-- CommandLine  modules/pytagsfs/fs/__init__.py: the options after the option parser, the format
--              string, the command line of fuse, and the choice of a monitor.
-- Handlers     modules/pytagsfs/fs/__init__.py and modules/pytagsfs/file.py: the calls of the kernel,
--              with `getattr_of` for `getattr`. The world of OpenFiles is here the representation of
--              SourceTreeRep, so that `os` fills the interface `Os`; `Disk` is the operating system.
-- SpecialFiles modules/pytagsfs/specialfile/__init__.py: the delegation of calls to special files, whose
--              methods end in `_mixed`, before any filesystem, the record `Super`.
-- Tokens       modules/pytagsfs/multithreading.py: the tokens and their exchange, as steps of threads.
-- Tests        runs of the code and the theorems at concrete values.
--
-- A str or a unicode object is a list of code points, and a dict is an association list in which
-- the order of the entries stands for the interpreter's. Fuel: the climb up a path in Util.Paths and
-- PathStore.Entries has the length of the path, which is enough, as where there is an entry the head
-- that os.path.split gives is shorter than the path. Parsing a pattern has the length of the pattern,
-- as each node takes something off. `_cache_prune_branch_to` has the length of the path and one, and
-- raises `no_fuel` where that is not enough: the loop of the source never ends for a path that
-- starts with two separators. `get_end_points` and `getattr` have the length of the longest virtual
-- directory, as each call inside is for a longer path, and raise `no_fuel` where that is not enough,
-- which for `get_end_points` takes an entry that is empty or has a separator. `utime` goes from a
-- directory to its end points, two calls deep, and raises `no_fuel` for an end point that is no file
-- and whose cached entries are not empty, where the source calls itself without end.
--
-- Not modelled: the encodings of paths, logging, the monitors for inotify and gamin, the store of
-- the tags that are in media files, the calls of the kernel that pass a path on to the operating system
-- (chmod, chown, statfs), the `getattr` of sourcetreerep/pollinline.py, which processes the events of
-- the monitor before each stat result, the error of a regular expression in a filter, the experiment of
-- fs/mail.py, the option parsers, the loading of classes by name, and the binding of the fuse library.
pub mod Base
pub mod Util
pub mod PathStore
pub mod Values
pub mod PathPropCache
pub mod LogFile
pub mod OpenFiles
pub mod SourceTree
pub mod DeferredMonitor
pub mod Regex
pub mod MetaStores
pub mod Tokens
pub mod Kqueue
pub mod CommandLine
pub mod Handlers
pub mod SpecialFiles
pub mod Patterns
pub mod SourceTreeRep
mod Tests
