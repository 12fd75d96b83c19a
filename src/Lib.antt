-- ===== src/Lib.antt =====
-- HEPunion is a union file system for Linux. It lays a read-write (RW) branch over a read-only (RO)
-- branch: names of the union are looked up on RW and then on RO, changes go to RW, a file `.wh.name`
-- on RW (a whiteout) hides `name` of RO, and a file `.me.name` on RW holds changed owner, times and
-- mode of a file that stays on RO. This development is about the driver, fs/hepunion/*.c, in its build
-- for kernels other than 2.6.18 and with `_DEBUG_` defined.
--
-- The parts, from the bottom:
-- - CString: the C functions on strings that the driver calls, on byte strings without the final zero.
-- - Names, SpecialPath: the name tests and flags of fs/hepunion/hepunion.h, and `path_to_special` of
--   fs/hepunion/helpers.c, which makes the path of a whiteout or a metadata file. SpecialPath is its
--   result as a function; SpecialPath/Bytes does each `memcpy` into the buffer of the caller, and a
--   write behind the buffer is `none`.
-- - Kernel: what the driver takes from Linux, an interface (record) with an abstract state. No law is
--   assumed of it except where a theorem names one as a hypothesis. Tests/Memory implements it.
-- - Exec: the commands of the driver, functions on the kernel's state, the file system identity of the
--   process, the fields of `struct hepunion_sb_info` that change, the number of live allocations and a
--   record of failed assertions. `push_root`, `pop_root`, `will_use_buffers` and `release_buffers` are
--   the macros of fs/hepunion/hepunion.h. Exec/Tidy has the rules for commands that give everything
--   back.
-- - Lookup (`check_exist`, `get_path_dentry`, `lstat`, `unlink`, `rmdir`), Create (`mkdir`, `mknod`,
--   `mkfifo`, `symlink`, `link`) and Workers (`dbg_open` to `dbg_link`): the helpers of
--   fs/hepunion/helpers.c that work on the branches as root.
-- - Attributes (`find_me`, `get_file_attr_worker` of fs/hepunion/me.c, `find_whiteout` of
--   fs/hepunion/wh.c), Access (`can_access`, `can_remove`, `can_traverse` of helpers.c) and Find
--   (`find_file` of helpers.c, whose call of `create_copyup` is an argument): where a path of the union
--   is, and who may use it. Base/Bits has the laws of conjunction that the classes of rights need.
-- - Whiteout and Hiding: fs/hepunion/wh.c, and `create_me` of me.c. Hiding has the functions that call
--   `find_path`.
-- - Tree (`find_path`) and Copyup (`create_copyup`, `copy_child`, `unlink_copyup`): fs/hepunion/cow.c.
--   `find_file` calls `create_copyup`, which calls `find_path`, which calls `find_file` again without
--   CREATE_COPYUP: Find has it over that call, Tree without CREATE_COPYUP, Copyup for all flags.
-- - View: what the union shows of its branches, the specification that `find_file` and handlers are held
--   to. `Vfs` and `VfsWrites` are what the driver relies on of the kernel's file systems: at which places
--   there is something, and which calls change that. Tests/Places has them for the kernel of the tests.
-- - Metadata: the rest of fs/hepunion/me.c, `get_file_attr`, `set_me` and `set_me_worker`. Readlink and
--   Paths: `readlink`, and the paths of dentries and inodes, of helpers.c.
-- - Ops: the handlers that the VFS calls, of fs/hepunion/opts.c: Ops/Make for new entries, Ops/Remove,
--   Ops/Attr for attributes and rights, Ops/Statfs for `hepunion_statfs`, Ops/Open for
--   `hepunion_lookup`, `hepunion_open`, `hepunion_opendir` and the handlers of an open file. A handler
--   works in the two buffers of the super block and calls the parts above. Exec/Balanced has the rules
--   for commands that give their buffers back, and Exec/Restored those for commands that give the
--   process its identity back.
-- - Readdir: `read_rw_branch`, `read_ro_branch`, `hepunion_readdir` and `hepunion_closedir` of
--   fs/hepunion/opts.c, on the lists of `struct opendir_context`. New entries go to the front of a list.
-- - Mount: `make_path` and the parse of the mount options in `get_branches`, of fs/hepunion/main.c. It
--   sets the branches and the lengths that the other parts take as `Branches`. Mount/Super has the rest of
--   `get_branches`, `hepunion_read_super`, `hepunion_kill_sb` and `hepunion_put_super`.
-- - Hash: fs/hepunion/hash.c, which numbers the inodes of a listing.
-- - Mutex: fs/hepunion/recursivemutex.c, two threads whose accesses to shared memory are single steps
--   in any order.
--
-- A function that writes into a buffer of its caller returns what it leaves there beside its status.
-- A status is a C integer, a pointer that may hold an error code is `Ptr`. Loops over strings and lists
-- are structural. A loop that `retry_estale` repeats is bounded by two rounds: the second one has
-- LOOKUP_REVAL, after which Linux asks for no retry. In Exec `id_lock` is a counter, since one process
-- is followed; what threads do to it is in Mutex.
--
-- `create_copyup` goes down into directories with a bound of two more than `path_max`, above which no
-- path of an entry fits its buffer, and copies contents in rounds whose bound is a parameter.
--
-- Not modelled: the log messages, the branches for kernel 2.6.18, the registration of the file system,
-- and the tests.
pub mod Base
pub mod CString
pub mod Names
pub mod SpecialPath
pub mod Kernel
pub mod Exec
pub mod Lookup
pub mod Attributes
pub mod Access
pub mod Create
pub mod Workers
pub mod Whiteout
pub mod Find
pub mod Hash
pub mod Tree
pub mod View
pub mod Metadata
pub mod Hiding
pub mod Copyup
pub mod Readlink
pub mod Ops
pub mod Readdir
pub mod Paths
pub mod Mount
pub mod Mutex
mod Tests
