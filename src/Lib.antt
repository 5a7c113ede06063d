-- ===== src/Lib.antt =====
-- Verification of the file system server: a shallow embedding of its C++ headers.
--
-- The program is a stack. A disk gives sectors by address (src/storage_interface.h; src/ram_disk.h
-- is one in memory). `disk_view` (src/disk_view.h) reads and writes a sector as a struct of
-- src/fs_block_structure.h. `fs_allocator` (src/fs_allocator.h) keeps the free blocks in the
-- sector ALLOC_ROOT and hands them out. `file_system` and its handles (src/fs.h) keep folders and
-- files in sectors, with a table of the handles that are open. `fs_server` (src/fs_server.h) runs
-- the instructions of src/fs_protocol.h for one client on a current folder. `fs_shell`
-- (src/fs_shell.h) reads what a user types, sends it as such an instruction and prints the answer;
-- src/utils/socket.h carries the bytes between the two. `disk_client` (src/disk_client.h) is a
-- disk whose sectors are those of a `virtual_drive` behind a connection, for many threads at once;
-- `raw_shell` (src/raw_shell.h) reads and writes single sectors.
--
--   Run           the outcomes of a member function, and `ERROR_CODE` of src/utils/except.h
--   Bytes, Memory, CString, Table
--                 little-endian words, memcpy, C strings and unordered maps of the C++ library
--   Misc          src/utils/misc.h; Misc/Power is about `power_of_2`
--   Node          src/fs_block_structure.h: `DirectoryNode`, `AllocatorNode`, `default_*`;
--                 Node/Codec has their bytes in a sector, Node/Codec/Layout the offset of each
--                 field there, Node/Bits the attribute bits
--   Disk, DiskView
--                 src/storage_interface.h and src/disk_view.h
--   RamDisk       src/ram_disk.h; RamDisk/Refine relates it to Disk
--   Drive         src/virtual_drive.h; Drive/Checks has the checks of its constructor, Drive/Store its
--                 requests, Drive/Launch the constructor's system calls
--   DiskClient    src/disk_client.h; Steps has the interleavings of its threads, its handler and the
--                 drive, Invariant what holds in all of them, Keep, Exchange, Respond and Reachable
--                 why, and Safe what a caller gets from it
--   RawShell      src/raw_shell.h; RawShell/Store is about its reads and writes
--   Allocator     src/fs_allocator.h; Allocator/Leaf has one call, Allocator/Free the pool of
--                 blocks, Allocator/Exhausted its end
--   Fs            `file_system` of src/fs.h; Fs/Mounted has its basic steps, Fs/Format the
--                 constructor and `format`
--   Fs/Handle     `fs_handle`; Fs/Handle/Count has the table of open handles
--   Fs/Folder     `fs_folder_handle`: `open_file` is `open`, the others keep their names;
--                 Layout says how a folder lies on the disk, and Search, Create, Remove, Refuse
--                 and Rewrite are about the operations on it
--   Fs/File       `fs_file_handle`: `read_all`, `write_all`; Layout says how a file lies on the
--                 disk, and Read, Grow, Fill, Write and RoundTrip are about the operations on it
--   Fs/Volume     all folders and files of a disk at once and what keeps them apart; Frame, Create,
--                 Remove, Write and Format have what an operation leaves of such a volume, and
--                 Operations runs `create`, `remove` and `write_all` on it
--   Protocol      src/fs_protocol.h
--   Server        one round of `serve_client`; Path, Refuse, Cat, Cd and Write are about the
--                 replies, Fresh about a client of a formatted disk
--   Server/Tree   what a client is promised: a tree of named folders and files, the answer to each
--                 request and the tree after it, without the disk; Server/Tree/Names has the names
--                 in its folders, and Server/Tree/Edits relates the code's functions on texts,
--                 names, paths and codes of replies to those of the tree. The tree's table of open handles is kept by
--                 the code's own construction and destruction, which Fs/Handle/Count is about
--   Server/Serving
--                 the loop of `serve_client` on a volume: Shown has the tree of a volume, Here the
--                 searches in the current folder, Answer and Change one request each, and Sequence
--                 the sequences of them
--   Socket        `socket_handle` of src/utils/socket.h; Socket/Send and Socket/Receive have its loops
--   Socket/Handle how its objects are made, moved and closed; Owners, Lifetime and Steps are about
--                 who closes a descriptor
--   Shell         `fs_shell` of src/fs_shell.h; Shell/Parse has the lines that are typed, Shell/Agree
--                 the answers of the server
--   Programs      the arguments of step1/disk.cpp, step1/client.cpp, step2/fs.cpp, step2/client.cpp
--                 and step3/fs.cpp; Programs/Ports has what a disk is launched with
--   Tests         runs on small disks, and the theorems at concrete values
--
-- A member function is a function from the state of its object to a `Run`: a value, an exception
-- or undefined behaviour, the first two with the new state. Numbers of a fixed width are natural
-- numbers with the wrap-around written out. Loops over an index recurse on the number of rounds
-- left. Two loops of the file system have fuel: the walk down the allocator's tree has 2 ^ 16
-- steps, and `tree_depth` has 16 bits and falls at every level of a well-formed tree; the shift
-- loop of `power_of_2` has 64 rounds, one for each bit. The loops of a socket have fuel as well, and
-- more than the bytes left and the interruptions to come is enough. The clock and the memory that
-- C++ leaves indeterminate are arguments (`Env`, `Stack`), as are the system calls on sockets and
-- files and the way a stream reads a number.
--
-- Not modelled: threads, but for those of DiskClient (elsewhere the mutexes make each operation
-- one step), and so several clients of one server at once; the login of a client; a connection that
-- closes inside a round of `serve_client`; what becomes of the threads of src/disk_client.h when the
-- drive closes the connection; the receiver thread of src/virtual_drive.h as a thread; the line
-- editor of src/utils/shell.h; passwords (src/utils/password.h), which call a cryptographic library;
-- the unused structs of src/fs_block_structure.h for lists of users and of children; and the
-- messages of exceptions.
pub mod Allocator
pub mod Bytes
pub mod CString
pub mod Disk
pub mod DiskClient
pub mod DiskView
pub mod Drive
pub mod Fs
pub mod Memory
pub mod Misc
pub mod Node
pub mod Prelude
pub mod Programs
pub mod Protocol
pub mod RamDisk
pub mod RawShell
pub mod Run
pub mod Server
pub mod Shell
pub mod Socket
pub mod Table
pub mod Tests
