-- ===== src/Lib.antt =====
-- DTIO takes the file calls of an application over and has them done by a runtime. An adapter library
-- stands in front of the C library (adapter/). For a path that the configuration takes, it keeps an
-- entry for the open file (include/dtio/client_metadata_manager.h), and turns reads and writes into
-- tasks of a Chimaera module (dtio_chimods/dtiomod), which a container runs in the runtime's process:
-- the handlers open the file, seek and transfer. A second service of the module is a map from keys to
-- values.
--
-- The files, from the bottom up:
--   Prelude: Boolean tests, lists over native numbers, C integers, association lists.
--   Exec: results of runs that may have undefined behaviour, and the messages that are printed.
--   Metadata: include/dtio/client_metadata_manager.h (ClientMetadataManager); a member function is one
--   step, since it holds its mutex throughout.
--   Config: include/dtio/config_manager.h (PathEntry, ShouldIntercept, LoadDefault, ParseYAML).
--   Libc: the C library, an interface over an unknown state. Libc.Kernel states its documented
--   behaviour on regular files, with failures and short transfers; Libc.Splice is about what files
--   hold.
--   Loader: adapter/real_api.h (RealApi) and the constructor in adapter/stdio/stdio_api.h.
--   Tasks, Tasks.Wire: dtio_chimods/dtiomod/include/dtiomod/dtiomod_tasks.h, its constructors, copies
--   and serialisers.
--   Server: dtio_chimods/dtiomod/src/dtiomod_runtime.cc; the state of a container, and the handlers on
--   it and on what its process sees (kernel, shared memory, output).
--   Dispatch, Dispatch.Transport: dtio_chimods/dtiomod/include/dtiomod/dtiomod_lib_exec.h, by method
--   number; a cast to the wrong class is a fault.
--   Chimaera: the state of both processes, and the interface to Chimaera with its laws: where the query
--   of a task names one container, the task is run once in it, and a buffer is a block of the requested
--   size with unknown contents. Before it runs a task, Chimaera may call the module's monitor, which
--   may give the task another query; nothing is assumed of a task for several containers.
--   Client: dtio_chimods/dtiomod/include/dtiomod/dtiomod_client.h.
--   Posix: adapter/posix/posix_api.cc. Stdio: adapter/stdio/stdio_api.cc.
--   Vol: adapter/vol/vol-old/H5VLDTIO.cc, the first connector for HDF5, a draft that stores groups as
--   objects with maps and that the build leaves out. Vol.Words: its macros for 64-bit words (Vol.Bits
--   has the arithmetic of masks). Vol.Oids: identifiers of objects and chunks. Vol.Store: the calls of
--   the object store, an interface with laws. Vol.Links: links as values in the map of a group.
--   Vol.Groups: the structs with their reference counts; Vol.Groups.Paths: following links and paths.
--   Vol.Files: creating groups and files, flushing, closing and opening. Vol.Broadcast: what the
--   processes of a collective open exchange. Vol.IoOps: the operations made from selections.
--   Vol.Chunks: the chunks that a selection touches. Vol.Conversion: whether a conversion of types
--   needs a background buffer. Vol.Datasets: creating, opening, sending and closing datasets.
--   Vol.Specific: flushing a file and asking whether it is accessible.
--   Vol.Transfer: writing datasets, with Vol.Requests for the arguments and Vol.Buffers for what operations
--   move.
--   Examples: a kernel and a runtime in memory, which satisfy the laws, and the theorems at concrete
--   inputs.
--
-- `size_t` values are native numbers with `% 2 ^ 64` where the code adds; `off_t`, `ssize_t` and `int`
-- are integers with the conversions written out. Three functions of Vol run on fuel, the others are
-- structural: the merge of two selections, where the number of their sequences is enough; the search
-- for the chunks of a selection, where the number of chunks in its bounding box is enough; and
-- following links, where the fuel is the depth of the stack and one call is enough. Writing a dataset
-- passes its fuel on to the first two. The theorems on file transfers hold for ends below 2 ^ 63,
-- where `off_t` ends.
--
-- Not modelled: what is written around the fields of a task by Chimaera, lanes beyond their choice,
-- the constructor of ConfigurationManager, `Create` and `Destroy` of the client, the table of symbols
-- of PosixApi, the HDF5 connector adapter/vol/H5VLDTIO.cc, whose callbacks are empty; in the first
-- connector reading datasets, which the code marks as unfinished and which compares arrays with the
-- identifier of a dataspace, copying and comparing its info, and what HDF5 and MPI do; the Python
-- bindings, the benchmarks and the tests. Two tasks that run at the same time are not modelled: a call
-- of the application waits for its own task.
pub mod Prelude
pub mod Exec
pub mod Metadata
pub mod Config
pub mod Libc
pub mod Tasks
pub mod Server
pub mod Dispatch
pub mod Chimaera
pub mod Client
pub mod Posix
pub mod Stdio
pub mod Loader
pub mod Vol
pub mod Examples
