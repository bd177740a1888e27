-- ===== src/Lib.antt =====
-- TPBench runs benchmark kernels and keeps what they measured in a workspace of binary files. This
-- library is about the storage of these results (src/corelib/rafdb), the values that are stored
-- (src/corelib/strftime.c, src/corelib/tpb-tag-norm.c), the export of tables (src/tpbcli/task), and the
-- command line: the tree of its arguments (src/tpbcli/argp) and the sequences of values that a run
-- goes through (src/tpbcli/run).
--
-- How the parts interact: a command line is parsed by a tree of arguments with handlers; one of them
-- parses the sequences of values of an argument, and a run is made for each combination of them. A run
-- makes a task record, a `.tpbr` file that is named by an identifier, and
-- a row in the table of its domain, a `.tpbe` file; the domains are tasks, batches of tasks, kernels and
-- runtime environments. A record is changed in place when a task joins its capsule or its batch, when
-- counters grow, and when another build of a kernel becomes the active one. Both kinds of file begin
-- and end with a signature.
-- The identifier is a SHA-1 digest, shown as hexadecimal text; a record has headers, each with a name,
-- normalized tags and the dimensions of its data; dates are stored in a 64-bit form. The export reads
-- records and writes delimited rows.
--
-- Where each part is modelled:
--   Raf/File.antt, Raf/File/Laws.antt: an open stdio file (the bytes before and behind the position and
--     the room on the device), fread, fwrite, fseek, and a reader and writer of known bytes; also the
--     number functions of src/corelib/rafdb/rafdb-l1-record-io.c. Raf/File/Seek.antt and
--     Raf/File/Segments.antt: moves, reads and writes in a file that is a list of segments.
--   Raf/Magic.antt: src/corelib/rafdb/rafdb-l1-magic.c (build_magic, validate_magic, detect_file).
--   Raf/Entry.antt: src/corelib/rafdb/rafdb-l1-entry.c (entry_append, entry_list).
--   Raf/Record.antt: src/corelib/rafdb/rafdb-l1-record-io.c (write_headers, read_headers,
--     write_magic_and_data, hdr_serialized_len_at, find_header_by_name, header_data_ptr).
--   Raf/Task.antt: src/corelib/rafdb/rafdb-l2-task.c (record_write_task, record_create_task_capsule,
--     record_read_task).
--   Raf/Record/Payload.antt: what the record files of all domains share, in src/corelib/rafdb/
--     rafdb-l2-task.c and the other rafdb-l2 files; Raf/Record/Patch.antt: how a file is opened and
--     closed for a change in place.
--   Raf/Capsule.antt: src/corelib/rafdb/rafdb-l3-task-taglink.c (record_append_task_capsule).
--   Raf/Tbatch.antt, Raf/Tbatch/Counters.antt: src/corelib/rafdb/rafdb-l2-tbatch.c
--     (record_write_tbatch, record_read_tbatch, record_patch_tbatch_counters).
--   Raf/Tbatch/Link.antt: src/corelib/rafdb/rafdb-l3-tbatch-taglink.c (record_append_tbatch).
--   Raf/Kernel.antt, Raf/Kernel/Entry.antt: src/corelib/rafdb/rafdb-l2-kernel.c (record_write_kernel,
--     record_read_kernel, entry_list_kernel) and src/corelib/rafdb/rafdb-l3-kernel-patch.c
--     (entry_patch_kernel_active, entry_patch_kernel_utc, record_patch_kernel_active,
--     kernel_deactivate_same_name).
--   Raf/Kernel/Meta.antt: src/corelib/rafdb/rafdb-l3-kernel-kvmeta.c (meta_kv_get, meta_kv_set) and
--     src/corelib/rafdb/rafdb-l3-kernel-patch.c (split_meta_key, kernel_update_meta_key).
--   Raf/Rtenv.antt, Raf/Rtenv/Entry.antt: src/corelib/rafdb/rafdb-l2-runtime-environment.c
--     (record_write_rtenv, record_read_rtenv, entry_append_rtenv, entry_list_rtenv,
--     rtenv_alloc_next_id).
--   Raf/Rtenv/Counter.antt: src/corelib/rafdb/rafdb-l3-runtime-environment-counter.c
--     (record_patch_rtenv_counters).
--   Raf/Id.antt: src/corelib/rafdb/rafdb-l2-task.c (gen_task_id, gen_taskcapsule_id) and
--     src/corelib/rafdb/rafdb-l2-tbatch.c (gen_tbatch_id).
--   Sha1.antt: src/corelib/rafdb/rafdb-l1-sha1.c (init, update, final, hash_file).
--   IdHex.antt: src/corelib/rafdb/rafdb-l1-id-util.c (id_to_hex, hex_to_id).
--   Tags.antt: src/corelib/tpb-tag-norm.c (normalize_tags, validate_header_name, validate_user_tags,
--     finalize_role_tags, format_tags_display).
--   Datetime.antt: src/corelib/strftime.c (datetime_to_bits, bits_to_datetime, btime_to_datetime).
--   Argp.antt, Argp/Check.antt, Argp/Parse.antt: src/tpbcli/argp/tpbcli-argp.c (add_arg, find_arg;
--     parse_args and what it calls).
--   Dim.antt, Dim/Expand.antt: src/tpbcli/run/tpbcli-run-dim.c (parse_dim, parse_list, parse_dim_recur,
--     generate_values) and src/tpbcli/run/tpbcli-run.c (expand_cartesian_kargs).
--   Dim/Expand/One.antt: src/tpbcli/run/tpbcli-run.c (parse_kargs_dim, flush_pending_dims,
--     expand_dim_handles, expand_env_dim_handles).
--   Csv.antt: src/tpbcli/task/tpbcli-task-csv.c (row_begin, cell, cell_byte, row_end).
--   Prelude.antt: what the others share: tests, lists over native numbers, little-endian words, bits.
--
-- State and operations: a C function on a FILE is a function from the state of the file to an outcome,
-- which is a result and the new state, a jump to the label `fail`, or behaviour that C leaves undefined.
-- What the system reports (whether a file opens, a lock is given, a device has room) is an argument. A
-- struct is a record, an array or block of memory a list, a byte a number below 256.
--
-- Bounds and fuel: the loop over the blocks of a SHA-1 message has the length of the message as fuel,
-- and takes 64 bytes a round; the reading of a file has one more than its length, and takes a byte a
-- round at least. A number of 64 bits is printed with fuel for twenty digits, which are enough. The search
-- for the row of a runtime environment has the length of the table as fuel, and takes 1828 bytes a
-- round. The values of a sequence are generated with the room for them as fuel. All other loops are
-- recursions on a count or a list. Sums of 32 and 64 bits wrap where the code's do; a count of rows is
-- cast to a signed 32-bit number.
--
-- Not modelled: NULL arguments, which each function rejects first; paths and the creation of
-- directories; what is freed; other processes, which the lock on a file keeps away; the derivation of
-- runtime environments; the text of help and messages; floating-point arithmetic, whose operations are
-- parameters; of the run command, wrappers, timers and output settings; the arguments of kernels, the
-- driver, whose functions for handles are a parameter of the expansion, and the kernels.
pub mod Prelude
pub mod Argp
pub mod Csv
pub mod IdHex
pub mod Datetime
pub mod Dim
pub mod Raf
pub mod Sha1
pub mod Tags
