-- ===== src/Lib.antt =====
-- A model of the C runtime of the XIOM standard library, with theorems about it.
--
-- The runtime is the C that every XIOM program links: runtime/xiom_runtime.c and
-- runtime/xiom_hot_reload.c. Its parts keep their own state and meet in the compiled program, which
-- calls them: strings are read by byte position, allocations inside confined blocks go to the guard
-- heap of the thread, threads hand values on through channels and jobs through pools, functions are
-- reached through the hot-reload table, and wide integers and the elliptic curves go through limb
-- arithmetic.
--
-- Text models the string primitives of runtime/xiom_runtime.c: xiom_byte_at, xiom_char_at, xiom_str_len,
-- xiom_str_concat, xiom_str_slice, xiom_str_starts_with, xiom_str_ends_with and xiom_int_to_string. A
-- `char*` is a list of bytes before the NUL, or NULL; a read outside the string and its NUL has no
-- result.
--
-- Hot models the function table of runtime/xiom_hot_reload.c, passed through each call: register, set_ptr,
-- enter, leave and the queries. Hot/Saved is the state file of the same source: save_state and
-- restore_state, their legacy forms and the contract check; the file is a list of bytes.
--
-- Guard models the guard heap of runtime/xiom_runtime.c. Guard/Memory is the memory, a byte at each
-- address, with 64-bit loads and stores; Guard/Arena the state and the slabs; Guard/Lists the free
-- lists; Guard/Calls xiom_guard_alloc, xiom_guard_free, xiom_guard_realloc and
-- xiom_guard_copy_out_if_arena. What mmap, malloc and realloc return is a parameter by the number of the
-- call, and Guard/Place states what POSIX says of mmap. The scan of the list of large blocks runs on
-- fuel: one more than the number of 16-byte units of the slabs, of which a list of distinct blocks
-- cannot have more. Signed overflow has no result.
--
-- Field models the 256-bit arithmetic below the curves: xiom_addc2, xiom_subb2, the xiom_f256 comparison,
-- sum, difference, negation, product and reduction, and Field/Inverse secp256k1_inv and ed25519_inv. The
-- loop that takes factors of 2 out runs on fuel 256, the bits of a number, with no result if that is not enough, and the outer loop of an inverse
-- on fuel 2 ^ 257, above the sum of its two numbers, which falls at each turn.
--
-- Curve models xiom_secp256k1_point_valid, xiom_secp256k1_point_add, xiom_secp256k1_point_mul and
-- xiom_secp256k1_base_mul. Whether the result of an addition is written over its first point is an argument,
-- since the multiplication does so. A result is absent only where a reduction runs out of its fuel.
--
-- Edwards models Ed25519: its points in extended coordinates, Edwards/Order the arithmetic modulo the order
-- of the base point and its bytes, and Edwards/Signing xiom_ed25519_pubkey, xiom_ed25519_sign and
-- xiom_ed25519_verify. The last subtractions modulo the order run on fuel 16, since 16 times the order is above
-- 2 ^ 256. Whether each malloc gives memory is an argument.
--
-- Digest models sha512_transform, sha512_core, xiom_sha512_hash and xiom_sha384_hash. The loop over the whole
-- blocks runs on the length of the message as fuel.
--
-- Queue models the ring buffer that the channels and the pools share in form. Queue/Channel is
-- xiom_channel_send, xiom_channel_recv and xiom_channel_try_recv; Queue/Pool the xiom_workerpool calls
-- and the two critical sections of a worker; Queue/Crew the return of the workers, the joins of
-- xiom_workerpool_shutdown and xiom_workerpool_destroy; Queue/Threads the xiom_threadpool calls. Each critical section is one step, so that a run of
-- several threads is a list of steps in the order in which they took the mutex, and a step that waits
-- on a condition variable has no result; the wake-ups are not modelled. A spawn of Queue/Threads, which hands its
-- lock on from worker to worker, is one step too.
--
-- Wide models __udivti3, __umodti3, __divti3, __modti3 and __multi3. The loop runs over the 128 bits.
--
-- Loops models the event loops of Windows: xiom_eventloop_create, xiom_eventloop_ctl, xiom_eventloop_wait and
-- xiom_eventloop_close, with WSAPoll as a parameter. Process models the handles that Windows keeps of spawned
-- processes, xiom_process_wait, xiom_process_wait_status, xiom_process_kill and xiom_process_running, with
-- what the system answers as arguments, and Process/Quoting is xiom_win_quote_arg. Base/Keyed is the
-- table of both, from which an entry is removed by moving the last one to its place.
--
-- Vectored models xiom_fd_writev of Windows. WSASend and _write are parameters by the number of the call;
-- the loop over a socket runs on fuel one more than the bytes to send, and the one over a segment on one
-- more than its length, since each turn sends a byte at least.
--
-- Spawn models the table of spawned threads: xiom_thread_spawn, xiom_thread_spawn_with_result,
-- xiom_thread_spawn_with_arg, xiom_thread_spawn_join and xiom_thread_spawn_detach, each with the system's
-- thread as a parameter.
--
-- Fault models the fault record and the POSIX trampoline: xiom_fault_note, xiom_fault_take, the exit
-- handler, xiom_trampoline_call and the entry and exit of xiom_trap. A block is what it does at each
-- attempt; a fault of another signal than SIGSEGV, SIGILL and SIGFPE, or with no stack left, reaches no handler, and
-- the trap's handler jumps to a trap that is active. The loop of the trampoline runs on fuel 2, since it retries at most once.
--
-- Scan models the portable forms of xiom_popcnt64, xiom_clz64 and xiom_ctz64, Intern the table of
-- xiom_intern and xiom_lookup, and Arrays xiom_is_sorted, xiom_contains, xiom_all and xiom_none. Functions is
-- the table of xiom_fn_table_add and its queries.
--
-- Quad models the portable C of runtime/fp128_helpers.c on bit patterns: Quad/Arith is xiom_f128_addsub,
-- xiom_f128_mul_impl and xiom_f128_div_impl, Quad/Convert the conversions and Quad/Compare the comparisons.
-- The loop that moves a top bit up runs on fuel 128, the width, and the one that counts bits on fuel 64.
--
-- Cipher models the portable AES-128: xiom_sw_aes_init_tables with its three static variables,
-- xiom_asm_aes128_key_expand, xiom_asm_aes128_encrypt_block and xiom_asm_aes128_decrypt_block, and the
-- comparison xiom_asm_constant_time_compare. The power in the field runs on fuel 31, the bits of an int.
--
-- Base holds what the modules share: numbers, Booleans, lists, signed integers, words and bits.
--
-- Machine integers are natural numbers with their wrap-around written out; a `long` that can be negative
-- is an integer.
--
-- Not modelled: calls of the operating system (sockets, files, the spawning of processes, the events and the
-- vectored write of POSIX, which hand their arguments on), the assembly, the third-party hash, the
-- floating-point lanes, and the emission of IR text.
pub mod Base
pub mod Text
pub mod Hot
pub mod Guard
pub mod Field
pub mod Queue
pub mod Wide
pub mod Spawn
pub mod Fault
pub mod Scan
pub mod Intern
pub mod Arrays
pub mod Functions
pub mod Quad
pub mod Cipher
pub mod Digest
pub mod Curve
pub mod Edwards
pub mod Loops
pub mod Process
pub mod Vectored
