-- ===== src/Lib.antt =====
-- Verification of zcrt, a small C runtime (byte buffers, events, scheduling, timers) with an IPC
-- server on top.
--
-- The parts and the files that model them:
--   * zcrtlib/zbuf.c (`ZBuf`): a growing byte buffer with a read position. Buf.antt; each function
--     `zcrt_buf_x` is `buf_x`, with the buffer passed and returned.
--   * zipc/zipc_tlv.c: the tagged wire format, put into and got out of a `ZBuf`. Tlv.antt and below:
--     Zigzag (signed numbers), Len and Len64 (variable-length numbers), Value (typed values), Arrays.
--     Each function `ztlv_x` is `x`; `zcdr_ReadLEN64` and `zcdr_WriteLEN64` are `read_len64` and
--     `write_len64`.
--   * zcrtlib/zevent.c (`_zstEvent`): subscriptions to numbered events. Event.antt; `zcrt_event_x` is
--     `event_x`.
--   * zcrtlib/zhash.c (`ZHash`): a table of chains over the caller's key and comparison functions.
--     Hash.antt; `zcrt_hash_x` is `hash_x`.
--   * zcrtlib/zschedule.c (`_zstSchThr`): a scheduler thread, its three queues with their tail
--     pointers, and the schedules that send jobs to it. Schedule.antt; `zcrt_schedule_x` and
--     `_zcrt_s_x` are `x` or `schedule_x`, and one round of `_zcrt_schedule_thread_proc` is
--     `thread_step`. Schedule/Life.antt has the threads and schedules themselves, with their
--     reference counts.
--   * zcrtlib/ztimer.c (`_zstTimer`): jobs that are called after a time, in containers. Timer.antt;
--     one pass of the inner loop of `_zcrt_timer_proc` is `tick`, and the other functions are
--     `timer_x` and `timercon_x`.
--   * zcrtlib/zarraylist.c: an array of elements that grows by steps. ArrayList.antt; `zarray_x` is
--     `array_x`.
--   * zcrtlib/zstr.c: comparing and copying counted strings. Text.antt; `zstr_x` is `str_x`.
--   * zipc/zipc_parse.c and zipc/zipc_server.c: the messages of the IPC server. Ipc.antt and below:
--     Comp (components and their tables), Header (the headers and the pieces of replies), Request
--     (a request is read and answered), Link (hooking events), EventOut (telling a client of an
--     event), Pool (the server's free buffers). `zipc_component_x` is `component_x`, `zipc_server_x`
--     is `server_x`, and `zipc_parse_x` is `parse_x`, or `x` for the pieces that are put.
--   * zipc/zipc_server_os.c: the threads and jobs of the server. Ipc/Server.antt; `_zipc_x` is `x`,
--     and one round of `_zipc_client_thread` is `client_round`.
--   * zipc/zipc_server_kernal.c: the same in the kernel, over netlink. Ipc/Kernel.antt; `_zipc_x` is
--     `x`.
--   * zcrtlib/zcrt_mem_kernal.c: the list of the blocks of memory in the kernel. KernelMem.antt, with
--     the names of the source.
--   * zcrtlib/zcrt_os_kernal.c: the recursive mutex, as the steps of threads that interleave.
--     KernelMutex.antt; `zcrt_mutex_x` is `mutex_x`. The counters of the three systems: Os.antt.
--   * zcrt/zerrcode.h: the result codes, Err.antt.
-- The wire format calls the buffer's append, get, getstr and realloc; the buffer calls `zcrt_malloc`
-- and `zcrt_realloc` of zcrtlib/zcrt_os_linux.c, which stand on libc. Which requests libc grants,
-- and what memory it adds holds, is the instance argument `Allocator`. A message comes through
-- recv, waits as a job of the scheduler, is read by the wire format, and finds its component in a
-- hash table; the reply is put into a buffer of the pool, waits as a job, and is sent. A LINK message
-- subscribes its client to an event, and the subscription puts a message into a buffer in turn. The
-- handlers of components, the functions for an element of an array, the encoder of events, and what
-- recv, malloc and the scheduler answer are arguments.
--
-- `Run` is Option: `none` is a crash, that is an access outside a block, a NULL pointer that is
-- followed, or outside the kernel a failed ZCRT_ASSERT. Numbers are native numbers below 2 ^ 32 or
-- 2 ^ 64, with the wrap-around written out where the code can reach it; a signed number is its bit
-- pattern.
-- Pointers into a block are indices. A function under a mutex is one step.
--
-- A job node of the scheduler is named by its address, so that the model shows what `tail` points to.
--
-- Fuel: the doubling loop of `zcrt_buf_realloc` has 33 rounds, which leave every power of 2 below
-- 2 ^ 32. The inner loop of the scheduler thread and a pass of the timer have as much as they are
-- given, and more rounds than there are jobs are enough. The search for a timer container has 1001
-- rounds, which are enough where it ends at all. All other loops are structural.
--
-- Not modelled: opening and accepting sockets, threads and logging, which are calls of the operating
-- system; the Windows port, save that its counters count as the kernel's do; freeing memory, but for
-- the kernel's list of blocks.
pub mod Base
pub mod Err
pub mod Buf
pub mod Tlv
pub mod Event
pub mod Hash
pub mod Schedule
pub mod Timer
pub mod ArrayList
pub mod Ipc
pub mod KernelMem
pub mod KernelMutex
pub mod Os
pub mod Text
