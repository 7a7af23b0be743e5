-- ===== src/Lib.antt =====
-- The newperf engine of fio: a user-space NVMe driver, as a model of its C code.
--
-- newperf.c gives fio the callbacks of an engine. tools/nvme.c drives the controller for it: it maps
-- BAR0 (tools/lib/ctrl_access.c), allocates DMA memory through a character device
-- (tools/lib/driver/api/dma.c), brings the controller up over its registers, creates a queue pair
-- for each thread with commands on the admin queue, and then submits reads, writes and trims and
-- polls for their completions.
--
-- The machine. A function of the user-space code is a function from a `State`, which holds the
-- controller's data (`struct controller_data`), a thread's data (`struct nvme_data`) and a log of what
-- the host did: stores, register accesses, volatile reads, system calls. A `Platform` answers every read and
-- call from the log so far, and so stands for any device and kernel: nothing is assumed of it but
-- where a theorem says so. The contents of memory that the host wrote are read off the log
-- (`Machine.Memory.load`). A pointer is its address and a w-bit integer a natural number, its
-- wrap-around written out. A function that returns `false` is a `Call` that gives `none`.
--
--   Prelude     names of the libraries, tests, lists, machine words, bits
--   Machine     events, logs and platforms; memory, structures and volatile reads over them
--   Nvme        the structures of tools/nvme.h and tools/lib/driver/common.h
--   Call        functions that may fail, their contracts and runs
--   Regs        tools/lib/ctrl_access.c from line 96, CAP and the doorbells of tools/nvme.c
--   Dma         tools/lib/driver/api/dma.c, with the search of /dev, and the allocation functions of
--               tools/nvme.c
--   Init        tools/lib/ctrl_access.c up to line 94, and wait_ready, controller_init,
--               controller_deinit of tools/nvme.c
--   Admin       submit_admin_command, submit_identify_namespace, wait_admin_completion
--   QueuePair   create_io_queue_pair, delete_io_queue_pair
--   Identify    nvme_get_file_size
--   Control     the control functions in any order
--   Prp         setup_prps
--   Submit      submit_rw_command, nvme_read, nvme_write, nvme_trim, nvme_multi_range_trim
--   Poll        poll_cq, and several calls of it in a row (Poll.Collect)
--   Engine      nvme_queue, nvme_getevents, nvme_event of newperf.c, a thread that calls them in any
--               order (Engine.Flight), and trims of one range (Engine.Trim)
--   Target      parse_target of tools/nvme.c
--   Jobs        nvme_setup, nvme_init, nvme_cleanup, nvme_size, nvme_alloc, nvme_free, nvme_open_file
--               and nvme_close_file of newperf.c
--   Driver      the kernel module, tools/lib/driver/driver.c; its file operations are Driver.File,
--               sequences of the kernel's calls are Driver.Calls,
--               and Driver.Race has two threads that allocate from one device at once
--   Pci         tools/lib/pci_access.c
--   Sample      a thread and a controller with concrete values, for the tests
--
-- Bounds and fuel. The loop of poll_cq runs over the rounds that `max_count` leaves, those of
-- wait_ready and wait_admin_completion over the milliseconds that the timeout leaves, that of
-- setup_prps over the pages that remain, each of which the source counts too, so that none needs
-- fuel of its own. The loops of tools/lib/pci_access.c run over the kernel's answers, of which one
-- for each byte and each interruption is enough. nvme_getevents runs until enough completions have
-- come or its clock runs out, and is given a bound on its rounds, whose exhaustion is a result of its
-- own; one round more than the clock needs is enough.
--
-- The controller. What it does with the completion queue is a hypothesis: entry k of all that it posts
-- stands in slot k modulo the depth with the phase of its lap (Poll.Protocol.Posts). A thread at work
-- (Engine.Flight) is a sequence of requests and waits with what was queued and what came back beside
-- its state; that the controller answers only commands under way, each once, is asked for each wait.
--
-- The threads of the engine share a controller under a mutex: a callback of `Jobs` is a step on the
-- shared variables and the data of the attached threads, and uses the functions of tools/nvme.c as
-- they are. There `none` is a use of the controller after it was freed.
--
-- The kernel module has a state of its own: the entries, devices and lists at their addresses, the
-- mapped areas and the coherent buffers. A function of it is a `Run`, where `none` is an access to
-- memory that is not allocated; what the kernel hands out is an argument. What probe and load
-- acquire is a second state, where `none` is giving back what is not held.
--
-- Not modelled: printing, errno and clocks; in the kernel module pci_set_master and the reference to
-- the struct device that each entry holds, which the kernel counts; fio's td_io_get_file_size and the
-- C library's strtoul, which are parameters; the test programs.
pub mod Prelude
pub mod Machine
pub mod Nvme
pub mod Call
pub mod Regs
pub mod Dma
pub mod Init
pub mod Admin
pub mod QueuePair
pub mod Identify
pub mod Control
pub mod Prp
pub mod Submit
pub mod Poll
pub mod Engine
pub mod Driver
pub mod Pci
pub mod Target
pub mod Jobs
pub mod Sample
