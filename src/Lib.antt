-- ===== src/Lib.antt =====
-- service.lua: the C core of a library that runs Lua services, each on a thread of its own with a loop of
-- libuv, which exchange messages through mailboxes.
--
-- The parts, and the files that model them:
--
--   src/message.h, src/message.c     Message: the message, its types, `message_dispose`.
--   src/mailbox.h, src/mailbox.c     Mailbox: the circular buffer that doubles when it fills, one function
--                                    for each function of the code. Mailbox/Slots and Mailbox/Refine read
--                                    the buffer as a list, Mailbox/Inv has the invariant, Mailbox/Locked
--                                    and Mailbox/Push what a push does while other threads use the mailbox,
--                                    Mailbox/Threads any number of threads at once, with Mailbox/Fair,
--                                    Mailbox/Delete what goes with a mailbox, Mailbox/Spinlock its lock.
--   src/lua-seri.c                   Seri: Seri/Block is the chain of output blocks, Seri/Scalar the
--                                    writers of single values, Seri/Refs the references to tables that
--                                    have been packed, Seri/Pack the packer; Seri/Stream the reader's
--                                    numbers and bytes, Seri/Unpack its values and tables. Seri/Value
--                                    stands for the Lua values, Seri/Result for `luaL_error`. Seri/Bytes
--                                    has the machine's byte order, little endian. Seri/Encode,
--                                    Seri/Decode, Seri/Integer and Seri/RoundTrip relate the two sides,
--                                    Seri/Total is about any stream. Seri/Tree is about
--                                    tables in tables: their stream and their copies, what the packer knows
--                                    of a table that it has not met (Seri/Tree/Unmet, Seri/Tree/Marked),
--                                    the packer (Seri/Tree/Pack), the reader (Seri/Tree/Read), and both.
--   src/service.h, src/service.c     Service: Service/Types has the structs, Service/Pool the pool (register,
--                                    find, pin, retire), Service/Life the locked parts of starting,
--                                    running, stopping, joining and freeing, Service/Life/Reach their
--                                    interleavings, Service/Send sending and receiving,
--                                    Service/Send/Delivery what a send does, Service/Send/Total that it
--                                    returns. Service/Drain is the shutdown: what becomes of the messages
--                                    that were never handled. Service/Init sets up the Lua state of a
--                                    service and closes luv's handles (Service/Init/Handles).
--                                    Service/Dispatch is the callback that runs the Lua handler, with the
--                                    loop of lua/service.lua that takes the messages; Service/Dispatch/Run
--                                    repeats it as libuv does, Service/Dispatch/Wake is about wake-ups.
--                                    Service/Start is `service_start` with the first half of the thread,
--                                    Service/Thread is the end of a service's thread, Service/Delete the
--                                    join of a service and the deletion of a pool.
--   src/loadluv.c                    Luv: the search for luv's library, and its loading, once.
--   src/lservice.c                   Binding: the functions that Lua calls. Binding/Api stands for Lua's C
--                                    interface, Binding/Message has messages, Binding/Service services,
--                                    Binding/Log the log, Binding/Seri the entry points of src/lua-seri.c,
--                                    Binding/Open the module that Lua loads.
--   src/log.h, src/log.c             Log: levels, formats, and the line of a record, as a list of bytes.
--                                    Log/Emit is about the line, Log/Names about the names,
--                                    Log/Journal about the journal's prefixes,
--                                    Log/Write about `write_all`, Log/Init the environment.
--
-- `service_send` pins the service that a message is for (Service/Pool), pushes into its mailbox (Mailbox),
-- and wakes its loop; the thread of the service pops (`service_recv`). The payload of a message is a buffer
-- of `seri_pack`. Base passes on the names of the libraries and has the Boolean tests, the lists and the
-- integers over the native numbers.
--
-- How the code is rendered. A struct is a record, and a function that changes one returns the new one. A
-- function that holds a lock for its whole body is one function here; one that lets the lock go is cut
-- there. `mailbox_try_push` takes an `Env`: what the other threads made of the mailbox each time that the
-- lock was free, and what malloc answered; in Mailbox/Threads the same stretches are the steps of any number
-- of threads. The parts of the life cycle are the steps of a relation, one for each locked section of each
-- thread, and one for each call behind a lock. What the other threads make of a service during a send is an
-- `Around`. A size_t wraps where the code lets it (`% size_mod`); bytes of a word
-- are written out. Addresses are numbers, 0 for NULL. Errors of Lua are values of
-- `SeriError`, and a read outside the buffer is `outside`, of which nothing more is said.
--
-- Fuel. `mailbox_try_push` has fuel 64, and the loop of `mailbox_try_pop` too: a capacity and a threshold
-- that double more often pass what a size_t holds. `wb_push` has one round for each byte and one more.
-- `pack_one` and `unpack_one` take fuel as an argument, for the depth of nesting: the number of values in
-- the message is enough for tables that do not share a part. It stands for the nesting that
-- `luaL_checkstack` grants as well: that Lua has no room on its stack is not modelled. The unpacker takes one round for each byte of
-- the stream and one more. A drain takes one round for each message that waits and one more, the search for
-- luv one for each byte of the cpath. The loop that closes the loop of libuv takes fuel as an argument: one
-- more than the rounds that luv's handles need.
--
-- What comes from outside is a parameter: malloc and calloc, pthread, `uv_async_send` and the other calls of
-- libuv give their answers as arguments; the Lua heap is a function from addresses to tables; the double
-- that an integer of the stream becomes is a function; `vsnprintf`, `strftime` and `snprintf` give
-- bytes.
--
-- Not modelled: `seri_unpackstr`, which nothing calls, what Lua code does, and the modules in Lua but for the
-- loop that takes messages. `service_thread_main` is there in two halves, around the call of `uv_run`. The
-- atomic operations of the spinlock take place one after the other: the model has no weaker memory order.
-- Streams of 2 GiB and more, where an int overflows, are outside.
pub mod Base
pub mod Message
pub mod Mailbox
pub mod Seri
pub mod Service
pub mod Luv
pub mod Binding
pub mod Log
