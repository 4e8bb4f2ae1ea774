-- ===== src/Lib.antt =====
-- The library libvhost: a vhost-user server for virtio devices.
--
-- A device (vdev.c) gets the guest's memory as slots, which it maps into its process, and
-- virtqueues in that memory. A virtqueue is polled for requests: each is a chain of descriptors
-- with guest addresses, which are translated and handed to the device type as buffers; the device
-- type gives the request back through the used ring. The backend takes the requests from a request
-- queue (server.c), and completes them from any thread; the loop of the queue then gives them
-- back. The record of the requests in flight lets another process go on after a crash, and the
-- dirty log tells a migration which pages were written. Bottom halves carry work from a thread to
-- an event loop (event.c).
--
-- Which file models what:
--   Prelude, Errno: lists and tests over the native numbers, machine words, error codes.
--   MemMap (memmap.c, objref.h): Region has the regions and the three translations (uva_to_ptr,
--     ptr_to_gpa, gpa_range_to_ptr); Os has map_memory and unmap_memory over mmap and munmap, which are
--     parameters, and a trace of the calls; Slots has the map with its reference count and the
--     operations vhd_memmap_add_slot and vhd_memmap_del_slot. Translate, Mapping, Layout and RoundTrip
--     are about them.
--   MemLog (memlog.c): Log has the log as words of bits and the two marking functions; Marks is about
--     them.
--   Virtq (virtio/virt_queue.c and its header): State has the structures; Chain has add_buffer,
--     map_buffer, walk_indirect_table and walk_chain; Inflight the updates of the inflight region and
--     virtio_virtq_init; Push has virtq_push and the notification; Dequeue has virtq_dequeue_one,
--     virtq_inflight_resubmit and virtq_dequeue_many over any device type. Walk, Chains, Safety,
--     Publish, Writes, Recovery, Advance, Handed, Batch and Many are about them.
--   ConfigSpace (blockdev.c, fs.c): a configuration as bytes, and the copy of a part of it.
--   Event (event.c): Bh has the bottom halves of a loop, with bh_enqueue, vhd_bh_cancel and bh_poll as
--     steps of the loop and of the threads in any order. Pending and Called are about them.
--     Handlers has the io handlers and a turn of the loop over its ready list, and Ready is about them.
--     Notify has the notification of a loop as steps of the loop and of the threads, and Awake is about
--     it. Run has vhd_run_event_loop and the end of a loop as the thread of the loop sees them.
--   Blk (virtio/virtio_blk.c and its headers): Device has the device, its configuration
--     (virtio_blk_init_dev), the requests of the backend and the memory; Request has the handling of a
--     request, from handle_buffers to complete_req and complete_io; Dispatch puts it behind the queue
--     (virtio_blk_dispatch_requests). Register has the registration, the features and the configuration
--     space (blockdev.c). Capacity, Once, Geometry and Space are about them.
--   Fs (virtio/virtio_fs.c and its headers, fs.c): Device has the device and its configuration
--     (virtio_fs_init_dev, vfs_get_config), and the requests of the backend; Request has the handling of
--     a request, from handle_buffers to complete_request, and virtio_fs_dispatch_requests. Framing,
--     Once, Dispatch and Space are about them.
--   Rq (server.c, with the counters of vdev.c): Queue has the request queue and its operations, from
--     vhd_enqueue_block_request to rq_complete_bh, vhd_complete_bio and vhd_cancel_queued_requests, and
--     the part of vring_stop_bh on it; System has the steps of the loop of the queue and of the threads
--     that complete, in any order. Complete, Cancel, Stop, Drops, Invariant and Progress are about them.
--   Vdev (vdev.c): the life of the vrings, with the counters of the device. Features has vhost_set_protocol_features, vhost_set_features, vhost_set_vring_num
--     and vhost_set_vring_base, with the features as a function from bit to bit; Negotiation is about
--     them. Life has the functions that start, stop and drain the vrings and that end a connection and
--     a device, from vring_start_bh to vdev_stop, where a failed assertion is `none`; Running has them
--     as steps, with the bottom halves of the control loop and of the loop of the request queue in any
--     order. Settle, Counts, Handlers, Lifecycle, Moves, Invariant, Safe and Stuck are
--     about them.
--
--   Msg (vdev.c, vhost_spec.h): the control plane of a connection. Net has net_recv_msg and
--     net_send_msg; State the device with its vrings and the traces of what it did; Reply the start and
--     the end of a message and its reply; Features, Rings, Memory and Inflight have the handlers of the
--     messages, and Dispatch their table; Close has vdev_disconnect and vdev_cleanup, Read has conn_read,
--     and Bottom the functions that the vrings end a message by, and server_read. Settles, Outcome, Runs
--     and Returns follow a message to its end; Held, Balance, Descriptors, Sockets, Paired and Leaks
--     follow the descriptors; Stranded and Regions are about two
--     errors.
--   Server (server.c, vdev.c, fs.c): Thread has the start, the thread and the stop of the vhost server;
--     Devices has vhd_register_fs and vhd_unregister_fs with vhd_vdev_init_server, the works of a device
--     and its listening socket. Stops and Registered are about them.
--
-- Addresses, lengths and indexes are native numbers with the wrap-around of their C type written out;
-- a pointer of this process is its number. A file descriptor of -1 and a null pointer are `none`.
-- A function of memmap.c returns the calls that it made, in order, with its result.
--
-- Fuel: the walks of descriptors get one more than the buffers that a chain may have, since each step
-- fills one; the loops of the dirty log get one more than the pages up to the last one, and one more
-- than the bits of a word. Running out is a result of its own, `none`. The loop of virtq_dequeue_many
-- that waits for the available index to settle takes the values it reads as a list.
--
-- Not modelled: the order of memory accesses between processors, of which only the order of the
-- stores is kept; guest writes during a call; allocation failures; big-endian hosts; logging; the
-- contents of the inflight memory that the messages map, the kick handler and the log of long
-- messages (vdev.c), the calls of vhd_create_event_loop that fail (event.c), the creation and the
-- release of a request queue (server.c), and the removal of a device with a client beyond Vdev.Life.
-- What epoll_wait, pthread_create and the calls on a socket or a semaphore answer is an argument. A
-- device type is a function over its state and the queue, for which a
-- parameter stands in Virtq. The dispatch function of a device is a parameter that says whether
-- the backend takes a request. Whether vhd_vdev_init_server succeeds is an argument of
-- vhd_register_blockdev. The documented loop of TAILQ_FOREACH (sys/queue.h) is written out in Rq.Queue.
-- Whether the assertions of vdev_cleanup on the message, the old maps and the kept descriptor hold is a
-- constant of a device of Vdev.Life, which Msg follows, and whether those of virtio_virtq_init hold on
-- the memory of the client is an argument in Msg. In Vdev.Life the
-- counters are not cut to 16 bits, and a vring that stops with queued requests has others in
-- flight; Rq.Stop is about the other case. The callback of a bottom half is no part of its turn:
-- what it schedules is a later step. In Msg a log is its number, the members of a payload are
-- fields of their own, the server goes on listening, and the memory maps have no other owner: the
-- references of the requests in flight are not counted. Msg keeps the state of the messages and
-- Vdev.Life that of the bottom halves; what a drained vring had scheduled is in Vdev.Life.
pub mod Prelude
pub mod Errno
pub mod MemMap
pub mod MemLog
pub mod Virtq
pub mod ConfigSpace
pub mod Event
pub mod Blk
pub mod Fs
pub mod Rq
pub mod Vdev
pub mod Msg
pub mod Server
