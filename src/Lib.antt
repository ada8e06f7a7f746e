-- ===== src/Lib.antt =====
-- The network video recorder: what its recording engine, its application and its device side do.
--
-- Parts and files
--   Prelude      Boolean tests and machine words, lists and integers over the native numbers, byte
--                stores with little-endian fields (Prelude/Bytes), and C strings (Prelude/Text).
--   Recorder     components/recorder, the raw-disk recorder. Recorder/Types: the on-disk structs of
--                include/rsdk_types.h. Recorder/Util: src/rsdk_util.c. Recorder/Layout: pick_chunk_mib,
--                compute_layout and rsdk_format of src/rsdk_storgedev.c. Recorder/Device: the open disk
--                of the same file (rsdk_dev_open, _flush, _alloc_chunk, _is_wrapped, _meta_alloc).
--                Recorder/Index: src/rsdk_index.c. Recorder/Aes, Recorder/Crypto and Recorder/Keys:
--                the block cipher, rsdk_crypto_xcrypt and the keys of src/rsdk_crypto.c, with the uses
--                of the keys in src/rsdk_storgedev.c. Recorder/Writer: src/rsdk_rec.c.
--                Recorder/Player: src/rsdk_play.c.
--                Recorder/Group: the choice of a disk, the query and the player of
--                src/rsdk_balance.c.
--   App          app/. App/Channel: channel/nvr_channel.c, with the bindings (Bind) and the online state
--                machine (Tick). App/Preview: preview/nvr_preview.c. App/RecordSched:
--                record_sched/nvr_record_sched.c and rsdk_cloud_make_event_id. App/Event:
--                event/nvr_event.c and nop_event_msgtype_code.
--   Nop          components/nop. Nop/Event: src/services/svc_event.c. Nop/Chime:
--                src/services/svc_chime.c. Nop/Capability: src/capability/cap_registry.c. Nop/Map:
--                src/base/nop_map.c. Nop/Json: what src/base/nop_json.c reads. Nop/Router:
--                src/nop/nop_router.c and nop_envelope.c. Nop/Record: src/services/svc_record.c, with its
--                rings in Nop/Ring; Nop/Recorded: what the muxer, the disk and a query see of it.
--                Nop/Patrol: src/services/svc_ptz_patrol.c, with the threads as a step relation.
--   Streaming    components/streaming. Streaming/Nal: src/stream_nal.c. Streaming/Router:
--                src/stream_router.c. Streaming/Manager: src/stream_puller.cpp and src/stream_mgr.cpp.
--   Cloud        components/cloud_uploader. Cloud/TsMux: src/ts_mux.c. Cloud/Uploader:
--                src/uploader.c, an event and a round of the worker.
--   Storage      components/storage: src/storage_mgr.c, the health of src/storage_health.c and the
--                messages of src/storage_hotplug.c.
--
-- How they interact: the stream manager hands frames to a writer, which takes chunks from the device
-- and writes slots to the index; when a chunk is taken again, the index forgets what began in it. A
-- player follows a slot of the index. The streaming router sees the recorder through an interface that
-- the writer of one disk fills. The NOP router asks the capability registry before it runs the handler
-- that its hash table holds. The channel table tells the preview and the recording schedule
-- through its two callbacks which channels are online. A client that nvr_stream_add_channel
-- forgets goes on calling back; Streaming/Manager/Life keeps such channels apart.
--
-- Correspondence: a C struct is a record with the same fields; a function that changes *x returns the
-- new x beside its result; a status code is Err, or a Boolean where the code has 0 and -1 only. A
-- callback, a call of the stream manager or of the video output is an entry of a list, newest first.
-- uint32_t and uint64_t wrap where the code can reach the bound; a C int that may be negative is ℤ.
-- The sizes and offsets of a disk are uint64_t and wrap. Recorder/Layout/Regions takes at most 8192
-- index slots per chunk, where the build's default is 4, so that the sums of the layout do not;
-- Recorder/Layout/Oversized is about a chunk larger than the disk.
-- A raw device is the function from offsets to bytes; the multi-byte fields are little-endian.
-- What the code asks of others (random bytes, the serial number, the clock, the muxer of the HAL, the
-- ONVIF requests, sscanf, the device classes, the video output) is a parameter. The writer and the
-- player take any block function; Recorder/Keys gives the one of a disk.
--
-- Bounds and fuel: play_all, seek_loop and group_play_next take fuel; a segment of n frames needs n
-- + 1, and every call of group_play_next is shown to end with some. The backward scan of the index
-- takes the bound of the source, 8192 slots or all. compute_layout runs its four rounds. The scan
-- of the units takes one more than the bytes there are, the muxer's loop as many as there are
-- bytes; both are shown to be enough. wait_idle takes the rounds of the wait, each with what the
-- other threads do meanwhile. A number below 2 ^ 64 has at most the 20 digits of print_ℕ.
--
-- Not modelled: devices that fail or are cut short, null pointers, memory that runs out,
-- snprintf's truncation except in the path of a segment, the hardware path of the encryption, writers of several disks,
-- SQLite, sockets, the text of JSON, locks, and the vendored copies under
-- components/nop/third_party.
pub mod Prelude
pub mod Recorder
pub mod App
pub mod Nop
pub mod Streaming
pub mod Cloud
pub mod Storage
