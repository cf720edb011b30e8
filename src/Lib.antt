-- ===== src/Lib.antt =====
-- The media gateway takes streams in (sources), holds their frames in shared rings, and sends
-- them out again (outputs). A source writes packets into a ring of mgw-core/buffer; each output
-- reads the ring at its own pace. Frames that arrive out of order pass a sorter first. On the way
-- the packets are put into formats: H.264 between byte stream and AVCC, AAC with its headers, FLV
-- tags for RTMP. Threads hand messages to each other through a linked queue.
--
-- What models what:
-- - StreamBuff for mgw-core/buffer/stream_buff.c. `Memory` is the shared block: SmemoryHead, the
--   table of frames behind it, and the data. `put_one_frame` is PutOneFrameToBuff with
--   CheckBuffDataCover; StreamBuff/Reader holds GetOneFrameFromBuff (`get_one_frame`) with its
--   jumps JumpToOldestIFrame and JumpTonewestIFrame, and CheckBuffDuration. The abstract view is a
--   window: the list of the last frames written, each whole in the data.
-- - StreamSort for mgw-core/buffer/stream_sort.c. `Sorter` is SC_ssbuff, its nodes a list in the
--   order of the links, its ring of addresses a list. StreamSort/Check holds CheckStreambuff and
--   RemallocSortBuff, StreamSort/Put holds PutFrameStreamSort and PopFrameStreamSort. The callback
--   is a parameter, a function from the frame that it gets to the `int` that it returns, and the
--   time of the call is an argument.
-- - MallocMemory for mgw-core/buffer/malloc_memory.c and the named nodes of
--   mgw-core/buffer/list_function.c: `Globals` holds the list of nodes and the blocks by address.
--   MallocMemory/Contexts holds CreateStreamBuff and DeleteStreamBuff of stream_buff.c over it, and
--   Contexts/Steps the openings and closings that any order of calls can make, each opening under the
--   conditions of its `IsRequest`: fewer than 255 contexts are open and the name is not list_head. The
--   answer of calloc is an argument: an address that is not in use, or NULL.
-- - PacketRing for mgw-core/buffer/ring-buffer.c over StreamSort and StreamBuff. `RingBuffer` is one
--   user of a ring; the block that the users share is an argument. The frames that the sorter
--   delivers are put into the block one after the other, as its callback does.
-- - Queue for mgw-core/util/source/queue.c on a store of `next` fields; Queue/Race interleaves two
--   consumers by the steps of q_dequeue.
-- - Codec for mgw-core/util/source/codec-common.c. Codec/Startcode is the search for start codes,
--   Codec/Nals the walks over NAL units, the search for one of them (Codec/Nals/Get) and the
--   decoder configuration record, Codec/Aac the AAC and ADTS headers.
-- - Serializer for mgw-core/util/source/serializer.c over array-serializer.c; an output is the
--   list of bytes written.
-- - Flv for plugins/formats/flv-mux.c, written with the functions of Serializer.
-- - Output for mgw-core/core-api/mgw-output.c, the fields that start, stop and reconnection use. Its
--   functions are the handlers, Output/Reach the steps that any order of them can take.
-- - RtmpStream for the sending path of plugins/outputs/rtmp-stream.c, over Flv and Codec. `RtmpStream`
--   is struct rtmp_stream with the list of what RTMP_Write was given; `send_round` is one round of
--   send_thread. Whether RTMP_Write succeeds, whether received data could be read away, and what
--   the source answers are parameters; the source's answers are no errors and its times are not
--   negative. RtmpStream/Times has the rounds of one thread with
--   any order of such answers. The start of the next thread is not modelled.
-- - SrtStream for srt_stream_proc_packet of plugins/outputs/srt-stream.c. The answers of
--   mgw_libsrt_write, one for each call of it, are a parameter.
-- - Source for the packets that mgw-core/core-api/mgw-source.c writes into a ring (PacketRing), and
--   for the headers that it keeps (Codec) and hands out. A packet is an address in memory.
-- - ProcHandler for mgw-core/util/source/callback-handle.c, the table through which outputs and
--   sources call each other by name. What the functions answer is a parameter.
-- - Prelude for tests on numbers, lists and memory blocks, machine words, and index lemmas of rings.
--
-- Numbers: C's unsigned types wrap, and the definitions write the wrap out; `int` values that can
-- be negative are integers. The 64-bit counts of what was sent are taken not to wrap. The machine
-- is 64-bit and little-endian; a table entry of StreamBuff takes 40 bytes there. The data of a StreamBuff is at most 2^31 bytes and its counts are below
-- 2^31, as its `int` variables need. Sizes of packets are the lengths of their lists.
-- Pointers into memory are addresses, and the start code search assumes that a stream ends at an
-- address from 6 on, as no real one ends lower.
--
-- Fuel: q_clear runs with one round more than there are nodes, the walks over NAL units with one
-- more than there are units or, on any input, bytes; each round takes one off.
-- The loops of CheckBuffDataCover and of the jumps are bounded by their own counters.
--
-- Not modelled: memory always is given where the code calls malloc or calloc, except where a
-- definition says otherwise; locks and the logs have no effect on the states. Left out are the
-- vendored librtmp, the ffmpeg and SRT glue, the protobuf code, and the general utilities of
-- libobs. Of the rest of the core API (streams, the start and stop of sources, the creation
-- of outputs) nothing is modelled, of the shared memory of share_memory.c neither. Readers and
-- writers of one name are taken to ask for the same number of frames, and a block's whole size to
-- fit an `unsigned int`. That later frames leave the bytes of the frames that wait in the sorter
-- alone is not modelled. The sorter's ring of addresses is a list: where the code would read through a
-- NULL or freed head, the list is empty.
pub mod Codec
pub mod Flv
pub mod MallocMemory
pub mod Output
pub mod PacketRing
pub mod Prelude
pub mod ProcHandler
pub mod Queue
pub mod RtmpStream
pub mod Serializer
pub mod Source
pub mod SrtStream
pub mod StreamBuff
pub mod StreamSort
