-- ===== src/Lib.antt =====
-- A live-stream server in Go. Workers (stream.go) read packets from RTSP or RTMP cameras; the
-- registry (config.go) keeps the streams, starts one worker for each, and hands every packet to the
-- viewers' channels; published RTMP streams go through a queue (av/pubsub) of which each reader has
-- a cursor. The queue stands on a ring of packets (av/pktque/buf.go); filters correct packet times
-- (av/pktque/filters.go), and the codecs and formats stand on readers and writers of bytes
-- (utils/bits).
--
-- Which file models what:
--   Common: lists, options, Boolean tests, words, and the bits of numbers; Common/Word holds 64-bit
--     arithmetic with its wrap-around and the signed comparison.
--   Pio: utils/bits/pio/reader.go and writer.go. `u32_be` is `U32BE`, `put_u32_be` is `PutU32BE`.
--   Pio/Vec: utils/bits/pio/vec.go, with one piece of the output for each that the loops set.
--   Av: the packets and codec types of av/av.go; Av/Channels: its channel layouts.
--   Pktque/Buf: the ring of av/pktque/buf.go; Pktque/Buf/Refine says which list a ring stands for.
--   Pktque/Timeline and Pktque/Filters: av/pktque/timeline.go and filters.go.
--   Pubsub: the queue and its writer of av/pubsub/queue.go; Pubsub/Cursor: its cursors.
--   Codec/Opus, Codec/Aac: codec/opusparser/opusparser.go, and the ADTS headers of
--     codec/aacparser/parser.go; Codec/Timescale: format/fmp4/timescale/timescale.go.
--   Golomb: utils/bits/golomb_reader.go; Golomb/Pending says which bits a reader has still to give.
--   Pio/Cursor: filling a buffer from a position on (`PutX(b[n:], v); n += k`); Pio/Fetch: taking
--     values off its front (`X(b[n:]); n += k`, behind a check of the length); Pio/Bounds: such a
--     parser stays inside its buffer.
--   Flv/Amf0 and Flv/Amf0/Parse: the AMF0 values of format/flv/flvio/amf0.go; Flv/Amf0/Encode says
--     which bytes a value has, Flv/Amf0/Wire which values those bytes can hold,
--     Flv/Amf0/Date the dates.
--   Flv/Tag and Flv/Tag/Writer: the tags and headers of format/flv/flvio/flvio.go.
--   Fmp4/Box, Fmp4/Tables and Fmp4/Tables/Atoms: the boxes of format/fmp4/fmp4io, and the tables of
--     samples of sampletable.go, five of which are one type over the format of their entries.
--   Fmp4/FullAtom and Fmp4/Index: the full atoms of atom.go, and segindex.go.
--   Fmp4/Optional, Fmp4/Fragment, Fmp4/Fragment/Run and Fmp4/Fragment/Track: the boxes of
--     fragment.go but MovieFrag. Pio/Over: writers that leave some bytes of the buffer as they were.
--   Registry: config.go with the `Stream` of stream.go, as a heap of streams and a map into it.
--
-- A byte is a number below 2 ^ 8, a signed number its bit pattern. `none` is a panic of the code: an
-- index out of range, or a nil dereference; in Golomb it is the error of the reader underneath, and
-- the codecs and the parsers have results with errors and panics of their own. Positions and times
-- are 64-bit words that may wrap around. Floats of AMF0 are their bit patterns, whose
-- conversions from and to dates Flv/Amf0/Date computes. State is passed
-- explicitly, and a function that holds a lock is one step. `ReadPacket` waits where the code waits
-- on its condition, as a result of its own.
--
-- Fuel: `shrink`, the loop of `WritePacket`, has one round for each buffered packet and one more;
-- `grow_loop` one for each packet; `pop_loop` one for each stretch and one more, since a round uses
-- up a stretch or all that is left to take; `wait_codecs` is the code's 100 looks, `read_zeros`
-- its 32 zeros, and `channel_count` has a round for each of the 16 bits. `parse_val` has
-- one level of nesting for each byte of the buffer and one more, and `parse_entries` one entry for
-- each byte, since a level and an entry take a byte each. The rounds of the loop of
-- `track_frag_unmarshal` are an argument, and its result is `none` if it has not ended by then.
--
-- Not modelled: sockets, files and HTTP handlers, the generated atoms of mp4, the bindings of
-- ffmpeg, and calls of pion and other libraries. New identifiers and the order of Go's maps are
-- given from outside.
pub mod Common
pub mod Pio
pub mod Av
pub mod Pktque
pub mod Pubsub
pub mod Registry
pub mod Flv
pub mod Fmp4
pub mod Golomb
pub mod Codec
