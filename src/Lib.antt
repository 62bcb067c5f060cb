-- ===== src/Lib.antt =====
-- A verification library for payloader: a media pipeline that packages encoded frames into RTP
-- packets, sends them over UDP, receives them and puts the frames together again.
--
-- The parts, in the order in which a frame passes them:
--   Interfaces    src/libs/Interfaces.h: the values handed from stage to stage.
--   Rtp           src/libs/rtp/RtpHeaders.h (Rtp.Header: class RtpHeader; Rtp.Extensions: the extension
--                 headers) and src/libs/rtp/RtpFragmenter.cpp (Rtp.Fragmenter).
--   Packager      src/libs/Packager.cpp: `receivePacket` makes a fragmenter and sends one RTP packet for
--                 each fragment to its sink.
--   Sender        src/libs/Sender.cpp: the queue, and the thread that sends it.
--   Receiver      src/libs/Receiver.cpp: the asynchronous loop that hands datagrams to its sink.
--   Unpackager    src/libs/Unpackager.cpp: `receiveRtpPacket` collects payloads up to the marker.
--   Pipeline      the packager's calls at the unpackager, as src/prototype4_send.cpp and
--                 src/prototype4_rec.cpp connect them; and the whole way through Sender and Receiver.
--   Streamer      src/libs/Streamer.cpp: `InitTransport`, the search for a pair of server ports, and
--                 `StartStreaming` (Streamer.Streaming), which runs a device's packets through
--                 InputReader, DecoderWeb, Encoder and Packager up to the calls of the sender, and from
--                 there to an unpackager on another host (Streamer.Streaming.FarSide).
--   Rtsp          src/libs/TcpConnection.cpp: the handlers of an RTSP session and the answers they send
--                 (Rtsp.Handlers), and `ParseRtspRequest` with its parts: the command (Rtsp.Command),
--                 the ports (Rtsp.ClientPort), the URL (Rtsp.Url), the fields (Rtsp.Fields), and the
--                 whole of it with `Handle_RtspRequest` (Rtsp.Request).
--   TcpServer     src/libs/TcpServer.cpp: the loop of `thread_function01` over the events that it waits
--                 for; the same loop beside the timer and the thread that watches the socket
--                 (TcpServer.Threads); and the accepting loop of `start_accept` with the threads that
--                 it starts (TcpServer.Accept).
--   Ffmpeg, Codecs  what is read of FFmpeg's answers, and src/libs/Codecs.h.
--   InputReader   src/libs/InputReader.cpp; RtspReader: src/libs/RtspReader.cpp; DiskReader:
--                 src/libs/RtspReader_fromDisk.cpp: the readers.
--   Decoder       src/libs/Decoder.cpp; DecoderWeb: src/libs/DecoderWeb.cpp; Encoder:
--                 src/libs/Encoder.cpp; OutputWriter: src/libs/OutputWriter.cpp.
--   Prototypes    src/prototype4_rec_rtsp.cpp and src/prototype4_send_rtsp.cpp: the main functions.
--   Rtcp          src/libs/rtp/RtpHeaders.h, class RtcpHeader: reports, feedback and the REMB bit rate.
--   Base          numbers of a given width, blocks of memory, and the result of code that may fail.
--   Examples      runs on concrete inputs.
--
-- Correspondence. A class is a record with its members in snake case, a method is a function from
-- the state before to the state after and the calls that it makes. Memory is a list of bytes, and
-- an access outside a block is the result `fault`, as is any undefined behaviour that a method can
-- reach; memory that nothing has written is a parameter called `garbage`. Words are natural
-- numbers with the wrap-around written out; a bit-field is a number below its width, and network
-- order is `swap16` and `swap32` on a little-endian host. Threads and asynchronous completions are
-- explicit sequences of steps; the `select` and the `SetEvent` of a round of the watching thread are
-- one step.
--
-- Bounds and fuel. The fragmenter's loop has one round of fuel for each byte, which is enough
-- since each round takes at least one. The port search has 29282 rounds, the number of even ports
-- from 6970 to 65532. The packager's loop has its fuel as an argument: a frame of n bytes needs n
-- / 1099 rounds, rounded up, and a loop that has used up its fuel is the result `timeout`. The
-- search for the REMB exponent has the 64 rounds that its own condition allows. A loop over the
-- bytes of a request has as many rounds as its bound leaves places, the one for the length as
-- many as the request has bytes; Rtsp.Loops has the loops over the command line and the fields once
-- more, with their own conditions and on fuel. `StartStreaming` gives the packager one round for each byte.
--
-- Parameters. `av_rescale` of FFmpeg, the clock, `malloc`, the sockets (at which ports a `bind`
-- succeeds, what `recv` gives) and the threads of Boost are arguments of the definitions that use
-- them. So are FFmpeg's answers: which calls succeed, the packets that a source gives before its
-- end, and the frames or packets that a codec gives for each packet or frame. What the
-- stack held is an argument as well, and so is the wait of src/libs/pevents.cpp: which of the
-- events that are set it takes, and how it leaves them. A `strcpy` whose places overlap is a fault.
--
-- Not modelled: src/libs/pevents.cpp (a copy of another library), src/libs/logger.h (output only),
-- src/prototype1.cpp, prototype2.cpp, prototype3.cpp, prototype4_send.cpp and prototype4_rec.cpp
-- (they call constructors and functions that the classes do not have, so there is no program to
-- model), class FirHeader (no methods), the functions of src/libs/utils (calls of the standard
-- library), functions with an empty body such as `deliverLoop`, and the destructors that only free
-- or close.
pub mod Base
pub mod Rtp
pub mod Rtcp
pub mod Interfaces
pub mod Packager
pub mod Unpackager
pub mod Pipeline
pub mod Sender
pub mod Receiver
pub mod Streamer
pub mod Rtsp
pub mod Codecs
pub mod Decoder
pub mod DecoderWeb
pub mod DiskReader
pub mod Encoder
pub mod Examples
pub mod Ffmpeg
pub mod InputReader
pub mod OutputWriter
pub mod Prototypes
pub mod RtspReader
pub mod TcpServer
