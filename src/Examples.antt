-- ===== src/Examples.antt =====
-- Runs of the model on concrete inputs.
mod Rtp
mod Rtcp
mod Media
mod Transport
mod Rtsp
mod Request
mod Printed
mod Readers
mod Prototypes
mod Stages
mod Stream
mod Server
mod Threads
