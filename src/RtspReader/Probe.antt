-- ===== src/RtspReader/Probe.antt =====
-- `socketWriter` of src/libs/RtspReader.cpp: what a server sends is printed until it closes. The answers of
-- Boost are arguments.
use payloader.Base.{
  ap, ◌≡◌, refl, List, [], ◌∷◌, ◌++◌, map, Bool, true, false, Bytes, if◌then◌else◌,
}

-- What one `read_some` gives: up to 128 bytes, the end of the connection, or another error.
pub data SocketRead : Type 0 where
  some_bytes : Bytes → SocketRead
  eof error : SocketRead

-- What has been printed, whether an exception was caught, and whether the function has returned: it
-- waits in a read that gives nothing.
pub record Probe : Type 0 where
  pub written : Bytes
  pub caught : Bool
  pub returned : Bool

abbrev pub write : Bytes → Probe → Probe
write bytes p = record p { written = bytes ++ p.written }

unfoldable pub read_socket : List SocketRead → Probe
read_socket [] = record { written = []; caught = false; returned = false }
read_socket (some_bytes bytes ∷ reads) = write bytes (read_socket reads)
read_socket (eof ∷ reads) = record { written = []; caught = false; returned = true }
read_socket (error ∷ reads) = record { written = []; caught = true; returned = true }

-- The name is resolved and the socket connected first: where that fails, it throws.
unfoldable pub socket_writer : (connected : Bool) → List SocketRead → Probe
socket_writer connected reads =
    if connected then read_socket reads else record { written = []; caught = true; returned = true }

abbrev pub all : List Bytes → Bytes
all [] = []
all (b ∷ bs) = b ++ all bs

-- All that comes before the end of the connection is printed, in order, and nothing behind it.
pub socket_writer-eof :
    (parts : List Bytes) (behind : List SocketRead)
    → socket_writer true (map some_bytes parts ++ eof ∷ behind)
      ≡ record { written = all parts; caught = false; returned = true }
unfolding socket_writer read_socket
socket_writer-eof [] behind = refl
socket_writer-eof (b ∷ bs) behind = ap (write b) (socket_writer-eof bs behind)
