-- ===== src/OutputWriter/Frames.antt =====
-- What is written to the files.
use payloader.Base.{
  ℕ, Bool, pos, ◌≡◌, refl, arith, List, [], ◌∷◌, ◌++◌, map, true, false, some, ok, fault, ◌+◌, ◌*◌,
  length, Bytes, ◌==◌,
}
use payloader.Interfaces.{AvMediaType, AvPacket, AvFrame}
use payloader.OutputWriter.{
  OutputWriter, FileAnswers, init, video_stream, context, receive_packet, index_of, WriterCall,
  open_file, write_image, Shown, write_frame, receive_frame,
}

-- A run over a sequence of video frames, where every allocation succeeds.
unfoldable pub write_all :
    (convert : AvFrame → Bytes) → List AvFrame → OutputWriter → (live : ℕ) → Shown
write_all convert [] o live = record { writer = o; calls = []; live = live }
write_all convert (f ∷ fs) o live =
    let first = write_frame convert f o live in
    let rest = write_all convert fs first.writer first.live in
    record { writer = rest.writer; calls = first.calls ++ rest.calls; live = rest.live }

abbrev pub image : (convert : AvFrame → Bytes) → AvFrame → WriterCall
image convert f = write_image f.height f.width (convert f)

pub write_all_opened :
    (convert : AvFrame → Bytes) (fs : List AvFrame) (o : OutputWriter) (live : ℕ)
    → (o.one == 0) ≡ false
    → ((write_all convert fs o live).calls ≡ map (image convert) fs)
      × ((write_all convert fs o live).live ≡ live + 3 * length fs)
unfolding write_all
write_all_opened convert [] o live h = (refl, omega arith)
write_all_opened convert (f ∷ fs) o live h =
    let (calls, after) = write_all_opened convert fs o (live + 3) h in (ground arith, ground arith)

-- If `init` reports success, a run over video frames opens the file once, with the size of the first
-- frame, and writes every frame in order. Each frame leaves three blocks of memory allocated.
pub write_all-init :
    (convert : AvFrame → Bytes) (width height : ℕ) (a : FileAnswers) (o t : OutputWriter)
    (f : AvFrame) (fs : List AvFrame) (live : ℕ)
    → init width height a o ≡ ok (t, pos 0)
    → ((write_all convert (f ∷ fs) t live).calls
        ≡ open_file f.width f.height ∷ map (image convert) (f ∷ fs))
      × ((write_all convert (f ∷ fs) t live).live ≡ live + 3 * length (f ∷ fs))
unfolding write_all init
write_all-init convert width height a o t f fs live h =
    let fresh : t.one ≡ 0 = ground arith in
    let (calls, after) =
      write_all_opened convert fs (record t { one = t.one + 1; output = some (f.width, f.height) })
        (live + 3) (ground arith) in
    (ground arith, ground arith)

-- A frame that is received where its three blocks can be allocated.
pub receive_frame-allocated :
    (convert : AvFrame → Bytes) (allocated : ℕ → Bool) (f : AvFrame) (o : OutputWriter) (live : ℕ)
    → allocated live ≡ true
    → allocated (live + 1) ≡ true
    → allocated (live + 2) ≡ true
    → receive_frame convert allocated f AvMediaType.video o live ≡ ok (write_frame convert f o live)
unfolding receive_frame
receive_frame-allocated convert allocated f o live frame buffer context =
    rw (receive_frame, frame) (rw (buffer) (rw (context) refl))

-- Behind a successful `init` a packet goes to the stream of its medium if debugging is off, and the
-- log line reads behind the only stream if it is on.
pub receive_packet-init :
    (width height : ℕ) (a : FileAnswers) (o t : OutputWriter) (packet : AvPacket) (stream_index : ℕ)
    (type : AvMediaType)
    → init width height a o ≡ ok (t, pos 0)
    → (receive_packet false packet stream_index type t
        ≡ ok (record { packet = packet; stream_index = index_of type stream_index }))
      × (receive_packet true packet stream_index type t ≡ fault)
unfolding receive_packet init
receive_packet-init width height a o t packet stream_index type h =
    let set : t.av_context
        ≡ some (context o.output_url true true (video_stream width height ∷ [])) =
      ground arith in
    (ground arith, ground arith)
