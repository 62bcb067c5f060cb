-- ===== src/DiskReader/Opening.antt =====
-- When the opening of a file returns, and what it leaves.
use payloader.Base.{
  ℕ, pos, negsuc, ◌+◌, ◌≡◌, refl, arith, List, [], ◌∷◌, ◌++◌, true, false, length, length-append,
  ok, fault, if◌then◌else◌,
}
use payloader.DiskReader.{
  OutStream, DiskReader, StreamAnswers, DiskSource, copy_stream, copy_streams, open_output,
  init_output, init,
}

abbrev pub AllAllocated : List StreamAnswers → Type 0
AllAllocated [] = Unit
AllAllocated (x ∷ xs) = (x.allocated ≡ true) × AllAllocated xs

-- A reader that differs in nothing that the loop does not write.
copy_streams-ok :
    (s : DiskSource) (xs : List StreamAnswers) (r : DiskReader)
    → s.oformat ≡ true
    → AllAllocated xs
    → (t : DiskReader) × (copy_streams s xs r ≡ ok t)
      × (length t.out_streams ≡ length r.out_streams + length xs)
      × (t.ofmt_ctx ≡ r.ofmt_ctx)
      × (t.video_stream_index ≡ r.video_stream_index)
      × (t.audio_stream_index ≡ r.audio_stream_index)
unfolding copy_streams copy_stream
copy_streams-ok s [] r has k = (r, refl, omega arith, refl, refl, refl)
copy_streams-ok s (x ∷ xs) r has (one, k) =
    let out : OutStream = record { codec_tag = 0; global_header = s.wants_global_header } in
    let next : DiskReader = record r { out_streams = r.out_streams ++ out ∷ []; ret = x.copied } in
    let first : copy_stream s x r ≡ ok next = rw (copy_stream, one, has) in
    let (t, returns, count, same_out, same_video, same_audio) = copy_streams-ok s xs next has k in
    (
      t,
      rw first returns,
      omega (arith, count, length-append r.out_streams (out ∷ [])),
      same_out,
      same_video,
      same_audio,
    )

pub init-opened :
    (s : DiskSource) (r : DiskReader) (n : ℕ)
    → s.open_result ≡ pos 0
    → s.info_result ≡ pos n
    → s.output_allocated ≡ true
    → s.oformat ≡ true
    → AllAllocated s.streams
    → (t : DiskReader) × (init s r ≡ ok (t, if s.encoder_found then pos 1 else negsuc 0))
      × (length t.out_streams ≡ length r.out_streams + length s.streams)
      × (t.ofmt_ctx ≡ true)
      × (t.video_stream_index ≡ s.best_video)
      × (t.audio_stream_index ≡ s.best_audio)
unfolding init init_output open_output
init-opened s r n opened found output has k =
    let start : DiskReader = record r {
      ifmt_ctx = true;
      audio_stream_index = s.best_audio;
      video_stream_index = s.best_video;
      ofmt_ctx = true;
      ret = s.alloc_result;
    } in
    let (t, returns, count, same_out, same_video, same_audio) =
      copy_streams-ok s s.streams start has k in
    let last : DiskReader = if s.no_file then t else record t { ret = s.avio_result } in
    let whole : init s r ≡ ok (last, if s.encoder_found then pos 1 else negsuc 0) =
      ground (arith, returns) in
    (last, whole, ground (arith, count), ground arith, ground arith, ground arith)

-- A stream of the output that cannot be allocated is used all the same.
pub init-fault_stream :
    (s : DiskSource) (r : DiskReader) (n : ℕ) (x : StreamAnswers) (xs : List StreamAnswers)
    → s.open_result ≡ pos 0
    → s.info_result ≡ pos n
    → s.output_allocated ≡ true
    → s.streams ≡ x ∷ xs
    → x.allocated ≡ false
    → init s r ≡ fault
unfolding init init_output copy_streams copy_stream
init-fault_stream s r n x xs opened found output has bad = rw (opened, found, output, has, bad)
