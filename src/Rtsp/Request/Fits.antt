-- ===== src/Rtsp/Request/Fits.antt =====
-- Whatever is parsed, the strings of a session fit their arrays.
use payloader.Base.{
  ℕ, zero, suc, ◌+◌, ◌-◌, ◌^◌, ◌≤◌, ◌<◌, ◌≡◌, arith, Bool, false, ◌||◌, Option, none, some, ◌==◌,
  Bytes, length, ok, access, access-eq-ok, bind-eq-ok, read_block, write_block, read_block_inv,
  write_block_le, Bool-cases, Option-cases, inl, inr,
}
use payloader.Rtsp.{Connection, codes}
use payloader.Rtsp.Command.{byte_at, read_command, command_room, command_type}
use payloader.Rtsp.Url.{find_at, skip_blanks, find_url, read_suffix, param_size}
use payloader.Rtsp.Url.Bounds.{IsPath, length-c_string, read_suffix-IsPath}
use payloader.Rtsp.Fields.{read_value, read_c_seq, read_length}
use payloader.Rtsp.ClientPort.{client_ports}
use payloader.Rtsp.Request.{
  Session, buffer_size, read_transport, set_host, read_fields, read_behind_path, read_line,
  read_behind_command, read_request, ports, set_ports, parse_rtsp_request,
}

-- The path and the number leave room for their zeros.
abbrev pub FitsArrays : Connection → Type 0
FitsArrays c = IsPath c × (length c.c_seq < param_size)

read_value-length :
    (room left : ℕ) (m : Bytes) (j : ℕ) (v : Bytes) (end : Bool)
    → read_value room left m j ≡ ok (v, end)
    → length v ≤ room
unfolding read_value
read_value-length zero left m j v end e = ground arith
read_value-length (suc room) zero m j v end e = ground arith
read_value-length (suc room) (suc left) m j v end e =
    let (c, byte, rest) = bind-eq-ok (byte_at m j) _ e in
    elim (Bool-cases ((c == 13) || (c == 10))) [
      | inl over ↦ ground arith
      | inr letter ↦
          let (r, more, last) =
            bind-eq-ok (read_value room left m (j + 1)) _ (rw (letter) at rest) in
          let shorter = read_value-length room left m (j + 1) r.0 r.1 more in ground arith
    ]

read_c_seq-FitsArrays :
    (m : Bytes) (size i : ℕ) (c t : Connection) (found : Bool)
    → read_c_seq m size i c ≡ ok (t, found)
    → FitsArrays c
    → FitsArrays t
unfolding read_c_seq
read_c_seq-FitsArrays m size i c t found e fits =
    elim (Option-cases (find_at (size - 5 - i) (codes "CSeq:") m i)) [
      | inl missing ↦
          let missed : read_c_seq m size i c ≡ ok (c, false) = rw (read_c_seq, missing) in
          ground arith
      | inr (j, here) ↦
          let (at, skipped, rest) =
            bind-eq-ok (skip_blanks (size - (j + 5)) m (j + 5)) _ (rw (read_c_seq, here) at e) in
          let (r, value, last) = bind-eq-ok (read_value (param_size - 1) (size - at) m at) _ rest in
          let bound = read_value-length _ _ m at r.0 r.1 value in
          let string = length-c_string r.0 in ground arith
    ]

read_fields-FitsArrays :
    (m : Bytes) (size next : ℕ) (s t : Session) (b : Bool)
    → read_fields m size next s ≡ ok (t, b)
    → FitsArrays s.connection
    → FitsArrays t.connection
unfolding read_fields
read_fields-FitsArrays m size next s t b e fits =
    let (r, read, rest) = bind-eq-ok (read_c_seq m size next s.connection) _ e in
    let fits_r = read_c_seq-FitsArrays m size next s.connection r.0 r.1 read fits in
    elim (Bool-cases (r.1)) [
      | inr missing ↦ ground arith
      | inl found ↦
          let (n, counted, last) =
            bind-eq-ok (read_length size m size next s.content_length) _ (rw (found) at rest) in
          ground arith
    ]

read_behind_path-FitsArrays :
    (m : Bytes) (size : ℕ) (s t : Session) (next : Option ℕ) (b : Bool)
    → read_behind_path m size s next ≡ ok (t, b)
    → FitsArrays s.connection
    → FitsArrays t.connection
unfolding read_behind_path
read_behind_path-FitsArrays m size s t none b e fits = ground arith
read_behind_path-FitsArrays m size s t (some next) b e fits =
    read_fields-FitsArrays m size next s t b e fits

read_line-FitsArrays :
    (m : Bytes) (size i : ℕ) (s t : Session) (b : Bool)
    → size < 2 ^ 31
    → read_line m size i s ≡ ok (t, b)
    → FitsArrays s.connection
    → FitsArrays t.connection
unfolding read_line
read_line-FitsArrays m size i s t b small e (path, number) =
    let (j, skipped, rest) = bind-eq-ok (skip_blanks (size - (i + 1)) m (i + 1)) _ e in
    let (url, found, rest2) = bind-eq-ok (find_url (size - 8 - j) m size j i) _ rest in
    let hosted : Session = set_host url.1 s in
    let (r, read, last) = bind-eq-ok (read_suffix m size url.0 hosted.connection) _ rest2 in
    let (fits_path, same) =
      read_suffix-IsPath m size url.0 hosted.connection r.0 r.1 small read path in
    let fits_number : length r.0.c_seq < param_size = rw (same) number in
    read_behind_path-FitsArrays m size (record hosted { connection = r.0 }) t r.1 b last
      (fits_path, fits_number)

read_transport-FitsArrays :
    (m : Bytes) (s t : Session)
    → read_transport m s ≡ ok t
    → FitsArrays s.connection
    → FitsArrays t.connection
unfolding read_transport
read_transport-FitsArrays m s t e fits = ground arith

read_behind_command-FitsArrays :
    (m : Bytes) (size : ℕ) (s t : Session) (word : Option (Bytes × ℕ)) (b : Bool)
    → size < 2 ^ 31
    → read_behind_command m size s word ≡ ok (t, b)
    → FitsArrays s.connection
    → FitsArrays t.connection
unfolding read_behind_command
read_behind_command-FitsArrays m size s t none b small e fits = ground arith
read_behind_command-FitsArrays m size s t (some (name, i)) b small e fits =
    let typed : Session = record s { cmd_type = command_type name s.cmd_type } in
    let (r, read, last) = bind-eq-ok (read_transport m typed) _ e in
    read_line-FitsArrays m size i r t b small last (read_transport-FitsArrays m typed r read fits)

-- Every request that is parsed, with success or not, leaves a path and a number that fit their arrays
-- of 200 bytes with their zeros, if they did before; the array for the copy of the request has
-- 10000 bytes.
pub parse_rtsp_request-FitsArrays :
    (garbage request : Bytes) (size : ℕ) (s t : Session) (b : Bool)
    → length garbage ≡ buffer_size
    → parse_rtsp_request garbage request size s ≡ ok (t, b)
    → FitsArrays s.connection
    → FitsArrays t.connection
unfolding parse_rtsp_request read_request
parse_rtsp_request-FitsArrays garbage request size s t b room e fits =
    let (bytes, copied, rest) = bind-eq-ok (access (read_block request 0 size)) _ e in
    let (m, written, rest2) = bind-eq-ok (access (write_block garbage 0 bytes)) _ rest in
    let (r, ported, rest3) = bind-eq-ok (client_ports m (ports s)) _ rest2 in
    let (word, command, last) = bind-eq-ok (read_command command_room r.0 size 0) _ rest3 in
    let (_, count) = read_block_inv request bytes size (access-eq-ok _ copied) in
    let inside = write_block_le garbage m bytes 0 (access-eq-ok _ written) in
    read_behind_command-FitsArrays r.0 size (set_ports r.1 s) t word b (omega arith) last fits
