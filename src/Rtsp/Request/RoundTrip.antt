-- ===== src/Rtsp/Request/RoundTrip.antt =====
-- A request that is written out is read again, part for part.
use mathlib.Core.List.{append_assoc}
use payloader.Base.{
  ℕ, ◌+◌, ◌-◌, ◌≤◌, ◌≡◌, refl, sym, ap, ◌∙◌, arith, ◌∷◌, ◌++◌, true, none, some, Bytes, drop,
  length, length-append, take, ok, read_block, read_block_fits, write_block-front,
}
use payloader.Rtsp.{codes}
use payloader.Rtsp.Command.{read_command, command_type, is_blank}
use payloader.Rtsp.Command.Word.{read_command-word}
use payloader.Rtsp.Strings.{string_at, strstr}
use payloader.Rtsp.ClientPort.{client_ports, text_ports}
use payloader.Rtsp.Places.{drop_next, drop_part}
use payloader.Rtsp.Url.{skip_blanks, find_url}
use payloader.Rtsp.Url.Printed.{skip_blanks-none, find_url-front}
use payloader.Rtsp.Url.Path.{read_suffix-path}
use payloader.Rtsp.Request.{
  Session, set_host, read_behind_path, read_line, read_behind_command, read_request, ports,
  parse_rtsp_request,
}
use payloader.Rtsp.Request.Printed.{
  version_text, path_text, request_text, read_fields-printed, transport_of, read_transport-text,
  IsRequest, session_of,
}

module _ (word host pre suf : Bytes) (c : ℕ) (number rest back text : Bytes)
    (k : IsRequest word host pre suf c number rest back) where
  abbrev tail : Bytes
  tail = version_text (c ∷ number) rest

  abbrev size : ℕ
  size = length (request_text word host pre suf (c ∷ number) rest)

  abbrev m : Bytes
  m = request_text word host pre suf (c ∷ number) rest ++ back

  path_joined :
      (behind : Bytes) → path_text pre suf behind ++ back ≡ path_text pre suf (behind ++ back)
  path_joined behind =
      ap (λ (t : Bytes). 47 ∷ t)
        (append_assoc pre (47 ∷ (suf ++ (32 ∷ (codes "RTSP/" ++ behind)))) back
          ∙ ap (λ (t : Bytes). pre ++ (47 ∷ t))
              (append_assoc suf (32 ∷ (codes "RTSP/" ++ behind)) back))

  parts : m ≡ word ++ (32 ∷ (codes "rtsp://" ++ (host ++ path_text pre suf (tail ++ back))))
  parts =
      append_assoc word (32 ∷ (codes "rtsp://" ++ (host ++ path_text pre suf tail))) back
      ∙ ap (λ (t : Bytes). word ++ (32 ∷ (codes "rtsp://" ++ t)))
          (append_assoc host (path_text pre suf tail) back
            ∙ ap (λ (t : Bytes). host ++ t) (path_joined tail))

  pub sizes : size ≡ length word + 8 + length host + (length pre + length suf + 8) + length tail
  sizes = omega (
    arith,
    length-append word (32 ∷ (codes "rtsp://" ++ (host ++ path_text pre suf tail))),
    length-append host (path_text pre suf tail),
    length-append pre (47 ∷ (suf ++ (32 ∷ (codes "RTSP/" ++ tail)))),
    length-append suf (32 ∷ (codes "RTSP/" ++ tail)),
  )

  -- The place of the slash behind the host, and of the version behind its text `RTSP/`.
  abbrev slash_at : ℕ
  slash_at = length word + 1 + 7 + length host

  abbrev version_at : ℕ
  version_at = slash_at + 1 + length pre + length suf + 7

  at_url : drop (length word + 1) m ≡ codes "rtsp://" ++ (host ++ path_text pre suf (tail ++ back))
  at_url = drop_next m _ 32 (length word) (drop_part m word _ 0 (length word) parts (omega arith))

  at_slash : drop slash_at m ≡ path_text pre suf (tail ++ back)
  at_slash = drop_part m (codes "rtsp://" ++ host) _ (length word + 1) slash_at at_url (omega arith)

  at_version : drop version_at m ≡ tail ++ back
  at_version =
      let front = 47 ∷ (pre ++ (47 ∷ (suf ++ (32 ∷ codes "RTSP/")))) in
      let whole : drop slash_at m ≡ front ++ (tail ++ back) =
        at_slash
        ∙ ap (λ (t : Bytes). 47 ∷ t)
            (sym (
              append_assoc pre (47 ∷ (suf ++ (32 ∷ codes "RTSP/"))) (tail ++ back)
              ∙ ap (λ (t : Bytes). pre ++ (47 ∷ t))
                  (append_assoc suf (32 ∷ codes "RTSP/") (tail ++ back)))) in
      drop_part m front (tail ++ back) slash_at version_at whole (
        omega (
          arith,
          length-append pre (47 ∷ (suf ++ (32 ∷ codes "RTSP/"))),
          length-append suf (32 ∷ codes "RTSP/"),
        ))

  read_line-printed :
      (s : Session)
      → read_line m size (length word) s
        ≡ ok (
          record (set_host host s) {
            connection = record ((set_host host s).connection) {
              url_pre_suffix = pre;
              url_suffix = suf;
              c_seq = c ∷ number;
            };
          },
          true,
        )
  unfolding read_line read_behind_path is_blank
  read_line-printed s =
      let i = length word in
      let skipped : skip_blanks (size - (i + 1)) m (i + 1) ≡ ok (i + 1) =
        skip_blanks-none (size - (i + 1)) m _ 114 (i + 1) at_url refl in
      let url : find_url (size - 8 - (i + 1)) m size (i + 1) i ≡ ok (slash_at, host) =
        find_url-front (size - 8 - (i + 1)) m host _ size (i + 1) i at_url k.host_slash k.host_space
          (omega (arith, sizes)) (omega (arith, sizes)) in
      let path =
        read_suffix-path m pre suf (tail ++ back) size slash_at (set_host host s).connection
          at_slash k.version k.short_pre k.short_suf (omega (arith, sizes, k.small)) k.pre_zero
          k.suf_zero k.suf_space k.suf_slash (omega (arith, sizes)) in
      let fields =
        read_fields-printed m number rest back c size version_at
          (record (set_host host s) {
            connection = record ((set_host host s).connection) {
              url_suffix = suf;
              url_pre_suffix = pre;
            };
          })
          at_version k.letter k.is_line k.short_number (omega (arith, sizes)) k.no_length in
      rw (read_line, skipped) (rw (url) (rw (path) (rw (fields) refl)))

  pub read_request-printed :
      (s : Session)
      → string_at m ≡ ok text
      → read_request m size s ≡ ok (session_of text word host pre suf (c ∷ number) s, true)
  unfolding read_request read_behind_command is_blank
  read_request-printed s string =
      let command : read_command 199 m size 0 ≡ ok (some (word, length word)) =
        ap (λ (t : Bytes). read_command 199 t size 0) parts
        ∙ read_command-word word _ 32 size k.is_word refl k.short_word (omega (arith, sizes)) in
      let typed : Session = record s { cmd_type = command_type word s.cmd_type } in
      let transport = read_transport-text m text typed string in
      let line = read_line-printed (record typed {
        connection = record (typed.connection) { tcp_transport = transport_of text typed };
      }) in
      rw (read_request, command) (rw (transport) line)

  ports-none :
      (s : Session)
      → string_at m ≡ ok text
      → strstr text (codes "client_port") ≡ none
      → client_ports m (ports s) ≡ ok (m, ports s)
  unfolding client_ports text_ports
  ports-none s string absent = rw (client_ports, string) (rw (text_ports, absent) refl)

-- A request as a client sends it, at the front of a block: a command word, a URL with a host and a path
-- whose last part is behind a slash, the version, its number on the next line, and further lines. If the
-- parts can be told apart, the request fits the stack's array, the string in the array names no
-- `client_port` and there is no `Content-Length`, the parse succeeds and stores exactly the parts: the
-- type that the word selects, the host over the one before, the two parts of the path and the number; the
-- transport is what the string names if the type is SETUP, and the rest of the session stays.
pub parse_rtsp_request-printed :
    (garbage block word host pre suf : Bytes) (c : ℕ) (number rest text : Bytes) (s : Session)
    → IsRequest word host pre suf c number rest
        (drop (length (request_text word host pre suf (c ∷ number) rest)) garbage)
    → length (request_text word host pre suf (c ∷ number) rest) ≤ length block
    → take (length (request_text word host pre suf (c ∷ number) rest)) block
      ≡ request_text word host pre suf (c ∷ number) rest
    → length (request_text word host pre suf (c ∷ number) rest) ≤ length garbage
    → string_at (
        request_text word host pre suf (c ∷ number) rest
        ++ drop (length (request_text word host pre suf (c ∷ number) rest)) garbage)
      ≡ ok text
    → strstr text (codes "client_port") ≡ none
    → parse_rtsp_request garbage block (length (request_text word host pre suf (c ∷ number) rest)) s
      ≡ ok (session_of text word host pre suf (c ∷ number) s, true)
unfolding parse_rtsp_request
parse_rtsp_request-printed garbage block word host pre suf c number rest text s k long taken fits
      string absent =
    let request = request_text word host pre suf (c ∷ number) rest in
    let back = drop (length request) garbage in
    let read : read_block block 0 (length request) ≡ some request =
      read_block_fits block 0 (length request) (omega arith) ∙ ap (λ (t : Bytes). some t) taken in
    let written = write_block-front garbage request fits in
    let none_named = ports-none word host pre suf c number rest back text k s string absent in
    let parsed = read_request-printed word host pre suf c number rest back text k s string in
    rw (parse_rtsp_request, read) (rw (written) (rw (none_named) parsed))
