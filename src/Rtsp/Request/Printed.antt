-- ===== src/Rtsp/Request/Printed.antt =====
-- A request that is written out, as a client sends it, is read again.
use mathlib.Core.List.{append_assoc}
use payloader.Base.{
  ℕ, zero, suc, ◌+◌, ◌-◌, ◌^◌, ◌≤◌, ◌<◌, ◌≡◌, refl, ap, ◌∙◌, arith, [], ◌∷◌, ◌++◌, Bool, true,
  false, some, ltb, if◌then◌else◌, Bytes, drop, length, length-append, ok, Bool-cases, inl, inr,
}
use payloader.Rtsp.{codes}
use payloader.Rtsp.Command.{command_type, is_blank, c_string}
use payloader.Rtsp.Command.Word.{IsWord}
use payloader.Rtsp.Strings.{string_at, strstr}
use payloader.Rtsp.Places.{drop_next, drop_part, Lacks, Misses, find_at-front}
use payloader.Rtsp.Url.{find_at}
use payloader.Rtsp.Fields.{is_content_length, read_length}
use payloader.Rtsp.Fields.Line.{IsLine, read_c_seq-line}
use payloader.Rtsp.Request.{Session, is_setup, is_found, read_transport, read_fields}

-- No `Content-Length` begins inside `front`, where `back` follows.
abbrev pub MissesLength : (front back : Bytes) → Type 0
MissesLength [] back = Unit
MissesLength (c ∷ front) back =
    (is_content_length (c ∷ (front ++ back)) ≡ false) × MissesLength front back

read_length-none :
    (fuel : ℕ) (m front back : Bytes) (size j old : ℕ)
    → drop j m ≡ front ++ back
    → MissesLength front back
    → size ≤ j + length front
    → size ≤ j + fuel
    → read_length fuel m size j old ≡ ok old
unfolding read_length
read_length-none zero m front back size j old e misses all enough =
    let over : ltb (j + 15) size ≡ false = ground arith in rw (read_length, over) refl
read_length-none (suc fuel) m [] back size j old e misses all enough =
    let over : ltb (j + 15) size ≡ false = ground arith in rw (read_length, over) refl
read_length-none (suc fuel) m (c ∷ front) back size j old e (one, misses) all enough =
    let none_here : is_content_length (drop j m) ≡ false = ap is_content_length e ∙ one in
    let later =
      read_length-none fuel m front back size (j + 1) old (drop_next m (front ++ back) c j e) misses
        (omega arith) (omega arith) in
    elim (Bool-cases (ltb (j + 15) size)) [
      | inl more ↦ rw (read_length, more) (rw (none_here) later)
      | inr over ↦ rw (read_length, over) refl
    ]

-- The text from the version on.
abbrev pub version_text : (number rest : Bytes) → Bytes
version_text number rest =
    codes "1.0" ++ (13 ∷ 10 ∷ (codes "CSeq:" ++ (32 ∷ (number ++ (13 ∷ 10 ∷ rest)))))

-- The text behind the host.
abbrev pub path_text : (pre suf behind : Bytes) → Bytes
path_text pre suf behind = 47 ∷ (pre ++ (47 ∷ (suf ++ (32 ∷ (codes "RTSP/" ++ behind)))))

-- A request: the command, the URL with its host and the two parts of its path, the version, the number
-- on the next line, and what follows.
abbrev pub request_text : (word host pre suf number rest : Bytes) → Bytes
request_text word host pre suf number rest =
    word ++ (32 ∷ (codes "rtsp://" ++ (host ++ path_text pre suf (version_text number rest))))

-- The fields behind the version.
pub read_fields-printed :
    (m number rest back : Bytes) (c size next : ℕ) (s : Session)
    → drop next m ≡ version_text (c ∷ number) rest ++ back
    → is_blank c ≡ false
    → IsLine (c ∷ number)
    → length (c ∷ number) < 199
    → size ≡ next + length (version_text (c ∷ number) rest)
    → MissesLength (version_text (c ∷ number) rest) back
    → read_fields m size next s
      ≡ ok (record s { connection = record (s.connection) { c_seq = c ∷ number } }, true)
unfolding read_fields
read_fields-printed m number rest back c size next s e letter is_line short end misses =
    let line = codes "1.0" ++ (13 ∷ 10 ∷ []) in
    let behind : (number ++ (13 ∷ 10 ∷ rest)) ++ back ≡ number ++ (13 ∷ (10 ∷ (rest ++ back))) =
      append_assoc number (13 ∷ 10 ∷ rest) back in
    let all : drop next m
        ≡ line ++ (codes "CSeq:" ++ (32 ∷ (c ∷ (number ++ (13 ∷ (10 ∷ (rest ++ back))))))) =
      e ∙ ap (λ (t : Bytes). line ++ (codes "CSeq:" ++ (32 ∷ (c ∷ t)))) behind in
    let long = length-append number (13 ∷ 10 ∷ rest) in
    let found : find_at (size - 5 - next) (codes "CSeq:") m next ≡ some (next + 5) =
      find_at-front (size - 5 - next) (codes "CSeq:") m line _ next all
        (refl, (refl, (refl, (refl, (refl, tt))))) refl (omega (arith, long)) in
    let number_at : drop (next + 5 + 5) m ≡ 32 ∷ (c ∷ (number ++ (13 ∷ (10 ∷ (rest ++ back))))) =
      drop_part m (line ++ codes "CSeq:") _ next (next + 5 + 5) all (omega arith) in
    let read =
      read_c_seq-line m number (10 ∷ (rest ++ back)) c size next (next + 5) s.connection found
        number_at letter is_line short (omega (arith, long)) in
    let length_none =
      read_length-none size m (version_text (c ∷ number) rest) back size next s.content_length e
        misses (omega arith) (omega arith) in
    rw (read_fields, read) (rw (length_none) refl)

-- The transport that a text names.
abbrev pub transport_of : Bytes → Session → Bool
transport_of text s =
    if is_setup s.cmd_type
    then is_found (strstr text (codes "RTP/AVP/TCP"))
    else s.connection.tcp_transport

pub read_transport-text :
    (m text : Bytes) (s : Session)
    → string_at m ≡ ok text
    → read_transport m s
      ≡ ok (record s { connection = record (s.connection) { tcp_transport = transport_of text s } })
unfolding read_transport
read_transport-text m text s string = elim (Bool-cases (is_setup s.cmd_type)) [
  | inl is ↦ rw (read_transport, is) (rw (string) refl)
  | inr other ↦ rw (read_transport, other) refl
]

-- The parts of a request that can be told apart in its text.
pub record IsRequest (word host pre suf : Bytes) (c : ℕ) (number rest back : Bytes) : Type 0 where
  pub is_word : IsWord word
  pub short_word : length word < 199
  pub host_slash : Lacks 47 host
  pub host_space : Lacks 32 host
  pub pre_zero : Lacks 0 pre
  pub suf_zero : Lacks 0 suf
  pub suf_space : Lacks 32 suf
  pub suf_slash : Lacks 47 suf
  pub short_pre : length pre < 200
  pub short_suf : length suf < 200
  pub version :
      Misses
        (codes "RTSP/")
        (pre ++ (47 ∷ (suf ++ (32 ∷ []))))
        (codes "RTSP/" ++ (version_text (c ∷ number) rest ++ back))
  pub letter : is_blank c ≡ false
  pub is_line : IsLine (c ∷ number)
  pub short_number : length (c ∷ number) < 199
  pub no_length : MissesLength (version_text (c ∷ number) rest) back
  pub small : length (request_text word host pre suf (c ∷ number) rest) < 2 ^ 31

-- The session behind the request whose string is `text`.
abbrev pub session_of : (text word host pre suf number : Bytes) → Session → Session
session_of text word host pre suf number s =
    let typed = record s { cmd_type = command_type word s.cmd_type } in
    let buffer = host ++ drop (length host) s.host_port in
    record typed {
      host_port = buffer;
      connection = record (s.connection) {
        tcp_transport = transport_of text typed;
        url_host_port = c_string buffer;
        url_pre_suffix = pre;
        url_suffix = suf;
        c_seq = number;
      };
    }
