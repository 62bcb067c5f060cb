-- ===== src/Rtsp.antt =====
-- src/libs/TcpConnection.cpp: the state of an RTSP session, and the text of its answers. A C string
-- is the list of its bytes, without the zero at its end.
pub mod Loops
pub mod Handlers
pub mod Command
pub mod Strings
pub mod ClientPort
pub mod Url
pub mod Fields
pub mod Places
pub mod Request
use Prim.Native.Char.{code}
use Prim.Native.String.{String}
use payloader.Base.{
  ℕ, zero, suc, ◌+◌, ◌-◌, ◌/◌, ◌%◌, ◌^◌, List, [], ◌∷◌, ◌++◌, Bool, true, false, ◌&&◌, ◌==◌, ltb,
  if◌then◌else◌, Bytes, take, length,
}

-- The bytes of a text in ASCII.
abbrev pub codes : String → Bytes
codes String.[] = []
codes (String.◌∷◌ c rest) = code c ∷ codes rest

-- A line of an answer, with the end of line behind it.
abbrev pub line : Bytes → Bytes
line text = text ++ (13 ∷ 10 ∷ [])

abbrev pub empty_line : Bytes
empty_line = 13 ∷ 10 ∷ []

-- `printf("%i")` of the pattern of an `int`; an `int` has at most ten digits.
abbrev pub digits : ℕ → ℕ → Bytes
digits zero n = []
digits (suc more) n = (if ltb n 10 then [] else digits more (n / 10)) ++ ((48 + n % 10) ∷ [])

abbrev pub print_int : ℕ → Bytes
print_int n = if ltb n (2 ^ 31) then digits 10 n else 45 ∷ digits 10 (2 ^ 32 - n)

-- `snprintf` writes at most `size - 1` bytes and a zero.
abbrev pub snprintf : ℕ → Bytes → Bytes
snprintf size text = take (size - 1) text

-- `strcmp(a, b) == 0`
abbrev pub strcmp_eq : Bytes → Bytes → Bool
strcmp_eq [] [] = true
strcmp_eq (x ∷ xs) (y ∷ ys) = (x == y) && strcmp_eq xs ys
strcmp_eq _ _ = false

-- `session_id` and the ports are patterns; `stream_id` is -1 for `none`.
pub record Connection : Type 0 where
  pub session_id : ℕ
  pub client_rtp_port : ℕ
  pub client_rtcp_port : ℕ
  pub tcp_transport : Bool
  pub connected : Bool
  pub url_pre_suffix : Bytes
  pub url_suffix : Bytes
  pub c_seq : Bytes
  pub url_host_port : Bytes
  pub date : Bytes
