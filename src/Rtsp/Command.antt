-- ===== src/Rtsp/Command.antt =====
-- `ParseRtspRequest` of src/libs/TcpConnection.cpp: the command at the front of a request. The rest
-- of the request is not read here.
pub mod Word
use payloader.Base.{
  ℕ, zero, suc, ◌+◌, List, [], ◌∷◌, Bool, true, false, Option, none, some, ◌==◌, ◌||◌, ltb,
  if◌then◌else◌, drop, Bytes, Outcome, ok, fault, ◌>>=◌,
}
use payloader.Rtsp.{codes}

pub data RtspCmdType : Type 0 where
  options describe setup play teardown pause unknown : RtspCmdType

-- `CurRequest[k]`
abbrev pub byte_at : Bytes → ℕ → Outcome ℕ
byte_at request k = elim (drop k request) [ [] ↦ fault | c ∷ _ ↦ ok c ]

unfoldable pub is_blank : ℕ → Bool
is_blank c = (c == 32) || (c == 9)

-- `sizeof(CmdName) - 1`
abbrev pub command_room : ℕ
command_room = 199

abbrev pub prepend : ℕ → Option (Bytes × ℕ) → Option (Bytes × ℕ)
prepend c none = none
prepend c (some (name, at)) = some (c ∷ name, at)

-- The body of the loop for the byte `c` at `i`; `rest` is what the later rounds find.
unfoldable pub command_byte :
    (i : ℕ) → Outcome (Option (Bytes × ℕ)) → ℕ → Outcome (Option (Bytes × ℕ))
command_byte i rest c =
    if is_blank c then ok (some ([], i)) else (rest >>= λ found. ok (prepend c found))

-- The loop that copies up to the first blank, for at most `room` bytes from `i` on: the bytes and
-- the place of the blank, or `none` if there is none.
unfoldable pub read_command : (room : ℕ) → Bytes → (size i : ℕ) → Outcome (Option (Bytes × ℕ))
read_command zero request size i = ok none
read_command (suc room) request size i =
    let rest = read_command room request size (i + 1) in
    if ltb i size then (byte_at request i >>= command_byte i rest) else ok none

abbrev pub starts_with : Bytes → Bytes → Bool
starts_with [] text = true
starts_with (p ∷ ps) [] = false
starts_with (p ∷ ps) (c ∷ text) = if p == c then starts_with ps text else false

-- `strstr(text, pattern) != nullptr`
abbrev pub contains : Bytes → Bytes → Bool
contains pattern [] = starts_with pattern []
contains pattern (c ∷ text) = starts_with pattern (c ∷ text) || contains pattern text

-- The part of a buffer that is a C string.
abbrev pub c_string : Bytes → Bytes
c_string [] = []
c_string (c ∷ text) = if c == 0 then [] else c ∷ c_string text

-- The type that the name selects; `old` is the type of the request before.
unfoldable pub command_type : (name : Bytes) (old : RtspCmdType) → RtspCmdType
command_type name old =
    let text = c_string name in
    if contains (codes "OPTIONS") text
    then options
    else (if contains (codes "DESCRIBE") text
        then describe
        else (if contains (codes "SETUP") text
            then setup
            else (if contains (codes "PLAY") text
                then play
                else (if contains (codes "PAUSE") text
                    then pause
                    else (if contains (codes "TEARDOWN") text then teardown else old)))))
