-- ===== src/Rtp/Header/Calls.antt =====
-- Sequences of calls of the setters of class RtpHeader in src/libs/rtp/RtpHeaders.h.
use payloader.Base.{
  ℕ, ap, ◌∙◌, refl, ◌%◌, ◌^◌, ◌<◌, ◌≡◌, arith, List, [], ◌∷◌, ◌++◌, some, Bytes, swap16, swap32,
}
use payloader.Rtp.Header.{
  RtpHeader, IsHeader, new_header, set_version, set_marker, set_extension, set_cc, set_payload_type,
  set_seq_number, set_timestamp, set_ssrc, set_ext_id, set_ext_length, get_version, get_marker,
  get_extension, get_cc, get_payload_type, get_seq_number, get_timestamp, get_ssrc, get_ext_id,
  get_ext_length,
}
use payloader.Rtp.Header.Accessors.{get-set, new_header-IsHeader}
use payloader.Rtp.Header.Image.{image, read_header}
use payloader.Rtp.Header.Wire.{read_header-image}

-- A setter, with the argument of its call.
pub data SetCall : Type 0 where
  version marker extension cc payload_type seq_number timestamp ssrc ext_id ext_length : ℕ → SetCall

pub set_one : SetCall → RtpHeader → RtpHeader
set_one (version v) h = set_version v h
set_one (marker v) h = set_marker v h
set_one (extension v) h = set_extension v h
set_one (cc v) h = set_cc v h
set_one (payload_type v) h = set_payload_type v h
set_one (seq_number v) h = set_seq_number v h
set_one (timestamp v) h = set_timestamp v h
set_one (ssrc v) h = set_ssrc v h
set_one (ext_id v) h = set_ext_id v h
set_one (ext_length v) h = set_ext_length v h

pub set_all : List SetCall → RtpHeader → RtpHeader
set_all [] h = h
set_all (c ∷ cs) h = set_all cs (set_one c h)

set_one-IsHeader : (c : SetCall) (h : RtpHeader) → IsHeader h → IsHeader (set_one c h)
unfolding set_one set_seq_number set_timestamp set_ssrc set_ext_id set_ext_length swap16 swap32
set_one-IsHeader (version v) h fits = omega arith
set_one-IsHeader (marker v) h fits = omega arith
set_one-IsHeader (extension v) h fits = omega arith
set_one-IsHeader (cc v) h fits = omega arith
set_one-IsHeader (payload_type v) h fits = omega arith
set_one-IsHeader (seq_number v) h fits = omega arith
set_one-IsHeader (timestamp v) h fits = omega arith
set_one-IsHeader (ssrc v) h fits = omega arith
set_one-IsHeader (ext_id v) h fits = omega arith
set_one-IsHeader (ext_length v) h fits = omega arith

-- The fields as numbers of the host: what a user of the class sees.
pub record Fields : Type 0 where
  pub version : ℕ
  pub marker : ℕ
  pub extension : ℕ
  pub cc : ℕ
  pub payload_type : ℕ
  pub seq_number : ℕ
  pub timestamp : ℕ
  pub ssrc : ℕ
  pub ext_id : ℕ
  pub ext_length : ℕ

-- What the getters return.
abbrev pub fields : RtpHeader → Fields
fields h = record {
  version = get_version h;
  marker = get_marker h;
  extension = get_extension h;
  cc = get_cc h;
  payload_type = get_payload_type h;
  seq_number = get_seq_number h;
  timestamp = get_timestamp h;
  ssrc = get_ssrc h;
  ext_id = get_ext_id h;
  ext_length = get_ext_length h;
}

-- A call as an assignment to one field, which keeps the bits that the standard gives the field.
abbrev pub assign : SetCall → Fields → Fields
assign (SetCall.version v) f = record f { version = v % 2 ^ 2 }
assign (SetCall.marker v) f = record f { marker = v % 2 }
assign (SetCall.extension v) f = record f { extension = v % 2 }
assign (SetCall.cc v) f = record f { cc = v % 2 ^ 4 }
assign (SetCall.payload_type v) f = record f { payload_type = v % 2 ^ 7 }
assign (SetCall.seq_number v) f = record f { seq_number = v % 2 ^ 16 }
assign (SetCall.timestamp v) f = record f { timestamp = v % 2 ^ 32 }
assign (SetCall.ssrc v) f = record f { ssrc = v % 2 ^ 32 }
assign (SetCall.ext_id v) f = record f { ext_id = v % 2 ^ 16 }
assign (SetCall.ext_length v) f = record f { ext_length = v % 2 ^ 16 }

abbrev pub assign_all : List SetCall → Fields → Fields
assign_all [] f = f
assign_all (c ∷ cs) f = assign_all cs (assign c f)

set_one-assign : (c : SetCall) (h : RtpHeader) → fields (set_one c h) ≡ assign c (fields h)
unfolding set_one get_seq_number set_seq_number get_timestamp set_timestamp get_ssrc set_ssrc
    get_ext_id set_ext_id get_ext_length set_ext_length
set_one-assign (version v) h = ap (λ (n : ℕ). record (fields h) { version = n }) (get-set h v).0
set_one-assign (marker v) h = ap (λ (n : ℕ). record (fields h) { marker = n }) (get-set h v).1
set_one-assign (extension v) h = ap (λ (n : ℕ). record (fields h) { extension = n }) (get-set h v).2
set_one-assign (cc v) h = ap (λ (n : ℕ). record (fields h) { cc = n }) (get-set h v).3
set_one-assign (payload_type v) h =
    ap (λ (n : ℕ). record (fields h) { payload_type = n }) (get-set h v).4
set_one-assign (seq_number v) h =
    ap (λ (n : ℕ). record (fields h) { seq_number = n }) (get-set h v).5
set_one-assign (timestamp v) h = ap (λ (n : ℕ). record (fields h) { timestamp = n }) (get-set h v).6
set_one-assign (ssrc v) h = ap (λ (n : ℕ). record (fields h) { ssrc = n }) (get-set h v).7
set_one-assign (ext_id v) h = ap (λ (n : ℕ). record (fields h) { ext_id = n }) (get-set h v).8
set_one-assign (ext_length v) h =
    ap (λ (n : ℕ). record (fields h) { ext_length = n }) (get-set h v).9

-- The class refines a record with its fields in the host's byte order: after any calls of the setters,
-- in any order, with any arguments and at any header, what the getters return is what assignments of the
-- low bits to the fields of such a record leave.
pub set_all-assign_all :
    (cs : List SetCall) (h : RtpHeader) → fields (set_all cs h) ≡ assign_all cs (fields h)
unfolding set_all
set_all-assign_all [] h = refl
set_all-assign_all (c ∷ cs) h =
    set_all-assign_all cs (set_one c h) ∙ ap (assign_all cs) (set_one-assign c h)

set_all-kept : (cs : List SetCall) (h : RtpHeader) → IsHeader h → IsHeader (set_all cs h)
unfolding set_all
set_all-kept [] h fits = fits
set_all-kept (c ∷ cs) h fits = set_all-kept cs (set_one c h) (set_one-IsHeader c h fits)

-- Whatever calls of the setters are made at a new header, in any order and with any arguments: every
-- field stays within the bits that the class gives it, and the memory of the header is read back as the
-- same header, whatever stands behind it.
pub set_all-IsHeader :
    (cs : List SetCall) (garbage : ℕ) (rest : Bytes)
    → garbage < 2 ^ 32
    → IsHeader (set_all cs (new_header garbage))
      × (read_header (image (set_all cs (new_header garbage)) ++ rest)
          ≡ some (set_all cs (new_header garbage)))
set_all-IsHeader cs garbage rest small =
    let fits = set_all-kept cs (new_header garbage) (new_header-IsHeader garbage small) in
    (fits, read_header-image (set_all cs (new_header garbage)) rest fits)
