-- ===== src/Rtsp/Url/Path.antt =====
-- The two parts of the path of a URL that is written out.
use mathlib.Core.List.{append_assoc}
use payloader.Base.{
  ℕ, suc, ◌+◌, ◌-◌, ◌^◌, ◌<◌, ◌≡◌, refl, sym, ap, ◌∙◌, arith, [], ◌∷◌, ◌++◌, false, some, ◌==◌, ltb,
  u32, Bytes, take, drop, length, length-append, take-append, ok,
}
use payloader.Rtsp.{Connection, codes}
use payloader.Rtsp.Command.{c_string}
use payloader.Rtsp.Places.{
  drop_next, byte_front, drop_part, Lacks, byte_of_part, Misses, find_at-front,
}
use payloader.Rtsp.Url.Printed.{skip_back-blank, back_to_slash-part}
use payloader.Rtsp.Url.{
  find_at, skip_back, back_to_slash, slice, store_parts, read_suffix, param_size,
}

pub c_string-Lacks : (text : Bytes) → Lacks 0 text → c_string text ≡ text
c_string-Lacks [] lacks = refl
c_string-Lacks (c ∷ cs) (one, lacks) = rw (one, c_string-Lacks cs lacks)

slice-part :
    (m part rest : Bytes) (from to : ℕ)
    → drop from m ≡ part ++ rest
    → to + 1 ≡ from + length part
    → slice m from to ≡ part
slice-part m part rest from to e size =
    let n : to + 1 - from ≡ length part = omega arith in
    ap (λ (t : Bytes). take (to + 1 - from) t) e ∙ take-append part rest (to + 1 - from) n

module _ (m pre suf rest : Bytes) (size i : ℕ) (c : Connection)
    (e : drop i m ≡ 47 ∷ (pre ++ (47 ∷ (suf ++ (32 ∷ (codes "RTSP/" ++ rest)))))) where
  -- The place of the last slash, and of the last byte of the path.
  abbrev k1 : ℕ
  k1 = i + 1 + length pre

  abbrev k : ℕ
  k = k1 + length suf

  behind_first : drop (i + 1) m ≡ pre ++ (47 ∷ (suf ++ (32 ∷ (codes "RTSP/" ++ rest))))
  behind_first = drop_next m _ 47 i e

  at_last : drop k1 m ≡ 47 ∷ (suf ++ (32 ∷ (codes "RTSP/" ++ rest)))
  at_last = drop_part m pre _ (i + 1) k1 behind_first refl

  at_blank : drop (suc k) m ≡ 32 ∷ (codes "RTSP/" ++ rest)
  at_blank = drop_part m (47 ∷ suf) _ k1 (suc k) at_last (omega arith)

  store_parts-path :
      length pre < 200
      → length suf < 200
      → i < 2 ^ 31
      → Lacks 0 pre
      → Lacks 0 suf
      → store_parts m i k1 k c
        ≡ ok (record c { url_suffix = suf; url_pre_suffix = pre }, some (k + 7))
  unfolding store_parts
  store_parts-path short_pre short_suf small no_zero_pre no_zero_suf =
      let behind = drop_next m _ 47 k1 at_last in
      let suffix : c_string (slice m (k1 + 1) k) ≡ suf =
        ap c_string (slice-part m suf _ (k1 + 1) k behind (omega arith))
        ∙ c_string-Lacks suf no_zero_suf in
      let prefix : c_string (slice m (i + 1) (k1 - 1)) ≡ pre =
        ap c_string (slice-part m pre _ (i + 1) (k1 - 1) behind_first (omega arith))
        ∙ c_string-Lacks pre no_zero_pre in
      let one : ltb param_size (k - k1 + 1) ≡ false = ground arith in
      let two : ltb param_size (u32 (k1 + 2 ^ 32 - i)) ≡ false = ground arith in
      let three : (k1 == 0) ≡ false = ground arith in
      rw (store_parts, suffix, prefix) (rw (one) (rw (two) (rw (three) refl)))

  joined :
      (behind : Bytes)
      → (pre ++ (47 ∷ (suf ++ (32 ∷ [])))) ++ behind ≡ pre ++ (47 ∷ (suf ++ (32 ∷ behind)))
  joined behind =
      append_assoc pre (47 ∷ (suf ++ (32 ∷ []))) behind
      ∙ ap (λ (t : Bytes). pre ++ (47 ∷ t)) (append_assoc suf (32 ∷ []) behind)

  -- The two parts between the slash at `i` and the version become the strings of the connection, and the
  -- reading goes on inside the version.
  pub read_suffix-path :
      Misses (codes "RTSP/") (pre ++ (47 ∷ (suf ++ (32 ∷ [])))) (codes "RTSP/" ++ rest)
      → length pre < 200
      → length suf < 200
      → i < 2 ^ 31
      → Lacks 0 pre
      → Lacks 0 suf
      → Lacks 32 suf
      → Lacks 47 suf
      → k + 9 < size
      → read_suffix m size i c
        ≡ ok (record c { url_suffix = suf; url_pre_suffix = pre }, some (k + 7))
  unfolding read_suffix
  read_suffix-path misses short_pre short_suf small no_zero_pre no_zero_suf space slash inside =
      let front = pre ++ (47 ∷ (suf ++ (32 ∷ []))) in
      let whole : drop (i + 1) m ≡ front ++ (codes "RTSP/" ++ rest) =
        behind_first ∙ sym (joined (codes "RTSP/" ++ rest)) in
      let long : length front ≡ length pre + length suf + 2 =
        omega (arith, length-append pre (47 ∷ (suf ++ (32 ∷ []))), length-append suf (32 ∷ [])) in
      let found : find_at (size - 5 - (i + 1)) (codes "RTSP/") m (i + 1)
          ≡ some (i + 1 + length front) =
        find_at-front (size - 5 - (i + 1)) (codes "RTSP/") m front (codes "RTSP/" ++ rest) (i + 1)
          whole misses refl (omega (arith, long)) in
      let back : i + 1 + length front - 1 ≡ suc k = omega (arith, long) in
      let (b, byte, letter) =
        byte_of_part 32 m (47 ∷ suf) _ k1 (length suf) (refl, space) at_last (omega arith) in
      let skipped : skip_back (suc k) m i ≡ ok k =
        skip_back-blank m k i b (byte_front m _ 32 (suc k) at_blank) byte letter (omega arith)
          (omega arith) in
      let to_slash : back_to_slash k m i ≡ ok k1 =
        back_to_slash-part m suf _ i k1 (length suf) slash at_last (omega arith) (omega arith) in
      rw (read_suffix, found)
        (rw (back) (
          rw (skipped)
            (rw (to_slash) (store_parts-path short_pre short_suf small no_zero_pre no_zero_suf))))
