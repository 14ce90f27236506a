-- ===== src/Http/UrlDecode/RoundTrip.antt =====
-- Percent encoding is undone.
use camlispp.Prelude.{
  ℕ, suc, ◌+◌, ◌-◌, ◌/◌, ◌%◌, ◌≤◌, ◌<◌, ◌≡◌, ◌≢◌, refl, ap, ◌∙◌, Bool, true, false, ◌||◌, [], ◌∷◌,
  Option, none, some, arith, ltb, ◌==◌, if◌then◌else◌, length, Bool-cases, inl, inr,
}
use camlispp.StdString.{Bytes, IsBytes}
use camlispp.Http.UrlDecode.{url_decode, hex_byte, plain, push, push_hex}

abbrev hex_char : ℕ → ℕ
hex_char d = if ltb d 10 then b'0' + d else b'A' + (d - 10)

-- Each byte stands for itself or as a percent sign and two digits, as `escapes` says; the percent
-- sign, the plus sign are always escaped.
abbrev pub percent_encode : (ℕ → Bool) → Bytes → Bytes
percent_encode escapes [] = []
percent_encode escapes (c ∷ cs) =
    if escapes c || c == b'%' || c == b'+'
    then b'%' ∷ hex_char (c / 16) ∷ hex_char (c % 16) ∷ percent_encode escapes cs
    else c ∷ percent_encode escapes cs

hex_byte-hex_char : (c : ℕ) → c < 256 → hex_byte (hex_char (c / 16)) (hex_char (c % 16)) ≡ some c
unfolding hex_byte
hex_byte-hex_char c h = ground arith

decode-escaped :
    (c : ℕ) (cs : Bytes)
    → c < 256
    → url_decode (b'%' ∷ hex_char (c / 16) ∷ hex_char (c % 16) ∷ cs) ≡ push c (url_decode cs)
unfolding url_decode
decode-escaped c cs h = rw (hex_byte-hex_char c h, push_hex)

decode-plain :
    (c : ℕ) (cs : Bytes) → c ≢ b'%' → c ≢ b'+' → url_decode (c ∷ cs) ≡ push c (url_decode cs)
unfolding url_decode
decode-plain c [] h k = ground arith
decode-plain c (a ∷ []) h k = ground arith
decode-plain c (a ∷ b ∷ cs) h k = ground arith

-- What is percent-encoded is decoded to the same bytes, whichever further bytes are escaped.
pub url_decode-percent_encode :
    (escapes : ℕ → Bool) (s : Bytes) → IsBytes s → url_decode (percent_encode escapes s) ≡ some s
url_decode-percent_encode escapes [] h = unfold url_decode in refl
url_decode-percent_encode escapes (c ∷ cs) h =
    elim (Bool-cases (escapes c || c == b'%' || c == b'+')) [
      | inl yes' ↦
          rw yes' (decode-escaped c _ h.0 ∙ ap (push c) (url_decode-percent_encode escapes cs h.1))
      | inr no' ↦ rw no' (
          decode-plain c _ (ground arith) (ground arith)
          ∙ ap (push c) (url_decode-percent_encode escapes cs h.1))
    ]

abbrev IsAtMost : ℕ → Option Bytes → Type 0
IsAtMost n none = Unit
IsAtMost n (some t) = length t ≤ n

push-IsAtMost : (c n : ℕ) (o : Option Bytes) → IsAtMost n o → IsAtMost (suc n) (push c o)
push-IsAtMost c n none h = tt
push-IsAtMost c n (some t) h = omega arith

push_hex-IsAtMost :
    (v : Option ℕ) (n : ℕ) (o : Option Bytes)
    → IsAtMost n o
    → IsAtMost (suc (suc (suc n))) (push_hex v o)
push_hex-IsAtMost none n o h = tt
push_hex-IsAtMost (some c) n none h = tt
push_hex-IsAtMost (some c) n (some t) h = omega arith

if-IsAtMost :
    (b : Bool) (n : ℕ) (x y : Option Bytes)
    → IsAtMost n x
    → IsAtMost n y
    → IsAtMost n (if b then x else y)
if-IsAtMost true n x y h k = h
if-IsAtMost false n x y h k = k

url_decode-IsAtMost : (s : Bytes) → IsAtMost (length s) (url_decode s)
unfolding url_decode
url_decode-IsAtMost [] = omega arith
url_decode-IsAtMost (c ∷ []) = if-IsAtMost (c == b'%') _ _ _ tt (omega arith)
url_decode-IsAtMost (c ∷ a ∷ []) =
    if-IsAtMost (c == b'%') _ _ _ tt (push-IsAtMost (plain c) _ _ (url_decode-IsAtMost (a ∷ [])))
url_decode-IsAtMost (c ∷ a ∷ b ∷ cs) =
    if-IsAtMost (c == b'%') _ _ _ (push_hex-IsAtMost (hex_byte a b) _ _ (url_decode-IsAtMost cs))
      (push-IsAtMost (plain c) _ _ (url_decode-IsAtMost (a ∷ b ∷ cs)))

-- A decoded text is no longer than the text that it was decoded from.
pub length-url_decode : (s t : Bytes) → url_decode s ≡ some t → length t ≤ length s
length-url_decode s t e = rw e at (url_decode-IsAtMost s)
