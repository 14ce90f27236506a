-- ===== src/Http/UrlDecode/Types.antt =====
-- A decoded text is one of bytes.
use camlispp.Prelude.{ℕ, ◌<◌, ◌≤◌, ◌≡◌, [], ◌∷◌, length, Option, none, some, arith, ◌==◌, if-P}
use camlispp.StdString.{Bytes, IsBytes}
use camlispp.Http.UrlDecode.{
  is_space, hex_number, low_byte, negated, signed_hex, hex_byte, plain, push, push_hex, url_decode,
}
use camlispp.Http.UrlDecode.RoundTrip.{length-url_decode}

abbrev IsByteIf : Option ℕ → Type 0
IsByteIf none = Unit
IsByteIf (some c) = c < 256

abbrev AreBytesIf : Option Bytes → Type 0
AreBytesIf none = Unit
AreBytesIf (some s) = IsBytes s

low_byte-IsByteIf : (o : Option ℕ) → IsByteIf (low_byte o)
low_byte-IsByteIf none = tt
low_byte-IsByteIf (some n) = omega arith

negated-IsByteIf : (o : Option ℕ) → IsByteIf (negated o)
negated-IsByteIf none = tt
negated-IsByteIf (some n) = omega arith

signed_hex-IsByteIf : (s : Bytes) → IsByteIf (signed_hex s)
unfolding signed_hex
signed_hex-IsByteIf [] = tt
signed_hex-IsByteIf (c ∷ cs) =
    if-P IsByteIf (c == b'-') _ _ (λ _. negated-IsByteIf (hex_number cs))
      λ _.
        if-P IsByteIf (c == b'+') _ _ (λ _. low_byte-IsByteIf (hex_number cs))
          (λ _. low_byte-IsByteIf (hex_number (c ∷ cs)))

hex_byte-IsByteIf : (a b : ℕ) → IsByteIf (hex_byte a b)
unfolding hex_byte
hex_byte-IsByteIf a b =
    if-P IsByteIf (is_space a) _ _
      (λ _. if-P IsByteIf (is_space b) _ _ (λ _. tt) (λ _. signed_hex-IsByteIf (b ∷ [])))
      (λ _. signed_hex-IsByteIf (a ∷ b ∷ []))

push-AreBytesIf : (c : ℕ) (o : Option Bytes) → c < 256 → AreBytesIf o → AreBytesIf (push c o)
push-AreBytesIf c none h k = tt
push-AreBytesIf c (some s) h k = (h, k)

push_hex-AreBytesIf :
    (h : Option ℕ) (o : Option Bytes) → IsByteIf h → AreBytesIf o → AreBytesIf (push_hex h o)
push_hex-AreBytesIf none o h k = tt
push_hex-AreBytesIf (some c) o h k = push-AreBytesIf c o h k

plain_lem : (c : ℕ) → c < 256 → plain c < 256
plain_lem c h = ground arith

url_decode-AreBytesIf : (s : Bytes) → IsBytes s → AreBytesIf (url_decode s)
unfolding url_decode
url_decode-AreBytesIf [] h = tt
url_decode-AreBytesIf (c ∷ []) h =
    if-P AreBytesIf (c == b'%') _ _ (λ _. tt) (λ _. (plain_lem c h.0, tt))
url_decode-AreBytesIf (c ∷ a ∷ []) h =
    if-P AreBytesIf (c == b'%') _ _ (λ _. tt)
      (λ _. push-AreBytesIf (plain c) _ (plain_lem c h.0) (url_decode-AreBytesIf (a ∷ []) h.1))
url_decode-AreBytesIf (c ∷ a ∷ b ∷ cs) h =
    if-P AreBytesIf (c == b'%') _ _
      (λ _.
        push_hex-AreBytesIf (hex_byte a b) _ (hex_byte-IsByteIf a b)
          (url_decode-AreBytesIf cs h.1.1.1))
      (λ _. push-AreBytesIf (plain c) _ (plain_lem c h.0) (url_decode-AreBytesIf (a ∷ b ∷ cs) h.1))

-- A text of bytes is decoded to a text of bytes, whatever escapes it has, negative and cut short ones
-- among them, and one that is no longer.
pub url_decode-IsBytes :
    (s t : Bytes) → IsBytes s → url_decode s ≡ some t → IsBytes t × (length t ≤ length s)
url_decode-IsBytes s t h e = (rw e at (url_decode-AreBytesIf s h), length-url_decode s t e)
