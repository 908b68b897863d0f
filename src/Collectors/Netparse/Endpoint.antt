-- ===== src/Collectors/Netparse/Endpoint.antt =====
-- Endpoints as the kernel prints them in /proc/net/tcp, read back by netparse.py.
use Prim.Native.Char.{Char, code}
use sentinel_linux.Prelude.{
  ℕ, suc, ◌+◌, ◌*◌, ◌/◌, ◌%◌, ◌<◌, ◌≡◌, refl, ap, ◌∙◌, Bool, true, false, ◌&&◌, none, some, List,
  [], ◌∷◌, if◌then◌else◌, String, eqb, leb, arith,
}
use sentinel_linux.Prelude.Int.{pos}
use sentinel_linux.Prelude.Text.{text_append, text_length, text_split}
use sentinel_linux.Prelude.Words.{
  is_space, hex_digit, hex_int_of, hex_signed, hex_prefixed, hex_from, positive, strip, Lacks,
}
use sentinel_linux.Collectors.Netparse.{parse_endpoint, parse_ipv4_hex, from_hex, ipv4_text}
use sentinel_linux.Collectors.Netparse.Digits.{hex_char, Digit, digit_lem}

-- `%02X` of a byte, in front of a text.
pub two_hex : ℕ → String → String
two_hex b rest = String.◌∷◌ (hex_char (b / 16)) (String.◌∷◌ (hex_char (b % 16)) rest)

-- The kernel prints an IPv4 address as one 32-bit word of a little-endian machine, and a port as a
-- 16-bit number.
pub kernel_address : ℕ → ℕ → ℕ → ℕ → String
kernel_address a b c d = two_hex d (two_hex c (two_hex b (two_hex a "")))

pub kernel_port : ℕ → String
kernel_port port = two_hex (port / 256) (two_hex (port % 256) "")

pub kernel_endpoint : ℕ → ℕ → ℕ → ℕ → ℕ → String
kernel_endpoint a b c d port =
    text_append (kernel_address a b c d) (String.◌∷◌ ":" (kernel_port port))

split_lacking : (sep : ℕ) (s : String) → Lacks sep s → text_split sep s ≡ s ∷ []
split_lacking sep String.[] h = refl
split_lacking sep (String.◌∷◌ c s) h = rw (h.0, split_lacking sep s h.1) refl

split_once :
    (sep : ℕ) (s t : String) (mark : Char)
    → Lacks sep s
    → Lacks sep t
    → eqb (code mark) sep ≡ true
    → text_split sep (text_append s (String.◌∷◌ mark t)) ≡ s ∷ t ∷ []
split_once sep String.[] t mark hs ht m = rw (m, split_lacking sep t ht) refl
split_once sep (String.◌∷◌ c s) t mark hs ht m = rw (hs.0, split_once sep s t mark hs.1 ht m) refl

text_length-two_hex :
    (b : ℕ) (rest : String) → text_length (two_hex b rest) ≡ suc (suc (text_length rest))
unfolding two_hex
text_length-two_hex b rest = refl

Lacks-two_hex : (b : ℕ) (rest : String) → b < 256 → Lacks b':' rest → Lacks b':' (two_hex b rest)
unfolding two_hex
Lacks-two_hex b rest lt h = (
  (digit_lem (b / 16) (omega (arith, lt))).no_colon,
  ((digit_lem (b % 16) (omega (arith, lt))).no_colon, h),
)

from_hex-two_hex :
    (b : ℕ) (rest : String) (bytes : List ℕ)
    → b < 256
    → from_hex rest ≡ some bytes
    → from_hex (two_hex b rest) ≡ some (b ∷ bytes)
unfolding two_hex
from_hex-two_hex b rest bytes lt h =
    let high = digit_lem (b / 16) (omega (arith, lt)) in
    let low = digit_lem (b % 16) (omega (arith, lt)) in
    let whole : b / 16 * 16 + b % 16 ≡ b = omega arith in
    rw (high.no_blank, high.value, low.value, h) (ap (λ n. some (n ∷ bytes)) whole)

address_lem :
    (a b c d : ℕ)
    → a < 256
    → b < 256
    → c < 256
    → d < 256
    → parse_ipv4_hex (kernel_address a b c d) ≡ some (ipv4_text (a ∷ b ∷ c ∷ d ∷ []))
unfolding parse_ipv4_hex kernel_address
address_lem a b c d ha hb hc hd =
    let bytes : from_hex (kernel_address a b c d) ≡ some (d ∷ c ∷ b ∷ a ∷ []) =
      from_hex-two_hex d _ _ hd (
        from_hex-two_hex c _ _ hc (from_hex-two_hex b _ _ hb (from_hex-two_hex a "" [] ha refl))) in
    let size : eqb (text_length (kernel_address a b c d)) 8 ≡ true = simp text_length-two_hex in
    rw (size, bytes) refl

-- Four characters as a text.
abbrev four : Char → Char → Char → Char → String
four a b c d = String.◌∷◌ a (String.◌∷◌ b (String.◌∷◌ c (String.◌∷◌ d "")))

strip-four :
    (a b c d : Char)
    → is_space (code a) ≡ false
    → is_space (code d) ≡ false
    → strip (four a b c d) ≡ four a b c d
strip-four a b c d ha hd = rw (ha, hd) refl

and_false : (b : Bool) → (b && false) ≡ false
and_false true = refl
and_false false = refl

unprefixed :
    (a b c d : Char)
    → eqb (code b) b'x' ≡ false
    → eqb (code b) b'X' ≡ false
    → hex_prefixed (four a b c d) ≡ hex_from 0 false (four a b c d)
unprefixed a b c d hx hxx = rw (hx, hxx) (rw (and_false (eqb (code a) b'0')) refl)

unsigned :
    (a b c d : Char)
    → eqb (code a) b'-' ≡ false
    → eqb (code a) b'+' ≡ false
    → hex_signed (four a b c d) ≡ positive (hex_prefixed (four a b c d))
unsigned a b c d hm hp = rw (hm, hp) refl

digits_four :
    (a b c d : Char) (m n k l : ℕ)
    → hex_digit (code a) ≡ some m
    → hex_digit (code b) ≡ some n
    → hex_digit (code c) ≡ some k
    → hex_digit (code d) ≡ some l
    → hex_from 0 false (four a b c d) ≡ some (((m * 16 + n) * 16 + k) * 16 + l)
digits_four a b c d m n k l ha hb hc hd = rw (ha, hb, hc, hd) (ap some (omega arith))

four_digits :
    (a b c d : ℕ)
    → Digit a
    → Digit b
    → Digit c
    → Digit d
    → hex_int_of (four (hex_char a) (hex_char b) (hex_char c) (hex_char d))
      ≡ some (pos (((a * 16 + b) * 16 + c) * 16 + d))
unfolding hex_int_of
four_digits a b c d ha hb hc hd =
    let w = hex_char a in
    let x = hex_char b in
    let y = hex_char c in
    let z = hex_char d in
    ap hex_signed (strip-four w x y z ha.no_space hd.no_space)
    ∙ unsigned w x y z ha.no_minus ha.no_plus
    ∙ ap positive (unprefixed w x y z hb.no_x hb.no_capital_x)
    ∙ ap positive (digits_four w x y z a b c d ha.value hb.value hc.value hd.value)

port_lem : (p : ℕ) → p < 65536 → hex_int_of (kernel_port p) ≡ some (pos p)
unfolding kernel_port two_hex
port_lem p lt =
    let high = p / 256 in
    let low = p % 256 in
    let whole : ((high / 16 * 16 + high % 16) * 16 + low / 16) * 16 + low % 16 ≡ p = omega arith in
    four_digits (high / 16) (high % 16) (low / 16) (low % 16)
      (digit_lem (high / 16) (omega (arith, lt))) (digit_lem (high % 16) (omega (arith, lt)))
      (digit_lem (low / 16) (omega (arith, lt))) (digit_lem (low % 16) (omega (arith, lt)))
    ∙ ap (λ n. some (pos n)) whole

-- An IPv4 endpoint as the kernel prints it is read back as its dotted address and its port, for
-- every address and every port.
pub parse_endpoint-kernel_endpoint :
    (ipv6_text : List ℕ → String) (a b c d port : ℕ)
    → a < 256
    → b < 256
    → c < 256
    → d < 256
    → port < 65536
    → parse_endpoint ipv6_text (kernel_endpoint a b c d port) false
      ≡ some (ipv4_text (a ∷ b ∷ c ∷ d ∷ []), port)
unfolding parse_endpoint kernel_endpoint kernel_address kernel_port
parse_endpoint-kernel_endpoint ipv6_text a b c d port ha hb hc hd hp =
    rw
      (split_once b':' (kernel_address a b c d) (kernel_port port) ":" address_lacks port_lacks
        refl)
      (rw (address_lem a b c d ha hb hc hd, port_lem port hp) (small hp))
  where
    address_lacks : Lacks b':' (kernel_address a b c d)
    address_lacks = Lacks-two_hex d (two_hex c (two_hex b (two_hex a ""))) hd (
        Lacks-two_hex c (two_hex b (two_hex a "")) hc
          (Lacks-two_hex b (two_hex a "") hb (Lacks-two_hex a "" ha tt)))

    port_lacks : Lacks b':' (kernel_port port)
    port_lacks =
        Lacks-two_hex (port / 256) (two_hex (port % 256) "") (omega (arith, hp))
          (Lacks-two_hex (port % 256) "" (omega arith) tt)

    small : {A : Type 0} {x : A} → port < 65536 → (if leb port 65535 then some x else none) ≡ some x
    small lt = ground arith
