-- ===== src/Config/Tests.antt =====
-- A text with an option, a section and a word in quotes, parsed and read.
use udp_stuff.Base.{
  ℕ, ◌≡◌, ◌⊎◌, refl, arith, [], ◌∷◌, Bytes, done, throws, out_of_range, parse_error,
}
use udp_stuff.Config.Parser.{parse}
use udp_stuff.Config.Parser.Ends.{parse_total}
use udp_stuff.Config.Reader.{get, cvt_str}
use udp_stuff.Config.Reader.Options.{Opt, IsOpt, encode, lookup, get-encode}

-- `a b`, and `c` on a line of its own
abbrev text : Bytes
text = b'a' ∷ b' ' ∷ b'b' ∷ b'\n' ∷ b'c' ∷ b'\n' ∷ []

abbrev a_b : Opt
a_b = record { name = b'a' ∷ []; value = b'b' ∷ [] }

abbrev c_alone : Opt
c_alone = record { name = b'c' ∷ []; value = [] }

abbrev section : Bytes
section = b's' ∷ b'{' ∷ b'a' ∷ b' ' ∷ b'"' ∷ b'{' ∷ b'"' ∷ b'}' ∷ []

text_parsed : parse text ≡ done (encode (a_b ∷ c_alone ∷ []))
unfolding parse
text_parsed = refl

section_parsed :
    parse section ≡ done (15 ∷ 0 ∷ 0 ∷ 0 ∷ b's' ∷ 0 ∷ 0 ∷ 8 ∷ 0 ∷ 0 ∷ 0 ∷ b'a' ∷ 0 ∷ b'{' ∷ 0 ∷ [])
unfolding parse
section_parsed = refl

open_refused : parse (b'\n' ∷ b'}' ∷ []) ≡ throws (parse_error 1)
unfolding parse
open_refused = refl

a_read : get cvt_str (encode (a_b ∷ c_alone ∷ [])) (b'a' ∷ []) ≡ done (b'b' ∷ [])
unfolding get
a_read = refl

c_read : get cvt_str (encode (a_b ∷ c_alone ∷ [])) (b'c' ∷ []) ≡ throws out_of_range
unfolding get
c_read = refl

parse_total_example :
    ((v : Bytes) × (parse section ≡ done v)) ⊎ ((n : ℕ) × (parse section ≡ throws (parse_error n)))
parse_total_example = parse_total section

a_b-IsOpt : IsOpt a_b
a_b-IsOpt = record { name_ok = (omega arith, tt); value_ok = (omega arith, tt); fits = omega arith }

c_alone-IsOpt : IsOpt c_alone
c_alone-IsOpt = record { name_ok = (omega arith, tt); value_ok = tt; fits = omega arith }

get-encode_example :
    get cvt_str (encode (a_b ∷ c_alone ∷ [])) (b'c' ∷ []) ≡ lookup (a_b ∷ c_alone ∷ []) (b'c' ∷ [])
get-encode_example =
    get-encode (a_b ∷ c_alone ∷ []) (b'c' ∷ []) (a_b-IsOpt, (c_alone-IsOpt, tt)) (omega arith, tt)
