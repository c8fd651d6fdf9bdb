-- ===== src/Util/Tests.antt =====
-- Runs of the functions of `StringUtil`, and of their theorems.
use civan.Common.{codes, true, ◌≡◌, refl, ◌∷◌, ◌++◌, arith}
use civan.Util.Url.{url_encode, url_decode}
use civan.Util.Loops.{encode_all, decode_all, url_encode-encode_all, url_decode-decode_all}
use civan.Util.RoundTrip.{url_decode-url_encode}
use civan.Util.Trim.{trim, trim_left, trim_right, blanks, is_delimit}
use civan.Util.Ends.{drop_front, drop_back, trim-drop_back, trim_right_lem}

encode_run : url_encode (codes "a b=c&d~+") true ≡ codes "a+b=c%26d~%2B"
unfolding url_encode
encode_run = refl

decode_run : url_decode (codes "a+b=c%26d%2%zz%41%4") true ≡ codes "a b=c&d%2%zzA%4"
unfolding url_decode
decode_run = refl

trim_run : trim (codes " a b  ") blanks ≡ codes "a b"
unfolding trim is_delimit
trim_run = refl

trim_left_run : trim_left (codes " a b  ") blanks ≡ codes "a b  "
unfolding trim_left is_delimit
trim_left_run = refl

url_encode-encode_all_example : url_encode (codes "a b") true ≡ encode_all true (codes "a b")
url_encode-encode_all_example = url_encode-encode_all (codes "a b") true

url_decode-decode_all_run : url_decode (codes "%41+%2") true ≡ decode_all true 0 (codes "%41+%2")
url_decode-decode_all_run = url_decode-decode_all (codes "%41+%2") true

url_decode-url_encode_example : url_decode (url_encode (codes "1 + 1") true) true ≡ codes "1 + 1"
url_decode-url_encode_example =
    url_decode-url_encode (codes "1 + 1") true
      (omega arith, (omega arith, (omega arith, (omega arith, (omega arith, tt)))))

trim-drop_back_example :
    trim (codes " a b ") blanks ≡ drop_back blanks (drop_front blanks (codes " a b "))
trim-drop_back_example = trim-drop_back (codes " a b ") blanks

trim_right_lem_example : trim_right (codes " a" ++ b'b' ∷ codes "  ") blanks ≡ codes " a"
unfolding is_delimit
trim_right_lem_example =
    trim_right_lem blanks (codes " a") b'b' (codes "  ") refl (refl, (refl, tt))
