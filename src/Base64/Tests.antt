-- ===== src/Base64/Tests.antt =====
-- The encoding and the decoding on concrete bytes.
use web_socket_cpp.Base.{some, ◌≡◌, refl, arith, codes, ByteArray, IsBytes}
use web_socket_cpp.Base64.{encode, decode, digit, first_six, second_six, third_six, fourth_six}
use web_socket_cpp.Base64.RoundTrip.{decode-encode}

abbrev word : ByteArray
word = codes "light"

word-IsBytes : IsBytes word
word-IsBytes = (omega arith, (omega arith, (omega arith, (omega arith, (omega arith, tt)))))

decode-encode_example : decode (encode word) ≡ some word
decode-encode_example = decode-encode word word-IsBytes (omega arith)

encode-word : encode word ≡ codes "bGlnaHQ="
unfolding encode digit first_six second_six third_six fourth_six
encode-word = refl
