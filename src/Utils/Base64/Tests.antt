-- ===== src/Utils/Base64/Tests.antt =====
-- Base64 at concrete inputs.
use blue_bird.Prelude.{◌+◌, ◌*◌, ◌/◌, length, ◌≡◌, refl, true, some, arith, Bytes, codes}
use blue_bird.Utils.Base64.{table_at, round, rounds, pad, base64_encode}
use blue_bird.Utils.Base64.Groups.{groups, base64_encode-groups, length-rounds}

abbrev text : Bytes
text = codes "Many"

base64_encode-groups_example : base64_encode true text ≡ some (groups text)
base64_encode-groups_example =
    base64_encode-groups text (omega arith, (omega arith, (omega arith, (omega arith, tt))))

length-rounds_example : length (rounds text) ≡ 4 * ((length text + 2) / 3)
length-rounds_example = length-rounds text

many : base64_encode true text ≡ some (codes "TWFueQ==")
unfolding base64_encode pad rounds round table_at
many = refl
