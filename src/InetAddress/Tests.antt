-- ===== src/InetAddress/Tests.antt =====
-- The theorem of InetAddress at 1.2.3.4 and port 8888, on a little-endian machine.
use knet_lib.Common.{ℕ, List, [], ◌∷◌, Option, some, refl, arith, Returns}
use knet_lib.Words.{little}
use knet_lib.InetAddress.{from_text}
use knet_lib.InetAddress.Text.{Holds, from_text-Holds}

abbrev dotted : List ℕ
dotted = 49 ∷ 46 ∷ 50 ∷ 46 ∷ 51 ∷ 46 ∷ 52 ∷ []

-- Converters that know this one address.
abbrev pton_one : List ℕ → Option ℕ
pton_one text = some 67305985

abbrev ntop_one : ℕ → Option (List ℕ)
ntop_one address = some dotted

from_text-Holds_example :
    Returns (Holds little ntop_one dotted 8888) (from_text little pton_one dotted 8888)
from_text-Holds_example =
    from_text-Holds little pton_one ntop_one dotted 8888 67305985 refl refl (omega arith)
