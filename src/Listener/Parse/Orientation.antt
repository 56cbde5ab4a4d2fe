-- ===== src/Listener/Parse/Orientation.antt =====
-- The two directions of a flow have one key.
use nebula_rs.Prelude.{◌≡◌, refl, arith, Bool, true, false, not, some}
use nebula_rs.Prelude.Bytes.{Bytes}
use nebula_rs.Listener.Parse.{FiveTuple, parse_tuple, orient, parse}

-- The reply: source and destination exchanged; an identifier stays.
abbrev pub reply : FiveTuple → FiveTuple
reply t = record t { src = t.dst; dst = t.src; src_port = t.dst_port; dst_port = t.src_port }

orient-reply :
    (t : FiveTuple) (incoming : Bool) → orient (reply t) (not incoming) ≡ orient t incoming
unfolding orient
orient-reply t true = refl
orient-reply t false = refl

-- If one packet parses to a tuple and another to that tuple with source and destination exchanged,
-- the first in one direction and the second in the other give the same firewall packet.
pub parse-reply :
    (raw answer : Bytes) (t : FiveTuple) (incoming : Bool)
    → parse_tuple raw ≡ some t
    → parse_tuple answer ≡ some (reply t)
    → parse answer (not incoming) ≡ parse raw incoming
unfolding parse
parse-reply raw answer t incoming e f = ground (arith, e, f, orient-reply t incoming)
