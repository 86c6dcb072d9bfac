-- ===== src/Io/Status.antt =====
-- `StreamStatus` of minet/src/io/Stream.h.
use minet_core.Prelude.Int.{ℤ, pos, negsuc}

abbrev pub empty : ℤ
empty = pos 0

abbrev pub end_of_file : ℤ
end_of_file = negsuc 0

abbrev pub again : ℤ
again = negsuc 1

abbrev pub error : ℤ
error = negsuc 2
