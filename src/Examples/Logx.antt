-- ===== src/Examples/Logx.antt =====
-- A stream of two chunks, copied with -v, and with a writer that takes too little.
use go_packet_repeater.Base.{◌≡◌, refl, true, false, none, some, List, [], ◌∷◌, codes, pos, Option}
use go_packet_repeater.Logx.{
  Logger, Chunk, more, eof, Wrote, copy, io_copy, finished, short_write, is_verbose, dump, debug,
  debug_enabled,
}
use go_packet_repeater.Logx.Copying.{Relayed, copy-io_copy, copy-Relayed}
use go_packet_repeater.Logx.Dump.{dumped, copy-dumped}

abbrev logger : Option Logger
logger = some (record { level = pos 1; verbose = true })

abbrev reads : List Chunk
reads =
    record { bytes = codes "ab"; status = more }
    ∷ record { bytes = []; status = more }
    ∷ record { bytes = codes "cd"; status = eof }
    ∷ []

abbrev takes_one : List Wrote
takes_one = record { count = 1; failure = none } ∷ []

delivers_all : (copy logger (codes "x") true reads []).0.delivered ≡ codes "abcd"
unfolding copy is_verbose
delivers_all = refl

dumps_all : dumped (copy logger (codes "x") true reads []).1 ≡ codes "abcd"
unfolding copy is_verbose dump debug
dumps_all = refl

stops_short : (copy none (codes "x") true reads takes_one).0.end ≡ short_write
unfolding copy is_verbose debug_enabled
stops_short = refl

copy-io_copy_example :
    (copy logger (codes "x") true reads takes_one).0 ≡ io_copy reads takes_one 0 []
copy-io_copy_example = copy-io_copy logger (codes "x") true reads takes_one

copy-Relayed_example : Relayed reads 0 [] (copy logger (codes "x") true reads takes_one).0
copy-Relayed_example = copy-Relayed logger (codes "x") true reads takes_one

copy-dumped_example :
    (is_verbose logger ≡ false → dumped (copy logger (codes "x") true reads []).1 ≡ [])
    × (is_verbose logger ≡ true
        → (copy logger (codes "x") true reads []).0.end ≡ finished
        → dumped (copy logger (codes "x") true reads []).1
          ≡ (copy logger (codes "x") true reads []).0.delivered)
copy-dumped_example = copy-dumped logger (codes "x") true reads []
