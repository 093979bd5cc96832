-- ===== src/Bcache/Tests.antt =====
-- Examples of the block cache.
use eafitos.Base.{◌≡◌, refl, some, arith}
use eafitos.Bcache.{Bcache, binit, put, recycled, holds, bget, brelse}
use eafitos.Bcache.Inv.{Got, bget-Got, IsUnique}
use eafitos.Bcache.Life.{Reach, started, step, gets, Reach-IsUnique}

-- The cache after block 5 of device 1 has been taken.
abbrev taken : Bcache
taken = put binit 0 (recycled (binit.buf 0) 1 5)

bget_first : bget binit 1 5 ≡ some (0, taken)
unfolding bget eafitos.Bcache.cached eafitos.Bcache.unused
bget_first = refl

taken-Reach : Reach taken
taken-Reach = step binit taken started (gets 1 5 0 (omega arith) bget_first)

bget-Got_example : Got taken 1 7 (bget taken 1 7)
bget-Got_example = bget-Got taken 1 7

Reach-IsUnique_example : IsUnique taken
Reach-IsUnique_example = Reach-IsUnique taken taken-Reach
