-- ===== src/Bcache.antt =====
-- kernel/bio.c: the buffers of the block cache, in the order of their use.
--
-- A buffer is its index in the array, and the linked list is the list of indices from `head.next` on.
-- The sleeplock of a buffer is left out but for the test that a caller holds it, which is an argument,
-- and so is what the disk holds. `none` is a panic.
pub mod Order
pub mod Inv
pub mod Life
mod Tests
use eafitos.Base.{
  ℕ, zero, suc, ◌+◌, ◌-◌, ◌%◌, ◌^◌, Bool, true, false, not, ◌&&◌, ◌==◌, if◌then◌else◌, Option, none,
  some, List, [], ◌∷◌, update,
}

pub record Buf : Type 0 where
  pub valid : Bool
  pub dev : ℕ
  pub blockno : ℕ
  pub refcnt : ℕ
  pub bytes : ℕ → ℕ

pub record Bcache : Type 0 where
  pub buf : ℕ → Buf
  pub order : List ℕ

abbrev pub nbuf : ℕ
nbuf = 30

-- The loop of `binit` after k buffers.
abbrev pub linked : ℕ → List ℕ
linked zero = []
linked (suc k) = k ∷ linked k

-- Global memory is zero at first.
abbrev pub binit : Bcache
binit = record {
  buf = λ b. record { valid = false; dev = 0; blockno = 0; refcnt = 0; bytes = λ i. 0 };
  order = linked nbuf;
}

abbrev pub put : Bcache → ℕ → Buf → Bcache
put s b v = record s { buf = update s.buf b v }

abbrev pub holds : Buf → ℕ → ℕ → Bool
holds v dev blockno = v.dev == dev && v.blockno == blockno

-- The first loop of `bget`, over the buffers that are left.
unfoldable pub cached : (ℕ → Buf) → ℕ → ℕ → List ℕ → Option ℕ
cached buf dev blockno [] = none
cached buf dev blockno (b ∷ bs) =
    if holds (buf b) dev blockno then some b else cached buf dev blockno bs

-- The second loop, from the end of the list back.
unfoldable pub unused : (ℕ → Buf) → List ℕ → Option ℕ
unused buf [] = none
unused buf (b ∷ bs) = elim (unused buf bs) [
  | some c ↦ some c
  | none ↦ if (buf b).refcnt == 0 then some b else none
]

abbrev pub one_more : Buf → Buf
one_more v = record v { refcnt = (v.refcnt + 1) % 2 ^ 32 }

abbrev pub one_less : Buf → Buf
one_less v = record v { refcnt = (v.refcnt + (2 ^ 32 - 1)) % 2 ^ 32 }

abbrev pub recycled : Buf → ℕ → ℕ → Buf
recycled v dev blockno = record v { dev = dev; blockno = blockno; valid = false; refcnt = 1 }

unfoldable pub bget : Bcache → ℕ → ℕ → Option (ℕ × Bcache)
bget s dev blockno = elim (cached s.buf dev blockno s.order) [
  | some b ↦ some (b, put s b (one_more (s.buf b)))
  | none ↦ elim (unused s.buf s.order) [
    | some b ↦ some (b, put s b (recycled (s.buf b) dev blockno))
    | none ↦ none
  ]
]

-- `disk` is what `virtio_disk_rw` reads, by block number.
unfoldable pub bread : (ℕ → ℕ → ℕ) → Bcache → ℕ → ℕ → Option (ℕ × Bcache)
bread disk s dev blockno = elim (bget s dev blockno) [
  | none ↦ none
  | some r ↦
      let v = (r.1).buf r.0 in
      some (
        r.0,
        if v.valid then r.1 else put r.1 r.0 (record v { bytes = disk v.blockno; valid = true }),
      )
]

abbrev pub remove : ℕ → List ℕ → List ℕ
remove b [] = []
remove b (c ∷ cs) = let rest = remove b cs in if c == b then cs else (c ∷ rest)

-- `holding` is what `holdingsleep` says.
unfoldable pub brelse : Bool → Bcache → ℕ → Option Bcache
brelse holding s b =
    if holding
    then (let t = put s b (one_less (s.buf b)) in
        some (if (t.buf b).refcnt == 0 then record t { order = b ∷ remove b t.order } else t))
    else none

unfoldable pub bpin : Bcache → ℕ → Bcache
bpin s b = put s b (one_more (s.buf b))

unfoldable pub bunpin : Bcache → ℕ → Bcache
bunpin s b = put s b (one_less (s.buf b))
