-- ===== src/Console.antt =====
-- kernel/console.c: the ring of input bytes, edited by the interrupt handler up to the end of a line.
--
-- `char` is unsigned on RISC-V. What goes to the uart is the list of arguments of `consputc`.
pub mod Ring
pub mod Edit
pub mod Ends
pub mod Read
mod Tests
use eafitos.Base.{
  ℕ, zero, suc, ◌+◌, ◌-◌, ◌%◌, ◌^◌, Bool, true, false, not, ◌&&◌, ◌||◌, List, [], ◌∷◌, ltb, ◌==◌,
  if◌then◌else◌, update,
}

abbrev pub input_buf_size : ℕ
input_buf_size = 128

abbrev pub u32 : ℕ → ℕ
u32 a = a % 2 ^ 32

-- The difference of two `uint`
abbrev pub minus : ℕ → ℕ → ℕ
minus a b = (a + 2 ^ 32 - b) % 2 ^ 32

pub record Cons : Type 0 where
  pub buf : ℕ → ℕ
  pub r : ℕ
  pub w : ℕ
  pub e : ℕ

abbrev pub newline : ℕ
newline = 10

abbrev pub backspace : ℕ
backspace = 0x100

-- `C('D')`, end of file
abbrev pub control_d : ℕ
control_d = 4

-- The state, the calls of `consputc`, and whether the handler calls `wakeup(&cons.r)`.
abbrev pub Handled : Type 0
Handled = Cons × List ℕ × Bool

-- The loop of `C('U')`, for at most n rounds.
unfoldable pub kill_line : ℕ → Cons → Cons × List ℕ
kill_line zero c = (c, [])
kill_line (suc n) c =
    let shorter = record c { e = minus c.e 1 } in
    let rest = kill_line n shorter in
    if not (c.e == c.w) && not (c.buf (minus c.e 1 % input_buf_size) == newline)
    then (rest.0, backspace ∷ rest.1)
    else (c, [])

unfoldable pub erase_byte : Cons → Handled
erase_byte c =
    if not (c.e == c.w)
    then (record c { e = minus c.e 1 }, backspace ∷ [], false)
    else (c, [], false)

-- The bytes of a line as they are stored.
abbrev pub stored : ℕ → ℕ
stored ch = if ch == 13 then newline else ch

-- After the store: the line is handed over if it is complete or the ring is full.
unfoldable pub commit_line : Cons → ℕ → Handled
commit_line c ch =
    if ch == newline || ch == control_d || minus c.e c.r == input_buf_size
    then (record c { w = c.e }, ch ∷ [], true)
    else (c, ch ∷ [], false)

unfoldable pub insert_byte : Cons → ℕ → Handled
insert_byte c ch =
    let grown = record c {
      buf = update c.buf (c.e % input_buf_size) (stored ch);
      e = u32 (c.e + 1);
    } in
    if not (ch == 0) && ltb (minus c.e c.r) input_buf_size
    then commit_line grown (stored ch)
    else (c, [], false)

-- The rounds of the kill loop are at most the bytes from w to e.
unfoldable pub consoleintr : Cons → ℕ → Handled
consoleintr c ch =
    if ch == 16
    then (c, [], false)
    else if ch == 21
    then (let killed = kill_line (minus c.e c.w) c in (killed.0, killed.1, false))
    else if ch == 8 || ch == 127
    then erase_byte c
    else insert_byte c ch

-- How a run of `consoleread` ends: it returns a count, fails because the process is killed, or
-- sleeps with so many bytes still wanted.
pub data ReadEnd : Type 0 where
  returned : ℕ → ReadEnd
  killed : ReadEnd
  asleep : ℕ → ReadEnd

pub record ReadRun : Type 0 where
  pub cons : Cons
  pub copied : List ℕ
  pub outcome : ReadEnd

abbrev pub ends : Cons → ReadEnd → ReadRun
ends c out = record { cons = c; copied = []; outcome = out }

-- The loop of `consoleread` up to its end or to a sleep, with n bytes wanted of target. `copyout i`
-- tells whether byte i can be copied to the user, and `is_killed` what `killed` gives in the run.
unfoldable pub read_loop : ℕ → (ℕ → Bool) → Bool → ℕ → Cons → ReadRun
read_loop target copyout is_killed zero c = ends c (returned target)
read_loop target copyout is_killed (suc n) c =
    let ch = c.buf (c.r % input_buf_size) in
    let taken = record c { r = u32 (c.r + 1) } in
    let rest = read_loop target copyout is_killed n taken in
    if c.r == c.w
    then (if is_killed then ends c killed else ends c (asleep (suc n)))
    else if ch == control_d
    then ends (if ltb (suc n) target then record taken { r = minus taken.r 1 } else taken)
        (returned (target - suc n))
    else if not (copyout (target - suc n))
    then ends taken (returned (target - suc n))
    else if ch == newline
    then record { cons = taken; copied = ch ∷ []; outcome = returned (target - n) }
    else record rest { copied = ch ∷ rest.copied }
