-- ===== src/Vectored.antt =====
-- The vectored write (runtime/xiom_runtime.c, 9322 to 9499). The bytes sent are the addresses they were read from, in
-- order, and the array of the segments is NULL or as long as the count. The system's answers are an argument, by the number of the call; 0 stands for an error too.
pub mod Delivered
pub mod Sent
pub mod Tests
pub mod Written
use stdlib.Base.{
  ℕ, zero, suc, ◌+◌, ◌-◌, Bool, true, false, ◌&&◌, Option, none, some, List, [], ◌∷◌, ◌++◌, ltb,
  leb, ◌==◌, if◌then◌else◌, length, take,
}
use stdlib.Base.Int.{ℤ, pos, negsuc}

-- XIOM_WRITEV_MAX, XIOM_FD_GUARD_MAX, and the largest chunk of a _write
abbrev pub writev_max : ℕ
writev_max = 1024

abbrev pub fd_guard_max : ℕ
fd_guard_max = 8192

abbrev pub chunk_max : ℕ
chunk_max = 0x40000000

-- WSABUF
pub record Buffer : Type 0 where
  pub buf : ℕ
  pub len : ℕ

abbrev pub range : ℕ → ℕ → List ℕ
range a zero = []
range a (suc n) = a ∷ range (suc a) n

-- The addresses of the buffers.
abbrev pub flatten : List Buffer → List ℕ
flatten [] = []
flatten (b ∷ bs) = range b.buf b.len ++ flatten bs

abbrev pub is_empty : List Buffer → Bool
is_empty [] = true
is_empty (b ∷ bs) = false

-- `while (idx < iovcnt && buf[idx].len == 0) idx++`
unfoldable pub skip_empty : List Buffer → List Buffer
skip_empty [] = []
skip_empty (b ∷ bs) = let rest = skip_empty bs in if b.len == 0 then rest else b ∷ bs

-- The advance over what a call has sent.
unfoldable pub advance : ℕ → List Buffer → List Buffer
advance rem [] = []
advance rem (b ∷ bs) =
    let rest = advance (rem - b.len) bs in
    if rem == 0
    then b ∷ bs
    else if leb b.len rem
    then rest
    else record { buf = b.buf + rem; len = b.len - rem } ∷ bs

-- The loop over a socket: the total or `none` for -1, and the bytes sent. The outer `none` is that the fuel ran out.
unfoldable pub send_loop :
    (ℕ → List Buffer → ℕ) → ℕ → ℕ → ℕ → List ℕ → List Buffer → Option (Option ℕ × List ℕ)
send_loop sends zero k total out bufs = none
send_loop sends (suc fuel) k total out bufs =
    let left = skip_empty bufs in
    let sent = sends k left in
    let rest =
      send_loop sends fuel (k + 1) (total + sent) (out ++ take sent (flatten left))
        (advance sent left) in
    if is_empty left then some (some total, out) else if sent == 0 then some (none, out) else rest

-- The buffers of the pairs, or `none` where a length is out of range.
unfoldable pub buffers : List (ℕ × ℤ) → Option (List Buffer)
buffers [] = some []
buffers ((addr, negsuc len) ∷ ps) = none
buffers ((addr, pos len) ∷ ps) =
    let rest = buffers ps in
    if ltb 0xFFFFFFFF len
    then none
    else elim rest [ none ↦ none | some bs ↦ some (record { buf = addr; len = len } ∷ bs) ]

-- The inner loop of the fallback over a descriptor of the C library, for one segment.
unfoldable pub write_loop :
    (ℕ → ℕ → ℕ → ℕ) → ℕ → ℕ → ℕ → List ℕ → ℕ → ℕ → Option (Option (ℕ × ℕ) × List ℕ)
write_loop writes zero k total out p len = none
write_loop writes (suc fuel) k total out p len =
    let chunk = if ltb chunk_max len then chunk_max else len in
    let w = writes k p chunk in
    let rest = write_loop writes fuel (k + 1) (total + w) (out ++ range p w) (p + w) (len - w) in
    if len == 0 then some (some (k, total), out) else if w == 0 then some (none, out) else rest

-- The outer loop of the fallback; the fuel of a segment is one more than its length.
unfoldable pub write_all :
    (ℕ → ℕ → ℕ → ℕ) → ℕ → ℕ → List ℕ → List (ℕ × ℤ) → Option (Option ℕ × List ℕ)
write_all writes k total out [] = some (some total, out)
write_all writes k total out ((addr, negsuc len) ∷ ps) = some (none, out)
write_all writes k total out ((addr, pos len) ∷ ps) =
    elim (write_loop writes (suc len) k total out addr len) [
      | none ↦ none
      | some (none, out') ↦ some (none, out')
      | some (some (k', total'), out') ↦ write_all writes k' total' out' ps
    ]

abbrev pub size_of : List Buffer → ℕ
size_of bs = length (flatten bs)

-- xiom_fd_writev of Windows, behind the probe for a socket. The array has as many pairs as the count says.
unfoldable pub fd_writev :
    (ℕ → List Buffer → ℕ)
    → (ℕ → ℕ → ℕ → ℕ)
    → Bool
    → ℤ
    → Option (List (ℕ × ℤ))
    → Option (Option ℕ × List ℕ)
fd_writev sends writes socket (negsuc fd) pairs = some (none, [])
fd_writev sends writes socket (pos fd) none = some (none, [])
fd_writev sends writes socket (pos fd) (some []) = some (some 0, [])
fd_writev sends writes socket (pos fd) (some (p ∷ ps)) =
    if ltb writev_max (length (p ∷ ps))
    then some (none, [])
    else if socket
    then elim (buffers (p ∷ ps)) [
      | none ↦ some (none, [])
      | some bs ↦ send_loop sends (suc (size_of bs)) 0 0 [] bs
    ]
    else if ltb fd_guard_max fd
    then some (none, [])
    else write_all writes 0 0 [] (p ∷ ps)
