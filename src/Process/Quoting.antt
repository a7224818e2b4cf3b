-- ===== src/Process/Quoting.antt =====
-- The quoting of one argument of a Windows command line (runtime/xiom_runtime.c, 5009 to 5080). The buffer is the list of
-- the bytes written so far, its capacity includes the NUL, and `none` is -1.
use stdlib.Base.{
  ℕ, zero, suc, ◌+◌, ◌-◌, ◌*◌, Bool, true, false, ◌||◌, Option, none, some, List, [], ◌∷◌, ◌++◌,
  ltb, leb, ◌==◌, if◌then◌else◌, length,
}
use stdlib.Base.Chain.{◌>>=◌}

-- '\t', ' ', '"' and '\\'
abbrev pub tab : ℕ
tab = 9

abbrev pub space : ℕ
space = 32

abbrev pub quote : ℕ
quote = 34

abbrev pub backslash : ℕ
backslash = 92

-- The check and the write of one byte.
unfoldable pub put_byte : ℕ → ℕ → List ℕ → Option (List ℕ)
put_byte cap c out = if leb (cap - 1) (length out) then none else some (out ++ (c ∷ []))

-- The loops that write a byte several times, and the bytes of an argument as they are.
unfoldable pub put_times : ℕ → ℕ → ℕ → List ℕ → Option (List ℕ)
put_times cap zero c out = some out
put_times cap (suc n) c out = do out' ← put_byte cap c out; put_times cap n c out'

unfoldable pub put_plain : ℕ → List ℕ → List ℕ → Option (List ℕ)
put_plain cap [] out = some out
put_plain cap (c ∷ cs) out = do out' ← put_byte cap c out; put_plain cap cs out'

-- The last loop: the backslashes before the closing quote in pairs, with a check for two.
unfoldable pub put_pairs : ℕ → ℕ → List ℕ → Option (List ℕ)
put_pairs cap zero out = some out
put_pairs cap (suc bs) out =
    let rest = put_pairs cap bs (out ++ (backslash ∷ backslash ∷ [])) in
    if leb (cap - 2) (length out) then none else rest

-- The main loop behind the opening quote, with `bs` backslashes seen and not written.
unfoldable pub quoted : ℕ → ℕ → List ℕ → List ℕ → Option (List ℕ)
quoted cap bs [] out = do out' ← put_pairs cap bs out; put_byte cap quote out'
quoted cap bs (c ∷ cs) out =
    let slash = quoted cap (bs + 1) cs out in
    let escaped = (do
      out1 ← put_times cap (2 * bs + 1) backslash out
      out2 ← put_byte cap quote out1
      quoted cap 0 cs out2) in
    let plain = (do
      out1 ← put_times cap bs backslash out
      out2 ← put_byte cap c out1
      quoted cap 0 cs out2) in
    if c == backslash then slash else if c == quote then escaped else plain

-- Whether the argument has a blank or a quote, or is empty.
unfoldable pub has_special : List ℕ → Bool
has_special [] = false
has_special (c ∷ cs) = (c == space) || (c == tab) || (c == quote) || has_special cs

unfoldable pub needs_quotes : List ℕ → Bool
needs_quotes [] = true
needs_quotes (c ∷ cs) = has_special (c ∷ cs)

-- xiom_win_quote_arg
unfoldable pub win_quote_arg : ℕ → List ℕ → List ℕ → Option (List ℕ)
win_quote_arg cap arg out = do
  out1 ← (if ltb 0 (length out) then put_byte cap space out else some out)
  if needs_quotes arg then put_byte cap quote out1 >>= quoted cap 0 arg else put_plain cap arg out1
