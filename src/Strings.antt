-- ===== src/Strings.antt =====
-- The string routines of system.c, and strlen of monitor.c. A loop that looks for the end of a text takes fuel:
-- `none` means that it has not ended after so many rounds.
pub mod Copy
pub mod Compare
use tinu_os.Prelude.{ℕ, zero, suc, ◌+◌, Option, none, some, ◌==◌, if◌then◌else◌, u8, sub32}
use tinu_os.Memory.{Memory, store8}

-- The `int` that it returns as a bit pattern.
unfoldable pub memcmp : Memory → ℕ → ℕ → ℕ → ℕ
memcmp m s1 s2 zero = 0
memcmp m s1 s2 (suc n) =
    let u1 = u8 (m s1) in
    let u2 = u8 (m s2) in
    let rest = memcmp m (s1 + 1) (s2 + 1) n in if u1 == u2 then rest else sub32 u1 u2

-- `while ((dest[i] = src[i]) != '\0') i++;`
unfoldable pub copy_text : ℕ → Memory → ℕ → ℕ → ℕ → Option Memory
copy_text zero m dest src i = none
copy_text (suc fuel) m dest src i =
    let c = m (src + i) in
    let m' = store8 m (dest + i) c in
    let rest = copy_text fuel m' dest src (i + 1) in if c == 0 then some m' else rest

unfoldable pub strcpy : ℕ → Memory → ℕ → ℕ → Option Memory
unfolding copy_text
strcpy fuel m dest src = copy_text fuel m dest src 0

-- The second loop of `strncpy`, with the rounds left.
unfoldable pub pad : ℕ → Memory → ℕ → ℕ → Memory
pad zero m dest i = m
pad (suc left) m dest i = pad left (store8 m (dest + i) 0) dest (i + 1)

-- The first loop, with the rounds left, and then the second.
unfoldable pub copy_some : ℕ → Memory → ℕ → ℕ → ℕ → Memory
unfolding pad
copy_some zero m dest src i = m
copy_some (suc left) m dest src i =
    let c = m (src + i) in
    let rest = copy_some left (store8 m (dest + i) c) dest src (i + 1) in
    if c == 0 then pad (suc left) m dest i else rest

unfoldable pub strncpy : Memory → ℕ → ℕ → ℕ → Memory
unfolding copy_some
strncpy m dest src n = copy_some n m dest src 0

-- `while (str[len]) len++;`
unfoldable pub count_text : ℕ → Memory → ℕ → ℕ → Option ℕ
count_text zero m str len = none
count_text (suc fuel) m str len =
    let rest = count_text fuel m str (len + 1) in if m (str + len) == 0 then some len else rest

unfoldable pub strlen : ℕ → Memory → ℕ → Option ℕ
unfolding count_text
strlen fuel m str = count_text fuel m str 0
