-- ===== src/Text.antt =====
-- The C strings of src/string/string.c and the byte loops of src/memory/memory.c, over physical
-- memory. A `char` is its byte; a negative `int` count, with which no loop runs, is the count 0.
pub mod Bytes
pub mod Compare
pub mod Strings
use slob_os.Prelude.{
  ℕ, zero, suc, ◌+◌, ◌-◌, ◌*◌, ◌/◌, ◌%◌, ◌^◌, Bool, true, false, not, ◌||◌, ◌&&◌, Option, none,
  some, leb, ltb, ◌==◌, if◌then◌else◌, List, [], ◌∷◌,
}
use slob_os.Prelude.Int.{ℤ, pos, negsuc, sub_ℕ}
use slob_os.Prelude.Memory.{Memory, write}

unfoldable pub tolower : ℕ → ℕ
tolower s1 = if leb 65 s1 && leb s1 90 then s1 + 32 else s1

-- The loop with the count so far; `none` where the fuel runs out.
strlen_loop : ℕ → Memory → ℕ → ℕ → Option ℕ
strlen_loop zero m ptr i = none
strlen_loop (suc fuel) m ptr i =
    let rest = strlen_loop fuel m (ptr + 1) (i + 1) in if m ptr == 0 then some i else rest

pub strlen : ℕ → Memory → ℕ → Option ℕ
unfolding strlen_loop
strlen fuel m ptr = strlen_loop fuel m ptr 0

strnlen_terminator_loop : Memory → ℕ → ℕ → (rounds i : ℕ) → ℕ
strnlen_terminator_loop m str terminator zero i = i
strnlen_terminator_loop m str terminator (suc rounds) i =
    let rest = strnlen_terminator_loop m str terminator rounds (i + 1) in
    if m (str + i) == 0 || m (str + i) == terminator then i else rest

pub strnlen_terminator : Memory → ℕ → ℕ → ℕ → ℕ
unfolding strnlen_terminator_loop
strnlen_terminator m str max terminator = strnlen_terminator_loop m str terminator max 0

pub istrncmp : Memory → ℕ → ℕ → ℕ → ℤ
unfolding tolower sub_ℕ
istrncmp m s1 s2 zero = pos 0
istrncmp m s1 s2 (suc n) =
    let u1 = m s1 in
    let u2 = m s2 in
    let rest = istrncmp m (s1 + 1) (s2 + 1) n in
    if not (u1 == u2) && not (tolower u1 == tolower u2)
    then sub_ℕ u1 u2
    else if u1 == 0
    then pos 0
    else rest

pub strncmp : Memory → ℕ → ℕ → ℕ → ℤ
unfolding sub_ℕ
strncmp m str1 str2 zero = pos 0
strncmp m str1 str2 (suc n) =
    let u1 = m str1 in
    let u2 = m str2 in
    let rest = strncmp m (str1 + 1) (str2 + 1) n in
    if not (u1 == u2) then sub_ℕ u1 u2 else if u1 == 0 then pos 0 else rest

strnlen_loop : Memory → ℕ → (rounds i : ℕ) → ℕ
strnlen_loop m ptr zero i = i
strnlen_loop m ptr (suc rounds) i =
    let rest = strnlen_loop m ptr rounds (i + 1) in if m (ptr + i) == 0 then i else rest

pub strnlen : Memory → ℕ → ℕ → ℕ
unfolding strnlen_loop
strnlen m ptr max = strnlen_loop m ptr max 0

unfoldable pub isdigit : ℕ → Bool
isdigit c = leb 48 c && leb c 57

unfoldable pub tonumericdigit : ℕ → ℤ
unfolding sub_ℕ
tonumericdigit c = sub_ℕ c 48

-- The new memory; `none` where the fuel runs out.
pub strcpy : ℕ → Memory → ℕ → ℕ → Option Memory
strcpy zero m dest src = none
strcpy (suc fuel) m dest src =
    let rest = strcpy fuel (write m dest (m src)) (dest + 1) (src + 1) in
    if m src == 0 then some (write m dest 0) else rest

strncpy_loop : Memory → ℕ → ℕ → (rounds i : ℕ) → Memory
strncpy_loop m dest src zero i = write m (dest + i) 0
strncpy_loop m dest src (suc rounds) i =
    let rest = strncpy_loop (write m (dest + i) (m (src + i))) dest src rounds (i + 1) in
    if m (src + i) == 0 then write m (dest + i) 0 else rest

pub strncpy : Memory → ℕ → ℕ → ℕ → Memory
unfolding strncpy_loop
strncpy m dest src count = strncpy_loop m dest src (count - 1) 0

-- The loop writes `size` bytes from `ptr` on.
pub memset : Memory → ℕ → ℕ → ℕ → Memory
memset m ptr c zero = m
memset m ptr c (suc size) = memset (write m ptr (c % 256)) (ptr + 1) c size

-- `char` is signed: a byte from 128 on is below every byte under 128.
signed_lt : ℕ → ℕ → Bool
signed_lt a b = ltb ((a + 128) % 256) ((b + 128) % 256)

pub memcmp : Memory → ℕ → ℕ → ℕ → ℤ
unfolding signed_lt
memcmp m s1 s2 zero = pos 0
memcmp m s1 s2 (suc count) =
    let rest = memcmp m (s1 + 1) (s2 + 1) count in
    if not (m s1 == m s2) then (if signed_lt (m s1) (m s2) then negsuc 0 else pos 1) else rest

-- Front to back, so an overlap is copied as the source copies it.
pub memcpy : Memory → ℕ → ℕ → ℕ → Memory
memcpy m dest src zero = m
memcpy m dest src (suc len) = memcpy (write m dest (m src)) (dest + 1) (src + 1) len
