-- ===== src/Text/Bytes.antt =====
-- What memset and memcpy leave in memory.
use slob_os.Prelude.{
  ℕ, zero, suc, ◌+◌, ◌-◌, ◌%◌, ◌≤◌, ◌≡◌, ◌≢◌, ◌⊎◌, inl, inr, ◌∙◌, arith, if◌then◌else◌, lt_cases,
  eq_cases, ◌&&◌, leb, ltb,
}
use slob_os.Prelude.Memory.{Memory, write, write_ne}
use slob_os.Text.{memset, memcpy}

-- memset writes the byte to the `size` places from `ptr` on, and nowhere else.
pub memset_lem :
    (size : ℕ) (m : Memory) (ptr c x : ℕ)
    → memset m ptr c size x ≡ (if leb ptr x && ltb x (ptr + size) then c % 256 else m x)
unfolding memset
memset_lem zero m ptr c x = ground arith
memset_lem (suc size) m ptr c x =
    ground (arith, memset_lem size (write m ptr (c % 256)) (ptr + 1) c x)

memcpy-step :
    (len : ℕ) (m : Memory) (dest src x : ℕ)
    → (dest ≤ src) ⊎ (src + suc len ≤ dest)
    → (if leb (dest + 1) x && ltb x (dest + 1 + len)
        then write m dest (m src) (src + 1 + (x - (dest + 1)))
        else write m dest (m src) x)
      ≡ (if leb dest x && ltb x (dest + suc len) then m (src + (x - dest)) else m x)
memcpy-step len m dest src x apart = elim (eq_cases x dest) [
  | inl e ↦ let first : src + (x - dest) ≡ src = omega arith in rw (first) (ground arith)
  | inr (inl lt) ↦ ground arith
  | inr (inr gt) ↦ elim (lt_cases x (dest + suc len)) [
    | inr past ↦ ground arith
    | inl within ↦
        let index : src + 1 + (x - (dest + 1)) ≡ src + (x - dest) = omega arith in
        let other : src + (x - dest) ≢ dest = omega arith in
        rw (index) (ground (arith, write_ne m dest (m src) (src + (x - dest)) other))
  ]
]

-- memcpy copies `len` bytes, wherever the destination does not lie inside the source behind its
-- start, and writes nothing else.
pub memcpy_lem :
    (len : ℕ) (m : Memory) (dest src x : ℕ)
    → (dest ≤ src) ⊎ (src + len ≤ dest)
    → memcpy m dest src len x
      ≡ (if leb dest x && ltb x (dest + len) then m (src + (x - dest)) else m x)
unfolding memcpy
memcpy_lem zero m dest src x apart = ground arith
memcpy_lem (suc len) m dest src x apart =
    memcpy_lem len (write m dest (m src)) (dest + 1) (src + 1) x (omega arith)
    ∙ memcpy-step len m dest src x apart
