-- ===== src/Xv6/Files.antt =====
-- xv6/kernel/file.c and xv6/kernel/sysproc.c: the count of the bytes read, over all files.
-- `readi` of the kernel is a parameter: what it returns for an inode, an address, an offset and a length.
use operating_systems_and_ne.Prelude.{
  ℕ, ◌+◌, ◌%◌, ◌^◌, ◌<◌, ◌≡◌, ◌≢◌, ap, sym, ◌∙◌, arith, ◌==◌, List, [], ◌∷◌, if◌then◌else◌, if_ind,
  Bool-cases, inl, inr, ℤ, is_pos, pos_part, length, get_or, set, length-set, get_or-set_self,
  get_or-set_ne,
}

-- `struct file`: the inode and the offset.
pub record File : Type 0 where
  pub ip : ℕ
  pub off : ℕ

-- The open files, and `total_bytes_read`.
pub record Kernel : Type 0 where
  pub files : List File
  pub total_bytes_read : ℕ

abbrev closed : File
closed = record { ip = 0; off = 0 }

abbrev pub file_at : Kernel → ℕ → File
file_at s i = get_or s.files i closed

-- Behind `readi`: the offset is a 32-bit number, the count a 64-bit number.
unfoldable pub count_read : Kernel → ℕ → ℤ → Kernel
count_read s i r =
    if is_pos r
    then record {
      files =
          set s.files i (record (file_at s i) { off = ((file_at s i).off + pos_part r) % 2 ^ 32 });
      total_bytes_read = (s.total_bytes_read + pos_part r) % 2 ^ 64;
    }
    else s

-- A call of `fileread`: the file, the address and the length.
pub record Read : Type 0 where
  pub file : ℕ
  pub addr : ℕ
  pub n : ℕ

-- `sys_getreadcount`
unfoldable pub sys_getreadcount : Kernel → ℕ
sys_getreadcount s = s.total_bytes_read

-- The bytes that a call delivered: none where it failed.
abbrev pub delivered_bytes : ℤ → ℕ
delivered_bytes r = if is_pos r then pos_part r else 0

-- The bytes that calls delivered, and those that calls on one file delivered.
pub total : List (ℕ × ℤ) → ℕ
total [] = 0
total ((file, r) ∷ rs) = delivered_bytes r + total rs

pub total_of : ℕ → List (ℕ × ℤ) → ℕ
total_of i [] = 0
total_of i ((file, r) ∷ rs) = (if file == i then delivered_bytes r else 0) + total_of i rs

module _ (readi : ℕ → ℕ → ℕ → ℕ → ℤ) where
  -- `fileread`
  unfoldable pub fileread : Kernel → Read → Kernel × ℤ
  unfolding count_read
  fileread s c =
      let f = file_at s c.file in let r = readi f.ip c.addr f.off c.n in (count_read s c.file r, r)

  -- Several calls, each with what it returns.
  unfoldable pub filereads : Kernel → List Read → Kernel × List (ℕ × ℤ)
  unfolding fileread
  filereads s [] = (s, [])
  filereads s (c ∷ cs) =
      let (s', r) = fileread s c in let (s'', rs) = filereads s' cs in (s'', (c.file, r) ∷ rs)

count_read_total :
    (s : Kernel) (i : ℕ) (r : ℤ)
    → s.total_bytes_read < 2 ^ 64
    → (count_read s i r).total_bytes_read ≡ (s.total_bytes_read + delivered_bytes r) % 2 ^ 64
unfolding count_read
count_read_total s i r h = ground arith

count_read_off :
    (s : Kernel) (i j : ℕ) (r : ℤ)
    → j < length s.files
    → (file_at s j).off < 2 ^ 32
    → (file_at (count_read s i r) j).off
      ≡ ((file_at s j).off + (if i == j then delivered_bytes r else 0)) % 2 ^ 32
unfolding count_read
count_read_off s i j r l h =
    let f = record (file_at s i) { off = ((file_at s i).off + pos_part r) % 2 ^ 32 } in
    if_ind
      (λ (s' : Kernel).
        (file_at s' j).off
        ≡ ((file_at s j).off + (if i == j then delivered_bytes r else 0)) % 2 ^ 32)
      (is_pos r)
      (λ p. elim (Bool-cases (i == j)) [
        | inl e ↦
            let same : i ≡ j = ground arith in
            ap (λ (g : File). g.off)
              (ap (λ k. get_or (set s.files i f) k closed) (sym same)
                ∙ get_or-set_self s.files i f closed (omega arith))
            ∙ ground arith
        | inr e ↦
            let other : i ≢ j = λ q. ground arith in
            ap (λ (g : File). g.off) (get_or-set_ne s.files f closed other) ∙ ground arith
      ])
      (λ p. ground arith)

length-count_read : (s : Kernel) (i : ℕ) (r : ℤ) → length (count_read s i r).files ≡ length s.files
unfolding count_read
length-count_read s i r = ground (
  arith,
  length-set s.files i (record (file_at s i) { off = ((file_at s i).off + pos_part r) % 2 ^ 32 }),
)

module _ (readi : ℕ → ℕ → ℕ → ℕ → ℤ) where
  -- After any calls of `fileread`, failed ones included, `sys_getreadcount` has grown by the bytes that they
  -- delivered, and the offset of each open file by those that the calls on this file delivered, up to the wrap
  -- of the two counters.
  pub filereads-count :
      (s : Kernel) (cs : List Read) (i : ℕ)
      → s.total_bytes_read < 2 ^ 64
      → i < length s.files
      → (file_at s i).off < 2 ^ 32
      → (sys_getreadcount (filereads readi s cs).0
          ≡ (sys_getreadcount s + total (filereads readi s cs).1) % 2 ^ 64)
        × ((file_at (filereads readi s cs).0 i).off
            ≡ ((file_at s i).off + total_of i (filereads readi s cs).1) % 2 ^ 32)
  unfolding filereads fileread sys_getreadcount total total_of
  filereads-count s [] i t l o = (ground arith, ground arith)
  filereads-count s (c ∷ cs) i t l o =
      let r = readi (file_at s c.file).ip c.addr (file_at s c.file).off c.n in
      let s' = count_read s c.file r in
      let counted = count_read_total s c.file r t in
      let moved = count_read_off s c.file i r l o in
      let rest =
        filereads-count s' cs i (omega (arith, counted))
          (omega (arith, l, length-count_read s c.file r)) (omega (arith, moved)) in
      (omega (arith, rest.0, counted), omega (arith, rest.1, moved))
