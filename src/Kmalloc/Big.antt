-- ===== src/Kmalloc/Big.antt =====
-- `kmalloc` of more than 2048 bytes, which asks for pages, and the `kfree` after it.
use knut_os.Base.{ℕ, ◌+◌, ◌/◌, ◌≡◌, ◌≢◌, bit_and}
use knut_os.Base.Words.{sub64}
use knut_os.Mem.{page_size}
use knut_os.Pmm
use knut_os.Pmm.{Pmm}

-- The pages of a request whose size is rounded to `r`, the one of the metadata among them.
abbrev pub pages_for : ℕ → ℕ
pages_for r = r / page_size + 1

-- A pointer of `kmalloc`, and the address of its metadata.
record Aligned (ptr object : ℕ) : Type 0 where
  pub not_null : ptr ≢ 0
  pub aligned : bit_and ptr 0xFFF ≡ 0
  pub metadata : sub64 ptr page_size ≡ object
