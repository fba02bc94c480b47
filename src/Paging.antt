-- ===== src/Paging.antt =====
-- The macros of mm/page.h and mm/mm.h, which are not in the repository, and the error codes.
use csci.Vmmap.Sorted.{IsLayout}
use csci.Prelude.{◌^◌, ◌<◌, ◌==◌, ◌%◌, ◌+◌, ◌*◌, Bool, ◌/◌, arith, ℕ, ◌≡◌}
use csci.Vmmap.{UserSpace}

-- ADDR_TO_PN, PN_TO_ADDR, PAGE_ALIGN_UP, PAGE_ALIGN_DOWN, PAGE_ALIGNED, PAGE_SIZE, USER_MEM_LOW and USER_MEM_HIGH.
pub record Paging : Type 0 where
  pub page_size : ℕ
  pub addr_to_pn : ℕ → ℕ
  pub pn_to_addr : ℕ → ℕ
  pub page_align_up : ℕ → ℕ
  pub page_align_down : ℕ → ℕ
  pub page_aligned : ℕ → Bool
  pub mem_low : ℕ
  pub mem_high : ℕ

-- What their definitions say: pages have 4096 bytes, and user space begins and ends at a page and does
-- not reach the end of the 32-bit address space.
pub record IsPaging (p : Paging) : Type 0 where
  pub size : p.page_size ≡ 4096
  pub to_pn : (a : ℕ) → p.addr_to_pn a ≡ a / 4096
  pub to_addr : (n : ℕ) → p.pn_to_addr n ≡ n * 4096
  pub align_up : (a : ℕ) → p.page_align_up a ≡ (a + 4095) / 4096 * 4096
  pub align_down : (a : ℕ) → p.page_align_down a ≡ a / 4096 * 4096
  pub aligned : (a : ℕ) → p.page_aligned a ≡ (a % 4096 == 0)
  pub low_aligned : p.mem_low % 4096 ≡ 0
  pub high_aligned : p.mem_high % 4096 ≡ 0
  pub low_pos : 0 < p.mem_low
  pub low_lt_high : p.mem_low < p.mem_high
  pub high_lt : p.mem_high + 4096 < 2 ^ 32

abbrev pub user_space : Paging → UserSpace
user_space p = record { low = p.addr_to_pn p.mem_low; high = p.addr_to_pn p.mem_high }

-- errno.h
pub data Errno : Type 0 where
  enomem einval ebadf eacces efault eintr echild emfile eisdir : Errno

-- What a system call returns: 0 with the value that it stores, or -errno.
pub data Reply {ℓ} (A : Type ℓ) : Type ℓ where
  ok : A → Reply A
  err : Errno → Reply A

pub user_space-IsLayout : (p : Paging) → IsPaging p → IsLayout (user_space p)
user_space-IsLayout p h = record {
  low_pos = rw (h.to_pn p.mem_low) (omega (arith, h.low_pos, h.low_aligned));
  low_lt_high =
      rw (h.to_pn p.mem_low, h.to_pn p.mem_high)
        (omega (arith, h.low_lt_high, h.low_aligned, h.high_aligned));
  high_lt = rw (h.to_pn p.mem_high) (omega (arith, h.high_lt));
}
