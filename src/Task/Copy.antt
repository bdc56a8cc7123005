-- ===== src/Task/Copy.antt =====
-- copy_string_from_task and the reads of a task's memory of src/task/task.c. The processor's
-- translation of addresses is an argument, a function of the page tables, the directory and the
-- address; where kzalloc places an allocation is another. Bytes and page tables are apart.
-- The return to the kernel's own tables at the end is in no part of the state.
mod Examples
pub mod Loop
pub mod Translate
pub mod Whole
use slob_os.Prelude.{ℕ, zero, suc, ◌+◌, ◌-◌, ◌*◌, ◌%◌, ◌^◌, leb, ◌==◌, if◌then◌else◌}
use slob_os.Prelude.Memory.{Memory, write}
use slob_os.Status.{Errno, einvarg, enomem, eio, Result, ok, err}
use slob_os.Paging.{
  Words, page_size, paging_get, paging_map, paging_set, paging_get_physical_address,
}
use slob_os.Text.{memset, strncpy}

-- The processor's view of memory: the page tables, a directory and an address.
abbrev pub Translation : Type 0
Translation = Words → ℕ → ℕ → ℕ

-- The allocator, the page tables and the bytes.
pub record Space (S : Type 0) : Type 0 where
  pub allocator : S
  pub words : Words
  pub memory : Memory

-- PAGING_IS_WRITEABLE | PAGING_IS_PRESENT | PAGING_ACCESS_FROM_ALL
abbrev pub shared_flags : ℕ
shared_flags = 7

-- strncpy where the processor translates each address that it reads or writes.
pub strncpy_task_loop : (ℕ → ℕ) → Memory → (dest src rounds i : ℕ) → Memory
strncpy_task_loop at m dest src zero i = write m (at (dest + i)) 0
strncpy_task_loop at m dest src (suc rounds) i =
    let rest =
      strncpy_task_loop at (write m (at (dest + i)) (m (at (src + i)))) dest src rounds (i + 1) in
    if m (at (src + i)) == 0 then write m (at (dest + i)) 0 else rest

pub strncpy_task : (ℕ → ℕ) → Memory → (dest src count : ℕ) → Memory
strncpy_task at m dest src count = strncpy_task_loop at m dest src (count - 1) 0

module _ {S : Type 0} (kfree : S → ℕ → S) where
  -- The end of the copy, once the old entry of the page is put back.
  pub copy_restored :
      Space S → (tmp phys max : ℕ) → Words × Result (Unit {0}) → Space S × Result (Unit {0})
  copy_restored g tmp phys max (w, err e) =
      (record g { allocator = kfree g.allocator tmp; words = w }, err eio)
  copy_restored g tmp phys max (w, ok u) = (
    record { allocator = kfree g.allocator tmp; words = w; memory = strncpy g.memory phys tmp max },
    ok tt,
  )

  -- The copy through the buffer `tmp`; `mapped` is what paging_map leaves, whose status the source
  -- does not read.
  pub copy_through :
      Translation
      → Space S
      → (directory virtual phys max tmp old_entry : ℕ) → (mapped : Words)
      → Space S × Result (Unit {0})
  unfolding copy_restored
  copy_through mmu g directory virtual phys max tmp old_entry mapped =
      copy_restored
        (record g { memory = strncpy_task (mmu mapped directory) g.memory tmp virtual max }) tmp
        phys max (paging_set mapped directory tmp old_entry)

  pub copy_allocated :
      Translation → Space S → (directory virtual phys max : ℕ) → S × ℕ → Space S × Result (Unit {0})
  unfolding copy_through
  copy_allocated mmu g directory virtual phys max (s, tmp) =
      if tmp == 0
      then (record g { allocator = s }, err enomem)
      else copy_through mmu (record g { allocator = s; memory = memset g.memory tmp 0 max })
          directory virtual phys max tmp (paging_get g.words directory tmp)
          (paging_map g.words directory tmp tmp shared_flags).0

  -- `directory` is the address of the task's page directory.
  pub copy_string_from_task :
      (place : S → ℕ → S × ℕ)
      → Translation
      → Space S
      → (directory virtual phys max : ℕ) → Space S × Result (Unit {0})
  unfolding copy_allocated
  copy_string_from_task place mmu g directory virtual phys max =
      if leb page_size max
      then (g, err einvarg)
      else copy_allocated mmu g directory virtual phys max (place g.allocator max)

-- The word number `index` of the task's stack: the stack pointer is a pointer to words, read under
-- the task's directory.
pub task_get_stack_item : Translation → Words → Words → (directory esp index : ℕ) → ℕ
task_get_stack_item mmu tables stack directory esp index =
    stack (mmu tables directory ((esp + 4 * index) % 2 ^ 32))

-- `directory` is the address of the task's page directory.
pub task_virtual_address_to_physical : Words → (directory virtual_address : ℕ) → ℕ
task_virtual_address_to_physical w directory virtual_address =
    paging_get_physical_address w directory virtual_address
