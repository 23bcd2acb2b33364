-- ===== src/Startup.antt =====
-- The start of the kernel: `hw_init` of arch/x86_32/boot/hw_init.c up to its call of `kernel_main`, and
-- what `kernel_main` of init/main.c does to memory first. What the boot loader has left at an address is
-- an argument.
pub mod Lines
pub mod Memory
pub mod Shell
pub mod Tests
use novium_os.Prelude.{ℕ, ◌==◌, ◌&&◌, Bool, true, false, not, if◌then◌else◌, List, Option}
use novium_os.Prelude.Bits.{has_bit}
use novium_os.Pages.{PageAllocator, BootInfo, Machine, page_alloc_init}
use novium_os.Heap.{Heap, heap_init}
use novium_os.Interrupts.{Event, Interrupts, idt_init, pic_init, irq_register}
use novium_os.Timer.{Timer, timer_init}

-- The fields of `struct multiboot_info` that are read.
pub record MultibootInfo : Type 0 where
  pub flags : ℕ
  pub mmap_length : ℕ
  pub mmap_addr : ℕ

-- The fields of `boot` that say where the memory map is. Bit 6 is `MULTIBOOT_INFO_MEMORY_MAP`.
unfoldable pub boot_info : (ℕ → MultibootInfo) → ℕ → ℕ → BootInfo
boot_info info_at multiboot_magic multiboot_info_addr =
    let mbi = info_at multiboot_info_addr in
    if multiboot_magic == 0x2BADB002 && not (multiboot_info_addr == 0)
    then if has_bit mbi.flags 6
      then record { memory_map_addr = mbi.mmap_addr; memory_map_length = mbi.mmap_length }
      else record { memory_map_addr = 0; memory_map_length = 0 }
    else record { memory_map_addr = 0; memory_map_length = 0 }

pub record Hardware : Type 0 where
  pub timer : Timer
  pub interrupts : Interrupts
  pub irqs_enabled : Bool

-- Addresses that the linker chooses.
pub record Addresses : Type 0 where
  pub stub_table : ℕ → ℕ
  pub stub_placeholder : ℕ
  pub timer_callback : ℕ
  pub keyboard_callback : ℕ

module _ (inb : List Event → ℕ → ℕ) (at : Addresses) where
  unfoldable pub keyboard_init : Interrupts → Interrupts
  unfolding irq_register
  keyboard_init s = irq_register inb 1 at.keyboard_callback s

  -- With interrupts off from `irq_disable` to `irq_enable`.
  unfoldable pub hw_init : Hardware → Hardware
  unfolding keyboard_init idt_init pic_init timer_init
  hw_init s =
      let off = record s { irqs_enabled = false } in
      let wired = pic_init (idt_init at.stub_table at.stub_placeholder off.interrupts) in
      let (t, ticking) = timer_init inb at.timer_callback 100 (off.timer, wired) in
      record off { timer = t; interrupts = keyboard_init ticking; irqs_enabled = true }

-- `PageAllocInit` and `HeapInit`.
unfoldable pub memory_init : Machine → Option BootInfo → Heap → Heap
unfolding heap_init
memory_init machine boot s = heap_init (record s { pages = page_alloc_init machine boot s.pages })
