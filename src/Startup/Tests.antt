-- ===== src/Startup/Tests.antt =====
-- The start of the kernel at concrete inputs.
use novium_os.Prelude.{◌+◌, ◌-◌, ◌*◌, ◌≡◌, refl, true, false, some, [], ◌∷◌, arith}
use novium_os.Prelude.Bits.{has_bit}
use novium_os.Pages.{BootInfo, Machine, page_count, map_entry}
use novium_os.Pages.Boot.{Allowed}
use novium_os.Heap.{Heap}
use novium_os.Interrupts.{irq_base}
use novium_os.Interrupts.Masks.{last_written, is_masked}
use novium_os.Startup.{Addresses, Hardware, boot_info, hw_init, memory_init}
use novium_os.Startup.Lines.{hw_init_lem}
use novium_os.Keyboard.{keyboard_callback, keyboard_pop, decode, key_of}
use novium_os.Console.{
  console_putchar, putchar, put_cell, advance, console_set_cursor, update_hardware_cursor,
}
use novium_os.Startup.Shell.{
  Shell, started, interrupted, looped, shell_round, SafeShell, Runs-SafeShell, echo,
}
use novium_os.Startup.Memory.{Based, memory_init-Based}

abbrev addresses : Addresses
addresses = record {
  stub_table = λ i. 0x100000 + i * 16;
  stub_placeholder = 0x100400;
  timer_callback = 0x101000;
  keyboard_callback = 0x102000;
}

abbrev powered_on : Hardware
powered_on = record {
  timer = record { tick_count = 0; ticks_per_second = 0 };
  interrupts = record {
    idt =
        λ _. record { offset_low = 0; selector = 0; zero_byte = 0; type_attr = 0; offset_high = 0 };
    idt_limit = 0;
    handlers = λ _. 0;
    spurious_count = λ _. 0;
    spurious_reported = 0;
    log = [];
  };
  irqs_enabled = true;
}

hw_init_lem_example :
    let s' = hw_init last_written addresses powered_on in
    (is_masked s'.interrupts 1 ≡ false)
    × (s'.interrupts.handlers (irq_base + 1) ≡ 0x102000)
    × (s'.timer.ticks_per_second ≡ 100)
    × (s'.irqs_enabled ≡ true)
hw_init_lem_example =
    hw_init_lem last_written addresses (λ log line. refl) powered_on 1 (omega arith) (omega arith)
      (omega arith)

-- The boot loader says that there is a map of 24 bytes at 0x9000.
abbrev told : BootInfo
told =
    boot_info (λ _. record { flags = 64; mmap_length = 24; mmap_addr = 0x9000 }) 0x2BADB002 0x8000

found_map : told ≡ record { memory_map_addr = 0x9000; memory_map_length = 24 }
unfolding boot_info has_bit
found_map = refl

-- One region of a MiB above the first, with four pages of it under the kernel.
abbrev machine : Machine
machine = record {
  entry_at = λ _. record { size = 20; base_addr = 0x100000; length = 0x100000; kind = 1 };
  kernel_start = 0x100000;
  kernel_end = 0x104000;
}

abbrev boot : BootInfo
boot = record { memory_map_addr = 0x9000; memory_map_length = 24 }

abbrev heap : Heap
heap = record {
  blocks = λ _. record { magic = 0; size = 0; prev_size = 0; is_free = false; prev = 0; next = 0 };
  segments = [];
  segment_count = 0;
  free_head = 0;
  pages = record { page_bitmap = λ _. 0; free_pages = 0 };
}

no_top_page : ¬ Allowed machine boot (page_count - 1)
unfolding map_entry
no_top_page a =
    let (offset, starts, fits, kind, low, high) = a.in_map in absurd (omega (arith, high))

memory_init-Based_example : Based machine boot heap (memory_init machine (some boot) heap)
memory_init-Based_example =
    memory_init-Based machine boot heap (omega arith) (omega arith) no_top_page

-- An empty ring, and the prompt in the last row.
abbrev ready : Shell
ready = record {
  keyboard = record { buf = λ _. 0; head = 31; tail = 31; shift_held = false };
  console = record {
    video_memory = λ _. 0x20;
    cursor = 1922;
    user_cmdline_start = 1922;
    console_line_echo = false;
    ports = (0x3D5, 7) ∷ (0x3D4, 0x0E) ∷ (0x3D5, 130) ∷ (0x3D4, 0x0F) ∷ [];
  };
}

-- The key A is struck and echoed.
abbrev struck : Shell
struck = record ready { keyboard = keyboard_callback 0x1E ready.keyboard }

echoes :
    ((shell_round struck).console.cursor ≡ 1923)
    × ((shell_round struck).console.video_memory 3844 ≡ 97)
unfolding shell_round echo keyboard_callback keyboard_pop decode key_of console_putchar putchar
    put_cell advance console_set_cursor update_hardware_cursor
echoes = (refl, refl)

Runs-SafeShell_example : SafeShell ready (shell_round struck)
Runs-SafeShell_example =
    Runs-SafeShell ready (shell_round struck)
      (record { head_inside = omega arith; tail_inside = omega arith })
      (record { inside = omega arith; behind_prompt = omega arith; shown = refl })
      (looped struck (interrupted ready 0x1E started))
