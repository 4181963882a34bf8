-- ===== src/Kernel/Interrupts/Pending.antt =====
-- What the devices whose interrupt is pending lead to.
use Prim.Native.Nat.{bit_and}
use os_unibo.Base.{ℕ, zero, suc, ◌/◌, ◌%◌, ◌≡◌, Ptr, ◌==◌, if◌then◌else◌, arith}
use os_unibo.Base.{bit_of, and-pow}
use os_unibo.Kernel.{Kernel, Outcome, panics}
use os_unibo.Ssi.Io.{terminal_requester_index}
use os_unibo.Kernel.Interrupts.{acknowledge, scan_devices, scan_lines, io_h}

lowest-bit : (x : ℕ) → bit_and x 1 ≡ x % 2
unfolding bit_of
lowest-bit x = omega (arith, and-pow 0 x)

-- The loop over the devices of a line asks whether one of 8 bits is set.
scan_devices-eq :
    (pending : ℕ) (found next : Outcome)
    → scan_devices 8 0 pending found next ≡ (if pending % 256 == 0 then next else found)
unfolding scan_devices
scan_devices-eq pending found next = ground (
  arith,
  lowest-bit (pending / 1),
  lowest-bit (pending / 2),
  lowest-bit (pending / 4),
  lowest-bit (pending / 8),
  lowest-bit (pending / 16),
  lowest-bit (pending / 32),
  lowest-bit (pending / 64),
  lowest-bit (pending / 128),
)

scan_lines-eq :
    (lines pending : ℕ) (found none_found : Outcome)
    → scan_lines (suc lines) pending found none_found
      ≡ (if pending % 256 == 0 then none_found else found)
unfolding scan_lines
scan_lines-eq zero pending found none_found = scan_devices-eq pending found none_found
scan_lines-eq (suc lines) pending found none_found = ground (
  arith,
  scan_devices-eq pending found (scan_lines (suc lines) pending found none_found),
  scan_lines-eq lines pending found none_found,
)

-- Every interrupt of a device is taken for one of the terminal: whichever of the 8 lowest bits of the
-- word is set, the terminal is acknowledged, and with none set the nucleus panics.
pub io_h-acknowledge :
    (pending : ℕ) (command_address : Ptr) (k : Kernel)
    → io_h pending command_address k ≡ (
        if pending % 256 == 0
        then panics k
        else acknowledge command_address terminal_requester_index k)
unfolding io_h
io_h-acknowledge pending command_address k = scan_lines-eq 4 pending _ _
