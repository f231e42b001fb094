-- ===== src/Keyboard/Controller.antt =====
-- The port accesses of drivers/hid/pstwo/keybrd/keypstwo.c: waiting for the controller, commands to
-- a device with their answers, and what a device says that it is.
use vsnx_os.Base.{
  ℕ, zero, suc, ◌*◌, Bool, true, false, not, ◌&&◌, ◌==◌, if◌then◌else◌, Option, none, some, List,
  ◌∷◌,
}
use vsnx_os.Base.Bits.{test_bit, clear_bit}
use vsnx_os.Keyboard.{Keyboard}

-- An access to a port. The answers of the hardware are a parameter: the byte that a port gives
-- after the accesses so far, the last one first.
pub data Access : Type 0 where
  outb : (port data' : ℕ) → Access
  inb : (port : ℕ) → Access

abbrev pub Log : Type 0
Log = List Access

abbrev pub Ports : Type 0
Ports = (port : ℕ) → Log → ℕ

-- `ps2_device_type_t`
pub data DeviceType : Type 0 where
  device_none keyboard_old keyboard_mf2 mouse_standard mouse_wheel mouse_5button : DeviceType

-- The type of a device by the bytes that it answers to IDENTIFY.
unfoldable pub device_type : (id0 id1 : Option ℕ) → DeviceType
device_type none id1 = keyboard_old
device_type (some a) none = device_none
device_type (some a) (some b) =
    if a == 0xAB && b == 0x83
    then keyboard_mf2
    else if a == 0xAB && b == 0x41
    then keyboard_mf2
    else if a == 0x00
    then mouse_standard
    else if a == 0x03
    then mouse_wheel
    else if a == 0x04
    then mouse_5button
    else device_none

abbrev pub input_free : ℕ → Bool
input_free status = not (test_bit status 1)

abbrev pub output_full : ℕ → Bool
output_full status = test_bit status 0

abbrev pub is_ack : Option ℕ → Bool
is_ack answer = elim answer [ none ↦ false | some byte ↦ byte == 0xFA ]

module _ (ports : Ports) where
  -- Reads of the status until a test holds, `timeout` times at most.
  unfoldable pub wait_until : (ready : ℕ → Bool) (timeout : ℕ) → Log → Bool × Log
  wait_until ready zero l = (false, l)
  wait_until ready (suc timeout) l = elim (ready (ports 0x64 l)) [
    | true ↦ (true, inb 0x64 ∷ l)
    | false ↦ wait_until ready timeout (inb 0x64 ∷ l)
  ]

  unfoldable pub ps2_wait_input : Log → Bool × Log
  ps2_wait_input l = wait_until input_free 100000 l

  unfoldable pub ps2_wait_output : Log → Bool × Log
  ps2_wait_output l = wait_until output_full 100000 l

  -- The result of the wait is not looked at.
  unfoldable pub ps2_write_command : (command : ℕ) → Log → Log
  ps2_write_command command l = outb 0x64 command ∷ (ps2_wait_input l).1

  unfoldable pub ps2_write_data : (byte : ℕ) → Log → Log
  ps2_write_data byte l = outb 0x60 byte ∷ (ps2_wait_input l).1

  unfoldable pub ps2_read_data : Log → ℕ × Log
  ps2_read_data l = let waited = (ps2_wait_output l).1 in (ports 0x60 waited, inb 0x60 ∷ waited)

  unfoldable pub ps2_read_data_timeout : (timeout_ms : ℕ) → Log → Option ℕ × Log
  ps2_read_data_timeout timeout_ms l =
      let (full, waited) = wait_until output_full (timeout_ms * 1000) l in
      if full then (some (ports 0x60 waited), inb 0x60 ∷ waited) else (none, waited)

  -- The prefix that sends the next byte to the second port.
  unfoldable pub select_port : (port : ℕ) → Log → Log
  select_port port l = if port == 2 then ps2_write_command 0xD4 l else l

  -- A byte to a device, and whether the device acknowledges it.
  unfoldable pub ps2_send_device_command : (port command : ℕ) → Log → Bool × Log
  ps2_send_device_command port command l =
      let (answer, l') = ps2_read_data_timeout 100 (ps2_write_data command (select_port port l)) in
      (is_ack answer, l')

  unfoldable pub ps2_send_device_command_with_data : (port command byte : ℕ) → Log → Bool × Log
  ps2_send_device_command_with_data port command byte l =
      let (ok, l') = ps2_send_device_command port command l in
      let (answer, sent) = ps2_read_data_timeout 100 (ps2_write_data byte (select_port port l')) in
      if ok then (is_ack answer, sent) else (false, l')

  -- The bytes of the answer: the second is read if the first came.
  unfoldable pub read_id : Log → Option ℕ × Option ℕ × Log
  read_id l =
      let (id0, l0) = ps2_read_data_timeout 100 l in
      let (id1, l1) = ps2_read_data_timeout 100 l0 in
      elim id0 [ none ↦ (none, none, l0) | some a ↦ (some a, id1, l1) ]

  -- The part behind the acknowledged IDENTIFY.
  unfoldable pub identify_answer : (port : ℕ) → Log → DeviceType × Log
  identify_answer port l =
      let (id0, id1, l') = read_id l in
      (device_type id0 id1, (ps2_send_device_command port 0xF4 l').1)

  unfoldable pub ps2_identify_device : (port : ℕ) → Log → DeviceType × Log
  ps2_identify_device port l =
      let (quiet, l0) = ps2_send_device_command port 0xF5 l in
      let (answer, l1) = ps2_read_data_timeout 100 (ps2_write_data 0xF2 (select_port port l0)) in
      if quiet
      then if is_ack answer then identify_answer port l1 else (device_none, l1)
      else (device_none, l0)

  -- The reset of a device: the answer of its self test is read and printed.
  unfoldable pub reset_device : (port : ℕ) → Log → Log
  reset_device port l =
      let (ok, l') = ps2_send_device_command port 0xFF l in
      if ok then (ps2_read_data_timeout 1000 l').1 else l'

  unfoldable pub ps2_keyboard_init : (port : ℕ) → Keyboard → Log → Keyboard × Log
  ps2_keyboard_init port k l =
      let unmasked = outb 0x21 (clear_bit (ports 0x21 l) 1) ∷ (inb 0x21 ∷ l) in
      let configured =
        (ps2_send_device_command_with_data port 0xF0 1 (reset_device port unmasked)).1 in
      (
        record k {
          keyboard_state = record k.keyboard_state { num_lock = true };
          input_buffer = record k.input_buffer { head = 0; tail = 0; count = 0 };
        },
        (ps2_send_device_command port 0xF4 configured).1,
      )
