-- ===== src/Ps2.antt =====
-- The kernel's search for PS/2 devices, os/kernel/hal/io/ps2/ps2dect.c. Its waits, its port writes
-- and its read of the data port do what the keyboard driver's functions of the same names do, and
-- are shared with them.
pub mod Devices
mod Tests
use vsnx_os.Base.{
  ℕ, Bool, true, false, ◌&&◌, ◌||◌, leb, ◌==◌, not, if◌then◌else◌, List, ◌∷◌, bit_or,
}
use vsnx_os.Keyboard.Controller.{
  Log, Ports, DeviceType, device_none, keyboard_old, keyboard_mf2, mouse_standard, mouse_wheel,
  mouse_5button, ps2_wait_output, ps2_write_command, ps2_write_data, ps2_read_data, select_port,
}

-- `ps2_controller_t`
pub record Controller : Type 0 where
  pub dual_channel : Bool
  pub port1_exists : Bool
  pub port2_exists : Bool
  pub port1_device : DeviceType
  pub port2_device : DeviceType
  pub config_byte : ℕ
  pub initialized : Bool

-- `ps2_controller`, as the kernel starts with it.
abbrev pub no_controller : Controller
no_controller = record {
  dual_channel = false;
  port1_exists = false;
  port2_exists = false;
  port1_device = device_none;
  port2_device = device_none;
  config_byte = 0;
  initialized = false;
}

abbrev pub is_keyboard : DeviceType → Bool
is_keyboard d = elim d [ keyboard_old ↦ true | keyboard_mf2 ↦ true | _ ↦ false ]

-- `dev_type >= PS2_DEVICE_MOUSE_STANDARD`
abbrev pub is_mouse : DeviceType → Bool
is_mouse d = elim d [
  | mouse_standard ↦ true
  | mouse_wheel ↦ true
  | mouse_5button ↦ true
  | _ ↦ false
]

-- The type that two bytes of an answer tell.
unfoldable pub two_bytes : (id1 id2 : ℕ) → DeviceType
two_bytes id1 id2 =
    if id1 == 0xAB && (leb 0x41 id2 && leb id2 0x47)
    then keyboard_mf2
    else if id1 == 0x00
    then mouse_standard
    else if id1 == 0x03
    then mouse_wheel
    else if id1 == 0x04
    then mouse_5button
    else device_none

-- The type that a single byte tells.
unfoldable pub single_byte : (id1 : ℕ) → DeviceType
single_byte id1 =
    if id1 == 0x00
    then mouse_standard
    else if id1 == 0x03
    then mouse_wheel
    else if id1 == 0x04
    then mouse_5button
    else if not (id1 == 0xFF) && (not (id1 == 0xFE) && not (id1 == 0xFC))
    then keyboard_old
    else device_none

module _ (ports : Ports) where
  -- The wait is repeated by the read.
  unfoldable pub send_command : (port command : ℕ) → Log → Bool × Log
  send_command port command l =
      let (full, waited) =
        ps2_wait_output ports (ps2_write_data ports command (select_port ports port l)) in
      let (response, l') = ps2_read_data ports waited in
      if full then (response == 0xFA, l') else (false, waited)

  unfoldable pub ps2_controller_detect : Controller → Log → Bool × Controller × Log
  ps2_controller_detect c l =
      let (full, waited) = ps2_wait_output ports (ps2_write_command ports 0xAA l) in
      let (response, l') = ps2_read_data ports waited in
      if full
      then if response == 0xAA || response == 0x55
        then (true, record c { initialized = true }, l')
        else (false, c, l')
      else (false, c, waited)

  -- The bytes of the answer to IDENTIFY.
  unfoldable pub identify_bytes : Log → DeviceType × Log
  identify_bytes l =
      let (full, waited) = ps2_wait_output ports l in
      let (id1, l1) = ps2_read_data ports waited in
      let (more, waited1) = ps2_wait_output ports l1 in
      let (id2, l2) = ps2_read_data ports waited1 in
      if full
      then if more then (two_bytes id1 id2, l2) else (single_byte id1, waited1)
      else (device_none, waited)

  unfoldable pub identify : (port : ℕ) → Log → DeviceType × Log
  identify port l =
      let (ack, l') = send_command port 0xF2 l in
      if ack then identify_bytes l' else (device_none, l')

  unfoldable pub ps2_keyboard_detect : Controller → Log → Bool × Controller × Log
  ps2_keyboard_detect c l =
      let (dev_type, l') = identify 1 l in
      if is_keyboard dev_type
      then (true, record c { port1_device = dev_type; port1_exists = true }, l')
      else (false, c, l')

  -- The part behind a good test of the second port.
  unfoldable pub mouse_on_port2 : Controller → Log → Bool × Controller × Log
  mouse_on_port2 c l =
      let (dev_type, l') = identify 2 l in
      if is_mouse dev_type
      then (
        true,
        record c { dual_channel = true; port2_exists = true; port2_device = dev_type },
        l',
      )
      else (false, record c { dual_channel = true }, l')

  unfoldable pub ps2_mouse_detect : Controller → Log → Bool × Controller × Log
  ps2_mouse_detect c l =
      let tested = ps2_write_command ports 0xA9 (ps2_write_command ports 0xA8 l) in
      let (full, waited) = ps2_wait_output ports tested in
      let (response, l') = ps2_read_data ports waited in
      if full
      then if response == 0x00 then mouse_on_port2 c l' else (false, c, l')
      else (false, c, waited)

  -- The configuration behind the detection.
  unfoldable pub configure : Controller → Log → Controller × Log
  configure c l =
      let config1 = if c.port1_exists then bit_or 0 1 else 0 in
      let config = if c.port2_exists then bit_or config1 2 else config1 in
      let enabled = if c.port1_exists then ps2_write_command ports 0xAE l else l in
      (
        record c { config_byte = config },
        ps2_write_data ports config (ps2_write_command ports 0x60 enabled),
      )

  -- The first component tells whether the keyboard driver is loaded, as a process of ring 0, which
  -- stands behind this model.
  unfoldable pub ps2_devices_init : Controller → Log → Bool × Controller × Log
  ps2_devices_init c l =
      let (ok, c0, l0) = ps2_controller_detect c l in
      let (_, c1, l1) = ps2_keyboard_detect c0 l0 in
      let (_, c2, l2) = ps2_mouse_detect c1 l1 in
      let (c3, l3) = configure c2 l2 in if ok then (c3.port1_exists, c3, l3) else (false, c0, l0)
