-- ===== src/Keyboard/Waits.antt =====
-- How long the port code of drivers/hid/pstwo/keybrd/keypstwo.c can take, whatever the hardware
-- answers.
use vsnx_os.Base.{ℕ, zero, suc, ◌+◌, ◌*◌, ◌≤◌, Bool, Bool-cases, inl, inr, length, ◌∷◌, arith}
use vsnx_os.Base.Bits.{clear_bit}
use vsnx_os.Keyboard.{Keyboard}
use vsnx_os.Keyboard.Controller.{
  Log, Ports, input_free, output_full, outb, inb, wait_until, ps2_wait_input, ps2_write_command,
  ps2_write_data, ps2_read_data_timeout, select_port, ps2_send_device_command,
  ps2_send_device_command_with_data, read_id, identify_answer, ps2_identify_device, reset_device,
  ps2_keyboard_init,
}

module _ (ports : Ports) where
  -- `later` has at most `n` accesses more than `l`.
  abbrev Within : ℕ → Log → Log → Type 0
  Within n l later = length later ≤ length l + n

  wait_until-Within :
      (ready : ℕ → Bool) (timeout : ℕ) (l : Log)
      → Within timeout l (wait_until ports ready timeout l).1
  unfolding wait_until
  wait_until-Within ready zero l = omega arith
  wait_until-Within ready (suc timeout) l = elim (Bool-cases (ready (ports 0x64 l))) [
    | inl now ↦ rw (now, wait_until) (omega arith)
    | inr wait ↦
        rw (wait, wait_until) (omega (arith, wait_until-Within ready timeout (inb 0x64 ∷ l)))
  ]

  write_command-Within :
      (command : ℕ) (l : Log) → Within 100001 l (ps2_write_command ports command l)
  unfolding ps2_write_command ps2_wait_input
  write_command-Within command l = omega (arith, wait_until-Within input_free 100000 l)

  write_data-Within : (byte : ℕ) (l : Log) → Within 100001 l (ps2_write_data ports byte l)
  unfolding ps2_write_data ps2_wait_input
  write_data-Within byte l = omega (arith, wait_until-Within input_free 100000 l)

  read-Within :
      (timeout_ms : ℕ) (l : Log)
      → Within (timeout_ms * 1000 + 1) l (ps2_read_data_timeout ports timeout_ms l).1
  unfolding ps2_read_data_timeout
  read-Within timeout_ms l = ground (arith, wait_until-Within output_full (timeout_ms * 1000) l)

  select_port-Within : (port : ℕ) (l : Log) → Within 100001 l (select_port ports port l)
  unfolding select_port
  select_port-Within port l = ground (arith, write_command-Within 0xD4 l)

  -- A byte to a device and the wait for its answer.
  exchange-Within :
      (port byte : ℕ) (l : Log)
      → Within 300003 l
          (ps2_read_data_timeout ports 100 (ps2_write_data ports byte (select_port ports port l))).1
  exchange-Within port byte l = omega (
    arith,
    select_port-Within port l,
    write_data-Within byte (select_port ports port l),
    read-Within 100 (ps2_write_data ports byte (select_port ports port l)),
  )

  send-Within :
      (port command : ℕ) (l : Log)
      → Within 300003 l (ps2_send_device_command ports port command l).1
  unfolding ps2_send_device_command
  send-Within port command l = exchange-Within port command l

  send_with_data-Within :
      (port command byte : ℕ) (l : Log)
      → Within 600006 l (ps2_send_device_command_with_data ports port command byte l).1
  unfolding ps2_send_device_command_with_data
  send_with_data-Within port command byte l = ground (
    arith,
    send-Within port command l,
    exchange-Within port byte (ps2_send_device_command ports port command l).1,
  )

  reset-Within : (port : ℕ) (l : Log) → Within 1300004 l (reset_device ports port l)
  unfolding reset_device
  reset-Within port l = ground (
    arith,
    send-Within port 0xFF l,
    read-Within 1000 (ps2_send_device_command ports port 0xFF l).1,
  )

  read_id-Within : (l : Log) → Within 200002 l (read_id ports l).2
  unfolding read_id
  read_id-Within l =
      ground (arith, read-Within 100 l, read-Within 100 (ps2_read_data_timeout ports 100 l).1)

  identify_answer-Within : (port : ℕ) (l : Log) → Within 500005 l (identify_answer ports port l).1
  unfolding identify_answer
  identify_answer-Within port l =
      omega (arith, read_id-Within l, send-Within port 0xF4 (read_id ports l).2)

  identify-Within : (port : ℕ) (l : Log) → Within 1100011 l (ps2_identify_device ports port l).1
  unfolding ps2_identify_device
  identify-Within port l =
      let quiet = (ps2_send_device_command ports port 0xF5 l).1 in
      let asked =
        (ps2_read_data_timeout ports 100
          (ps2_write_data ports 0xF2 (select_port ports port quiet))).1 in
      ground (
        arith,
        send-Within port 0xF5 l,
        exchange-Within port 0xF2 quiet,
        identify_answer-Within port asked,
      )

  init-Within :
      (port : ℕ) (k : Keyboard) (l : Log) → Within 2200015 l (ps2_keyboard_init ports port k l).1
  unfolding ps2_keyboard_init
  init-Within port k l =
      let start = outb 0x21 (clear_bit (ports 0x21 l) 1) ∷ (inb 0x21 ∷ l) in
      let ready = reset_device ports port start in
      omega (
        arith,
        reset-Within port start,
        send_with_data-Within port 0xF0 1 ready,
        send-Within port 0xF4 (ps2_send_device_command_with_data ports port 0xF0 1 ready).1,
      )

-- Whatever the hardware answers, `ps2_keyboard_init` returns after at most 2,200,015 accesses to
-- ports, and `ps2_identify_device` after at most 1,100,011.
pub ports_accesses :
    (ports : Ports) (port : ℕ) (k : Keyboard) (l : Log)
    → (length (ps2_keyboard_init ports port k l).1 ≤ length l + 2200015)
      × (length (ps2_identify_device ports port l).1 ≤ length l + 1100011)
ports_accesses ports port k l = (init-Within ports port k l, identify-Within ports port l)
