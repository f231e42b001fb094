-- ===== src/Ps2/Devices.antt =====
-- What the kernel holds of its PS/2 ports behind the search.
use vsnx_os.Base.{
  ℕ, zero, suc, [], ◌∷◌, ap, ◌≡◌, refl, bit_or, Bool, true, false, Bool-cases, inl, inr, sym, ◌∙◌,
  if◌then◌else◌, arith,
}
use vsnx_os.Base.Bits.{test_bit}
use vsnx_os.Keyboard.Controller.{
  Log, Ports, outb, inb, input_free, wait_until, ps2_wait_input, ps2_write_command, ps2_write_data,
}
use vsnx_os.Ps2.{
  Controller, is_keyboard, is_mouse, ps2_controller_detect, ps2_keyboard_detect, mouse_on_port2,
  ps2_mouse_detect, configure, ps2_devices_init,
}

-- The fields agree with each other, but for the configuration.
pub record Consistent (c : Controller) : Type 0 where
  pub port1 : c.port1_exists ≡ is_keyboard c.port1_device
  pub port2 : c.port2_exists ≡ is_mouse c.port2_device
  pub both : c.port2_exists ≡ true → c.dual_channel ≡ true

-- What is written to the ports, the last first.
abbrev pub writes : Log → Log
writes [] = []
writes (outb port byte ∷ l) = outb port byte ∷ writes l
writes (inb port ∷ l) = writes l

-- Interrupts are enabled for just the ports that have a device: the last writes give this
-- configuration to the controller, behind the command that enables the first port if it is there.
pub record Configured (c : Controller) (before after : Log) : Type 0 where
  pub bit1 : test_bit c.config_byte 0 ≡ c.port1_exists
  pub bit2 : test_bit c.config_byte 1 ≡ c.port2_exists
  pub written :
      writes after
      ≡ outb 0x60 c.config_byte
        ∷ (outb 0x64 0x60
            ∷ (if c.port1_exists then outb 0x64 0xAE ∷ writes before else writes before))

abbrev config_of : Bool → Bool → ℕ
config_of port1 port2 =
    let config1 = if port1 then bit_or 0 1 else 0 in if port2 then bit_or config1 2 else config1

config_of-bits :
    (port1 port2 : Bool)
    → (test_bit (config_of port1 port2) 0 ≡ port1) × (test_bit (config_of port1 port2) 1 ≡ port2)
unfolding test_bit
config_of-bits true true = (refl, refl)
config_of-bits true false = (refl, refl)
config_of-bits false true = (refl, refl)
config_of-bits false false = (refl, refl)

module _ (ports : Ports) where
  controller-Consistent :
      (c : Controller) (l : Log) → Consistent c → Consistent (ps2_controller_detect ports c l).1
  unfolding ps2_controller_detect
  controller-Consistent c l f = ground arith

  keyboard-Consistent :
      (c : Controller) (l : Log) → Consistent c → Consistent (ps2_keyboard_detect ports c l).1
  unfolding ps2_keyboard_detect
  keyboard-Consistent c l f = ground arith

  mouse-Consistent :
      (c : Controller) (l : Log) → Consistent c → Consistent (ps2_mouse_detect ports c l).1
  unfolding ps2_mouse_detect mouse_on_port2
  mouse-Consistent c l f = ground arith

  configure-Consistent :
      (c : Controller) (l : Log) → Consistent c → Consistent (configure ports c l).0
  unfolding configure
  configure-Consistent c l f = record { port1 = f.port1; port2 = f.port2; both = f.both }

  wait_until-writes :
      (ready : ℕ → Bool) (n : ℕ) (l : Log) → writes (wait_until ports ready n l).1 ≡ writes l
  unfolding wait_until
  wait_until-writes ready zero l = refl
  wait_until-writes ready (suc n) l = elim (Bool-cases (ready (ports 0x64 l))) [
    | inl now ↦ rw (now, wait_until) refl
    | inr later ↦ rw (later, wait_until) (wait_until-writes ready n (inb 0x64 ∷ l))
  ]

  command-writes :
      (command : ℕ) (l : Log)
      → writes (ps2_write_command ports command l) ≡ outb 0x64 command ∷ writes l
  unfolding ps2_write_command ps2_wait_input
  command-writes command l = ap (λ w. outb 0x64 command ∷ w) (wait_until-writes input_free 100000 l)

  data-writes :
      (byte : ℕ) (l : Log) → writes (ps2_write_data ports byte l) ≡ outb 0x60 byte ∷ writes l
  unfolding ps2_write_data ps2_wait_input
  data-writes byte l = ap (λ w. outb 0x60 byte ∷ w) (wait_until-writes input_free 100000 l)

  configure-writes :
      (c : Controller) (config : ℕ) (l : Log)
      → writes (
          ps2_write_data ports config (
            ps2_write_command ports 0x60
              (if c.port1_exists then ps2_write_command ports 0xAE l else l)))
        ≡ outb 0x60 config
          ∷ (outb 0x64 0x60 ∷ (if c.port1_exists then outb 0x64 0xAE ∷ writes l else writes l))
  configure-writes c config l = elim (Bool-cases c.port1_exists) [
    | inl there ↦ rw there (
        data-writes config _
        ∙ ap (λ w. outb 0x60 config ∷ w)
            (command-writes 0x60 _ ∙ ap (λ w. outb 0x64 0x60 ∷ w) (command-writes 0xAE l)))
    | inr missing ↦
        rw missing (data-writes config _ ∙ ap (λ w. outb 0x60 config ∷ w) (command-writes 0x60 l))
  ]

  configure-Configured :
      (c : Controller) (l : Log) → Configured (configure ports c l).0 l (configure ports c l).1
  unfolding configure
  configure-Configured c l =
      let bits = config_of-bits c.port1_exists c.port2_exists in
      record {
        bit1 = bits.0;
        bit2 = bits.1;
        written = configure-writes c (config_of c.port1_exists c.port2_exists) l;
      }

  -- The search behind a controller that answers.
  abbrev searched : Controller → Log → Controller × Log
  searched c l =
      let (_, c1, l1) = ps2_keyboard_detect ports c l in
      let (_, c2, l2) = ps2_mouse_detect ports c1 l1 in configure ports c2 l2

  searched-Consistent : (c : Controller) (l : Log) → Consistent c → Consistent (searched c l).0
  searched-Consistent c l f =
      let (_, c1, l1) = ps2_keyboard_detect ports c l in
      let (_, c2, l2) = ps2_mouse_detect ports c1 l1 in
      configure-Consistent c2 l2 (mouse-Consistent c1 l1 (keyboard-Consistent c l f))

-- Whatever the hardware answers, the search of the kernel keeps its record of the ports true to
-- itself: a port exists just if its device is one that belongs there, and a second port only with
-- two channels. The keyboard driver is loaded only if port 1 has a keyboard, and then the last writes
-- to the controller are the command that enables the first port and a configuration byte, which
-- enables interrupts for just the ports that exist.
pub ps2_devices_init-Consistent :
    (ports : Ports) {c : Controller} (l : Log)
    → Consistent c
    → let (loaded, c', l') = ps2_devices_init ports c l in
      Consistent c'
      × (loaded ≡ true
          → (is_keyboard c'.port1_device ≡ true) × ((before : Log) × Configured c' before l'))
unfolding ps2_devices_init
ps2_devices_init-Consistent ports {c} l f = elim (Bool-cases ok) [
  | inl answers ↦ rw answers (
    searched-Consistent ports c0 l0 first,
    λ loaded. (sym (searched-Consistent ports c0 l0 first).port1 ∙ loaded, (last, configured)),
  )
  | inr silent ↦ rw silent (first, λ loaded. absurd (ground (arith, loaded)))
]
  where
    ok : Bool
    ok = (ps2_controller_detect ports c l).0

    c0 : Controller
    c0 = (ps2_controller_detect ports c l).1

    l0 : Log
    l0 = (ps2_controller_detect ports c l).2

    first : Consistent c0
    first = controller-Consistent ports c l f

    last : Log
    last =
        (ps2_mouse_detect ports (ps2_keyboard_detect ports c0 l0).1
          (ps2_keyboard_detect ports c0 l0).2).2

    configured : Configured (searched ports c0 l0).0 last (searched ports c0 l0).1
    configured = configure-Configured ports _ _
