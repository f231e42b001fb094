-- ===== src/Ps2/Tests.antt =====
-- Runs of the search of os/kernel/hal/io/ps2/ps2dect.c, and its theorem at an input that meets its
-- hypotheses.
use vsnx_os.Base.{◌≡◌, refl, true, ◌==◌, if◌then◌else◌, []}
use vsnx_os.Keyboard.Controller.{Log, Ports, device_none}
use vsnx_os.Ps2.{no_controller, two_bytes, is_keyboard, ps2_devices_init}
use vsnx_os.Ps2.Devices.{Consistent, Configured, ps2_devices_init-Consistent}

no_controller-Consistent : Consistent no_controller
no_controller-Consistent = record { port1 = refl; port2 = refl; both = λ e. e }

-- The answer of a keyboard whose scancodes are not translated is not taken for a keyboard's.
untranslated : two_bytes 0xAB 0x83 ≡ device_none
unfolding two_bytes
untranslated = refl

-- A controller that is always ready, with 0x55 for every byte.
abbrev always : Ports
always port l = if port == 0x64 then 1 else 0x55

ps2_devices_init-Consistent_example :
    let (loaded, c', l') = ps2_devices_init always no_controller [] in
    Consistent c'
    × (loaded ≡ true
        → (is_keyboard c'.port1_device ≡ true) × ((before : Log) × Configured c' before l'))
ps2_devices_init-Consistent_example = ps2_devices_init-Consistent always [] no_controller-Consistent
