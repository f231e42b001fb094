-- ===== src/Keyboard/Hooks.antt =====
-- What the driver of drivers/hid/pstwo/keybrd/keypstwo.c offers the kernel by its hooks. A hook
-- gets an array of arguments; these leave their answer in the first.
use vsnx_os.Base.{ℕ, Bool, true, false, not, if◌then◌else◌, bit_or}
use vsnx_os.Keyboard.{
  Keyboard, keyboard_buffer_empty, keyboard_buffer_get, ps2_keyboard_interrupt_handler,
}
use vsnx_os.Keyboard.Controller.{
  DeviceType, keyboard_old, keyboard_mf2, Log, Ports, ps2_keyboard_init,
}

-- `args[0]` of the `struct hook_data`
abbrev pub HookArg : Type 0
HookArg = ℕ

-- Does the controller's first port have a keyboard?
pub ps2_has_keyboard : (port1_device : DeviceType) → Bool
ps2_has_keyboard port1_device = elim port1_device [
  | keyboard_old ↦ true
  | keyboard_mf2 ↦ true
  | _ ↦ false
]

pub ps2_hook_init : Ports → Keyboard → Log → Keyboard × Log
ps2_hook_init ports k l = ps2_keyboard_init ports 1 k l

unfoldable pub ps2_hook_has_key : HookArg → Keyboard → HookArg × Keyboard
ps2_hook_has_key arg k = (if not (keyboard_buffer_empty k.input_buffer) then 1 else 0, k)

unfoldable pub ps2_hook_get_key : HookArg → Keyboard → HookArg × Keyboard
ps2_hook_get_key arg k =
    let (c, b) = keyboard_buffer_get k.input_buffer in
    if not (keyboard_buffer_empty k.input_buffer)
    then (c, record k { input_buffer = b })
    else (0, k)

pub ps2_hook_query_state : HookArg → Keyboard → HookArg × Keyboard
ps2_hook_query_state arg k = (0, k)

unfoldable pub ps2_hook_get_modifiers : HookArg → Keyboard → HookArg × Keyboard
ps2_hook_get_modifiers arg k =
    let s = k.keyboard_state in
    let shift = if s.shift_pressed then bit_or 0 1 else 0 in
    let ctrl = if s.ctrl_pressed then bit_or shift 2 else shift in
    (if s.alt_pressed then bit_or ctrl 4 else ctrl, k)

pub ps2_hook_translate : HookArg → Keyboard → HookArg × Keyboard
ps2_hook_translate arg k = (arg, k)

-- The interrupt hook: the handler reads the scancode and does not look at the frame.
pub ps2_hook_interrupt_handler : (scancode : ℕ) → Keyboard → Keyboard
ps2_hook_interrupt_handler scancode k = ps2_keyboard_interrupt_handler scancode k
