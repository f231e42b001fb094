-- ===== src/Keyboard/Layout.antt =====
-- The character tables of scancode set 1 in drivers/hid/pstwo/keybrd/keyps2.h, and
-- scancode_to_ascii of keypstwo.c. A character is its code.
use vsnx_os.Base.{
  ℕ, Bool, not, ◌&&◌, leb, if◌then◌else◌, none, some, List, ◌∷◌, get_elem?, replicate,
}

abbrev pub scancode_to_ascii_normal : List ℕ
scancode_to_ascii_normal =
    0
    ∷ 27
    ∷ 49
    ∷ 50
    ∷ 51
    ∷ 52
    ∷ 53
    ∷ 54
    ∷ 55
    ∷ 56
    ∷ 57
    ∷ 48
    ∷ 45
    ∷ 61
    ∷ 8
    ∷ 9
    ∷ 113
    ∷ 119
    ∷ 101
    ∷ 114
    ∷ 116
    ∷ 121
    ∷ 117
    ∷ 105
    ∷ 111
    ∷ 112
    ∷ 91
    ∷ 93
    ∷ 10
    ∷ 0
    ∷ 97
    ∷ 115
    ∷ 100
    ∷ 102
    ∷ 103
    ∷ 104
    ∷ 106
    ∷ 107
    ∷ 108
    ∷ 59
    ∷ 39
    ∷ 96
    ∷ 0
    ∷ 92
    ∷ 122
    ∷ 120
    ∷ 99
    ∷ 118
    ∷ 98
    ∷ 110
    ∷ 109
    ∷ 44
    ∷ 46
    ∷ 47
    ∷ 0
    ∷ 42
    ∷ 0
    ∷ 32
    ∷ replicate 70 0

abbrev pub scancode_to_ascii_shift : List ℕ
scancode_to_ascii_shift =
    0
    ∷ 27
    ∷ 33
    ∷ 64
    ∷ 35
    ∷ 36
    ∷ 37
    ∷ 94
    ∷ 38
    ∷ 42
    ∷ 40
    ∷ 41
    ∷ 95
    ∷ 43
    ∷ 8
    ∷ 9
    ∷ 81
    ∷ 87
    ∷ 69
    ∷ 82
    ∷ 84
    ∷ 89
    ∷ 85
    ∷ 73
    ∷ 79
    ∷ 80
    ∷ 123
    ∷ 125
    ∷ 10
    ∷ 0
    ∷ 65
    ∷ 83
    ∷ 68
    ∷ 70
    ∷ 71
    ∷ 72
    ∷ 74
    ∷ 75
    ∷ 76
    ∷ 58
    ∷ 34
    ∷ 126
    ∷ 0
    ∷ 124
    ∷ 90
    ∷ 88
    ∷ 67
    ∷ 86
    ∷ 66
    ∷ 78
    ∷ 77
    ∷ 60
    ∷ 62
    ∷ 63
    ∷ 0
    ∷ 42
    ∷ 0
    ∷ 32
    ∷ replicate 70 0

-- The entry of a table; the code reads below 128 only.
unfoldable pub table_entry : List ℕ → ℕ → ℕ
table_entry table scancode = elim (get_elem? table scancode) [ none ↦ 0 | some c ↦ c ]

abbrev pub is_lower : ℕ → Bool
is_lower c = leb 97 c && leb c 122

abbrev pub is_upper : ℕ → Bool
is_upper c = leb 65 c && leb c 90

unfoldable pub scancode_to_ascii : (shift_pressed caps_lock : Bool) → ℕ → ℕ
scancode_to_ascii shift_pressed caps_lock scancode =
    if leb 128 scancode
    then 0
    else let use_shift =
        if caps_lock
        then if is_lower (table_entry scancode_to_ascii_normal scancode)
          then not shift_pressed
          else shift_pressed
        else shift_pressed in
      if use_shift
      then table_entry scancode_to_ascii_shift scancode
      else table_entry scancode_to_ascii_normal scancode
