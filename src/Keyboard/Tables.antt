-- ===== src/Keyboard/Tables.antt =====
-- The tables of arch/i386/drivers/keyboard.c, as bytes.
use turnix.Base.{ℕ, List, [], ◌∷◌}

-- `scan_code[0]`: the keys alone
abbrev pub plain_keys : List ℕ
plain_keys =
    0 ∷ 27 ∷ 49 ∷ 50 ∷ 51 ∷ 52 ∷ 53 ∷ 54 ∷ 55 ∷ 56 ∷ 57 ∷ 48 ∷ 45 ∷ 61 ∷ 8 ∷ 9 ∷ 113 ∷ 119 ∷ 101
    ∷ 114 ∷ 116 ∷ 121 ∷ 117 ∷ 105 ∷ 111 ∷ 112 ∷ 91 ∷ 93 ∷ 10 ∷ 0 ∷ 97 ∷ 115 ∷ 100 ∷ 102 ∷ 103 ∷ 104
    ∷ 106 ∷ 107 ∷ 108 ∷ 59 ∷ 39 ∷ 96 ∷ 0 ∷ 92 ∷ 122 ∷ 120 ∷ 99 ∷ 118 ∷ 98 ∷ 110 ∷ 109 ∷ 44 ∷ 46 ∷ 47
    ∷ 0 ∷ 42 ∷ 0 ∷ 32 ∷ []

-- `scan_code[1]`: with a shift key
abbrev pub shifted_keys : List ℕ
shifted_keys =
    0 ∷ 27 ∷ 33 ∷ 64 ∷ 35 ∷ 36 ∷ 37 ∷ 94 ∷ 38 ∷ 42 ∷ 40 ∷ 41 ∷ 95 ∷ 43 ∷ 8 ∷ 9 ∷ 81 ∷ 87 ∷ 69 ∷ 82
    ∷ 84 ∷ 89 ∷ 85 ∷ 73 ∷ 79 ∷ 80 ∷ 123 ∷ 125 ∷ 10 ∷ 0 ∷ 65 ∷ 83 ∷ 68 ∷ 70 ∷ 71 ∷ 72 ∷ 74 ∷ 75 ∷ 76
    ∷ 58 ∷ 34 ∷ 126 ∷ 0 ∷ 124 ∷ 90 ∷ 88 ∷ 67 ∷ 86 ∷ 66 ∷ 78 ∷ 77 ∷ 60 ∷ 62 ∷ 63 ∷ 0 ∷ 42 ∷ 0 ∷ 32
    ∷ []

-- `scan_code[2]`: with the right alt key
abbrev pub graphic_keys : List ℕ
graphic_keys =
    0 ∷ 0 ∷ 0 ∷ 64 ∷ 0 ∷ 36 ∷ 0 ∷ 0 ∷ 123 ∷ 91 ∷ 93 ∷ 125 ∷ 92 ∷ 0 ∷ 0 ∷ 0 ∷ 0 ∷ 0 ∷ 0 ∷ 0 ∷ 0 ∷ 0
    ∷ 0 ∷ 0 ∷ 0 ∷ 0 ∷ 0 ∷ 126 ∷ 13 ∷ 0 ∷ 0 ∷ 0 ∷ 0 ∷ 0 ∷ 0 ∷ 0 ∷ 0 ∷ 0 ∷ 0 ∷ 0 ∷ 0 ∷ 0 ∷ 0 ∷ 0 ∷ 0
    ∷ 0 ∷ 0 ∷ 0 ∷ 0 ∷ 0 ∷ 0 ∷ 0 ∷ 0 ∷ 0 ∷ 0 ∷ 0 ∷ 0 ∷ 0 ∷ []

abbrev pub scan_code : List (List ℕ)
scan_code = plain_keys ∷ shifted_keys ∷ graphic_keys ∷ []

-- `scan_code_keypad[0]`: the keypad without num lock
abbrev pub keypad_moves : List ℕ
keypad_moves = 72 ∷ 65 ∷ 181 ∷ 45 ∷ 68 ∷ 53 ∷ 67 ∷ 43 ∷ 180 ∷ 66 ∷ 182 ∷ 178 ∷ 127 ∷ []

-- `scan_code_keypad[1]`: with num lock
abbrev pub keypad_digits : List ℕ
keypad_digits = 55 ∷ 56 ∷ 57 ∷ 45 ∷ 52 ∷ 53 ∷ 54 ∷ 43 ∷ 49 ∷ 50 ∷ 51 ∷ 48 ∷ 46 ∷ []
