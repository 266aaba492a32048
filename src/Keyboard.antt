-- ===== src/Keyboard.antt =====
-- arch/i386/drivers/keyboard.c: the keyboard's interrupt handler and getchar. What is written to a port
-- is kept in `sent`; the loops that wait for the controller, the message of reboot and the registers of
-- the interrupt are left out. A read out of the bounds of a table is a fault.
pub mod Tables
pub mod Typed
pub mod Codes
pub mod Handled
pub mod Getchar
pub mod Keys
use Prim.Native.Nat.{bit_or}
use turnix.Base.{
  ℕ, zero, suc, ◌+◌, ◌-◌, ◌*◌, ◌%◌, Bool, true, false, not, ◌&&◌, ◌||◌, Option, none, some, List,
  [], ◌∷◌, ◌++◌, ◌==◌, ltb, leb, if◌then◌else◌, replicate,
}
use turnix.Ctype.{islower, isupper, toupper}
use turnix.Kernel.{Kernel, State, set_thread, Run, ok, panic, fault, ◌>>=◌}
use turnix.CircularBuffer.{CircularBuffer, space, init, write, read}
use turnix.Sched.{schedule, wake_up}
use turnix.Keyboard.Tables.{scan_code, keypad_moves, keypad_digits}

-- The state `keyboard`: the LEDs, the keys that are held, the prefix of the code, the bytes typed and
-- the thread that waits in getchar. `sent` holds the bytes sent to ports, each with its port.
pub record Keyboard : Type 0 where
  pub scroll_lock : Bool
  pub num_lock : Bool
  pub caps_lock : Bool
  pub l_ctrl : Bool
  pub r_ctrl : Bool
  pub l_shift : Bool
  pub r_shift : Bool
  pub l_alt : Bool
  pub r_alt : Bool
  pub esc : ℕ
  pub cb : CircularBuffer
  pub waiter : Option ℕ
  pub sent : List (ℕ × ℕ)

-- `table[i]`
abbrev pub entry {ℓ} : {A : Type ℓ} → List A → ℕ → Run A
entry [] i = fault
entry (x ∷ xs) zero = ok x
entry (x ∷ xs) (suc i) = entry xs i

-- `circular_buffer_write(&keyboard.cb, …)`
unfoldable pub type_bytes : List ℕ → Keyboard → Keyboard
type_bytes xs k = record k { cb = (write xs k.cb).1 }

-- `(code & 0x80) == 0`: the key goes down.
abbrev pub is_press : ℕ → Bool
is_press code = ltb code 128

abbrev pub control : Keyboard → Bool
control k = k.l_ctrl || k.r_ctrl

abbrev pub shift : Keyboard → Bool
shift k = k.l_shift || k.r_shift

-- `i` of `chr`
abbrev pub layer : Keyboard → ℕ
layer k = if k.r_alt then 2 else (if shift k then 1 else 0)

-- What `chr` makes of a byte of the table.
unfoldable pub with_caps : Keyboard → ℕ → ℕ
with_caps k c =
    if not (layer k == 1) && (k.caps_lock || control k) && islower c then toupper c else c

unfoldable pub with_control : Keyboard → ℕ → ℕ
with_control k c =
    if control k
    then (if leb b'@' c && ltb c (b'@' + 32) then c - b'@' else (if c == b'?' then 127 else c))
    else c

unfoldable pub with_alt : Keyboard → ℕ → ℕ
with_alt k c = if k.l_alt then bit_or c 128 else c

unfoldable pub chr : ℕ → Keyboard → Run Keyboard
chr code k =
    let typed = entry scan_code (layer k) >>= λ row. entry row code >>= λ c.
    ok (if c == 0 then k else type_bytes (with_alt k (with_control k (with_caps k c)) ∷ []) k) in
    if is_press code then typed else ok k

unfoldable pub ctrl : ℕ → Keyboard → Run Keyboard
ctrl code k =
    if k.esc == 0
    then ok (record k { l_ctrl = is_press code })
    else ok (record k { r_ctrl = is_press code })

unfoldable pub left_shift : ℕ → Keyboard → Run Keyboard
left_shift code k = ok (record k { l_shift = is_press code })

unfoldable pub right_shift : ℕ → Keyboard → Run Keyboard
right_shift code k = ok (record k { r_shift = is_press code })

unfoldable pub alt : ℕ → Keyboard → Run Keyboard
alt code k =
    if k.esc == 0
    then ok (record k { l_alt = is_press code })
    else ok (record k { r_alt = is_press code })

-- `keyboard.led.value`
abbrev pub led_value : Keyboard → ℕ
led_value k =
    (if k.scroll_lock then 1 else 0)
    + (if k.num_lock then 2 else 0)
    + (if k.caps_lock then 4 else 0)

abbrev pub update_led : Keyboard → Keyboard
update_led k = record k { sent = k.sent ++ (237, 96) ∷ (led_value k, 96) ∷ [] }

unfoldable pub caps : ℕ → Keyboard → Run Keyboard
caps code k =
    ok (if is_press code then update_led (record k { caps_lock = not k.caps_lock }) else k)

unfoldable pub num : ℕ → Keyboard → Run Keyboard
num code k = ok (if is_press code then update_led (record k { num_lock = not k.num_lock }) else k)

-- `scroll_lock`, which changes num lock.
unfoldable pub scroll : ℕ → Keyboard → Run Keyboard
scroll code k =
    ok (if is_press code then update_led (record k { num_lock = not k.num_lock }) else k)

unfoldable pub sysrq : ℕ → Keyboard → Run Keyboard
sysrq code k = ok k

-- `reboot`
abbrev pub reboot : Keyboard → Keyboard
reboot k = record k { sent = k.sent ++ (254, 100) ∷ [] }

-- `keypad` for a key that moves the cursor: `4` stands for the sequence of four bytes that ends in `~`.
unfoldable pub move : ℕ → Keyboard → Keyboard
move c k =
    let long = λ (q : Keyboard).
      type_bytes (b'~' ∷ []) (type_bytes (c % 128 ∷ []) (type_bytes (27 ∷ b'[' ∷ []) q)) in
    let short = λ (q : Keyboard). type_bytes (c ∷ []) (type_bytes (27 ∷ b'[' ∷ []) q) in
    if leb 128 c
    then (if leb 4 (space k.cb) then long k else k)
    else (if isupper c then (if leb 3 (space k.cb) then short k else k) else type_bytes (c ∷ []) k)

unfoldable pub keypad : ℕ → Keyboard → Run Keyboard
keypad code k =
    let moves =
      if code == 55 then ok k else entry keypad_moves (code - 71) >>= λ c. ok (move c k) in
    let digits =
      if code == 55
      then ok (type_bytes (b'*' ∷ []) k)
      else entry keypad_digits (code - 71) >>= λ c. ok (type_bytes (c ∷ []) k) in
    if not (is_press code)
    then ok k
    else (if (code == 83) && control k && (k.l_alt || k.r_alt)
        then ok (reboot k)
        else (if (k.esc == 224) || not k.num_lock || shift k then moves else digits))

unfoldable pub fn : ℕ → Keyboard → Run Keyboard
fn code k = ok (
    if is_press code && leb 4 (space k.cb)
    then type_bytes ((code - 59 + b'A') ∷ []) (type_bytes (27 ∷ b'[' ∷ b'[' ∷ []) k)
    else k)

unfoldable pub chr_keypad : ℕ → Keyboard → Run Keyboard
chr_keypad code k = if k.esc == 224 then ok (type_bytes (b'/' ∷ []) k) else chr code k

-- `transcode_func_table`
unfoldable pub transcode_func_table : List (ℕ → Keyboard → Run Keyboard)
transcode_func_table =
    replicate 29 chr
    ++ ctrl ∷ []
    ++ replicate 12 chr
    ++ left_shift ∷ []
    ++ replicate 10 chr
    ++ chr_keypad ∷ right_shift ∷ keypad ∷ alt ∷ chr ∷ caps ∷ []
    ++ replicate 10 fn
    ++ num ∷ scroll ∷ []
    ++ replicate 13 keypad
    ++ sysrq ∷ []

-- `keyboard_handler`, but for the waiter: the code that the controller has, and what it does.
unfoldable pub transcode : ℕ → Keyboard → Run Keyboard
transcode code k =
    let bare_code = code % 128 in
    let typed =
      if ltb bare_code 85 then (entry transcode_func_table bare_code >>= λ f. f code k) else ok k in
    typed >>= λ k'. ok (record k' { esc = 0 })

abbrev pub is_prefix : ℕ → Bool
is_prefix code = (code == 224) || (code == 225)

-- The end of the handler: the thread that waits, if there is one, is woken.
unfoldable pub woken : Option ℕ → Keyboard → Kernel → Run (Keyboard × Kernel)
woken none k kernel = ok (k, kernel)
woken (some t) k kernel = wake_up t kernel >>= λ r. ok (k, r)

unfoldable pub handler : ℕ → Keyboard → Kernel → Run (Keyboard × Kernel)
handler code k kernel =
    let typed = transcode code k >>= λ k'. woken k'.waiter k' kernel in
    if is_prefix code then ok (record k { esc = code }, kernel) else typed

-- How a round of the loop of `getchar` ends: with a byte, or asleep.
pub data Getting : Type 0 where
  got : ℕ → Getting
  asleep : Getting

unfoldable pub getchar_wait : Keyboard → Kernel → Run (Getting × Keyboard × Kernel)
getchar_wait k kernel =
    let th = kernel.threads kernel.current in
    elim k.waiter [
      | some t ↦ panic
      | none ↦
          schedule (set_thread kernel.current (record th { state = State.sleeping }) kernel)
          >>= λ r. ok (asleep, record k { waiter = some kernel.current }, r)
    ]

unfoldable pub getchar_take :
    List ℕ × CircularBuffer → Keyboard → Kernel → Run (Getting × Keyboard × Kernel)
getchar_take ([], cb) k kernel = getchar_wait (record k { cb = cb }) kernel
getchar_take (x ∷ xs, cb) k kernel = ok (got x, record k { cb = cb }, kernel)

-- `getchar` up to its next wait
unfoldable pub getchar_round : Keyboard → Kernel → Run (Getting × Keyboard × Kernel)
getchar_round k kernel = getchar_take (read 1 k.cb) k kernel

-- After the wait the waiter is cleared, and the loop goes on.
unfoldable pub getchar_again : Keyboard → Kernel → Run (Getting × Keyboard × Kernel)
getchar_again k kernel = getchar_round (record k { waiter = none }) kernel

-- `keyboard`, which starts as zeros, after `keyboard_init`
unfoldable pub keyboard_init : (ℕ → ℕ) → Keyboard
keyboard_init buffer = record {
  scroll_lock = false;
  num_lock = false;
  caps_lock = false;
  l_ctrl = false;
  r_ctrl = false;
  l_shift = false;
  r_shift = false;
  l_alt = false;
  r_alt = false;
  esc = 0;
  cb = init buffer 1024;
  waiter = none;
  sent = [];
}
