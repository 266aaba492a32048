-- ===== src/Ctype.antt =====
-- The classes of characters of include/ctype.h, on values that are not negative.
use turnix.Base.{ℕ, ◌+◌, ◌-◌, Bool, not, ◌&&◌, ◌||◌, ◌==◌, leb, if◌then◌else◌}

abbrev pub islower : ℕ → Bool
islower c = leb b'a' c && leb c b'z'

abbrev pub isupper : ℕ → Bool
isupper c = leb b'A' c && leb c b'Z'

abbrev pub isalpha : ℕ → Bool
isalpha c = isupper c || islower c

abbrev pub isdigit : ℕ → Bool
isdigit c = leb b'0' c && leb c b'9'

abbrev pub isalnum : ℕ → Bool
isalnum c = isalpha c || isdigit c

abbrev pub iscntrl : ℕ → Bool
iscntrl c = leb c 0x1f || (c == 0x7f)

abbrev pub isgraph : ℕ → Bool
isgraph c = leb b'!' c && leb c b'~'

abbrev pub isprint : ℕ → Bool
isprint c = leb b' ' c && leb c b'~'

abbrev pub ispunct : ℕ → Bool
ispunct c = isgraph c && not (isalnum c)

-- Space, and the codes 9 to 13: tab, line feed, vertical tab, form feed and carriage return.
abbrev pub isspace : ℕ → Bool
isspace c = (c == b' ') || (c == 12) || (c == 10) || (c == 13) || (c == 9) || (c == 11)

abbrev pub isxdigit : ℕ → Bool
isxdigit c = isdigit c || (leb b'a' c && leb c b'f') || (leb b'A' c && leb c b'F')

abbrev pub isblank : ℕ → Bool
isblank c = (c == b' ') || (c == 9)

abbrev pub toupper : ℕ → ℕ
toupper c = if islower c then c - b'a' + b'A' else c

abbrev pub tolower : ℕ → ℕ
tolower c = if isupper c then c - b'A' + b'a' else c
