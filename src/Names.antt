-- ===== src/Names.antt =====
-- fs/hepunion/hepunion.h: the tests on the names of directory entries, and the flags.
use hepunion.Base.{ℕ, Bool, false, ◌&&◌, List, [], ◌∷◌, ◌==◌, ltb, length}
use Prim.Native.Nat.{bit_and}

abbrev pub slash : ℕ
slash = b'/'

abbrev dot : ℕ
dot = b'.'

-- The first four bytes of a name are `.`, `a`, `b`, `.`. The macros test `l > 4` first.
abbrev has_mark : ℕ → ℕ → List ℕ → Bool
has_mark a b (w ∷ x ∷ y ∷ z ∷ _) = (w == dot) && ((x == a) && ((y == b) && (z == dot)))
has_mark a b _ = false

unfoldable pub is_me : List ℕ → Bool
is_me n = ltb 4 (length n) && has_mark b'm' b'e' n

unfoldable pub is_whiteout : List ℕ → Bool
is_whiteout n = ltb 4 (length n) && has_mark b'w' b'h' n

unfoldable pub is_special : List ℕ → Bool
is_special (a ∷ []) = a == dot
is_special (a ∷ b ∷ []) = (a == dot) && (b == dot)
is_special _ = false

-- `is_flag_set(s, f)`
unfoldable pub is_flag_set : ℕ → ℕ → Bool
is_flag_set s f = bit_and s f == f

-- The flags of `find_file`.
abbrev pub create_copyup_flag : ℕ
create_copyup_flag = 0x1

abbrev pub must_read_write : ℕ
must_read_write = 0x2

abbrev pub must_read_only : ℕ
must_read_only = 0x4

abbrev pub ignore_whiteout : ℕ
ignore_whiteout = 0x8

-- The flags of `set_me`.
abbrev pub owner_flag : ℕ
owner_flag = 0x1

abbrev pub mode_flag : ℕ
mode_flag = 0x2

abbrev pub time_flag : ℕ
time_flag = 0x4

-- `VALID_MODES_MASK`: the set-id and sticky bits and the nine permission bits.
abbrev pub valid_modes_mask : ℕ
valid_modes_mask = 0o7777

-- `enum specials`
pub data Special : Type 0 where
  me wh : Special

-- The prefix of a name that marks its kind.
abbrev pub mark : Special → List ℕ
mark me = b'.' ∷ b'm' ∷ b'e' ∷ b'.' ∷ []
mark wh = b'.' ∷ b'w' ∷ b'h' ∷ b'.' ∷ []
