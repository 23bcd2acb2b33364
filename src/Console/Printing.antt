-- ===== src/Console/Printing.antt =====
-- `kprintf` of lib/stdio.c. The variable arguments are a list; where one is missing, or is not of the
-- kind that the format asks for, C leaves the behaviour undefined, and 0 or the empty string is taken.
pub mod Numerals
pub mod Formats
use novium_os.Prelude.{
  ℕ, zero, suc, ◌+◌, ◌-◌, ◌%◌, ◌^◌, Bool, true, false, ◌||◌, ltb, leb, ◌==◌, if◌then◌else◌, List,
  [], ◌∷◌,
}
use novium_os.Console.{Console, console_putchar, console_write, print_u32}

-- A word of 32 bits or a pointer to a string.
pub data Argument : Type 0 where
  word : ℕ → Argument
  text : List ℕ → Argument

abbrev pub as_word : List Argument → ℕ
as_word [] = 0
as_word (word w ∷ args) = w
as_word (text t ∷ args) = 0

abbrev pub as_text : List Argument → List ℕ
as_text [] = []
as_text (word w ∷ args) = []
as_text (text t ∷ args) = t

abbrev pub rest_of : List Argument → List Argument
rest_of [] = []
rest_of (a ∷ args) = args

-- "0123456789", "0123456789abcdef" and "0123456789ABCDEF"
abbrev pub decimal : List ℕ
decimal = 48 ∷ 49 ∷ 50 ∷ 51 ∷ 52 ∷ 53 ∷ 54 ∷ 55 ∷ 56 ∷ 57 ∷ []

abbrev pub hex_lower : List ℕ
hex_lower = 48 ∷ 49 ∷ 50 ∷ 51 ∷ 52 ∷ 53 ∷ 54 ∷ 55 ∷ 56 ∷ 57 ∷ 97 ∷ 98 ∷ 99 ∷ 100 ∷ 101 ∷ 102 ∷ []

abbrev pub hex_upper : List ℕ
hex_upper = 48 ∷ 49 ∷ 50 ∷ 51 ∷ 52 ∷ 53 ∷ 54 ∷ 55 ∷ 56 ∷ 57 ∷ 65 ∷ 66 ∷ 67 ∷ 68 ∷ 69 ∷ 70 ∷ []

-- `%d` of a word that is read with its sign.
unfoldable pub print_signed : ℕ → Console → Console
unfolding print_u32 console_putchar
print_signed w s =
    if leb (2 ^ 31) w
    then print_u32 (2 ^ 32 - w) 10 decimal (console_putchar 0x2D s)
    else print_u32 w 10 decimal s

abbrev pub takes_argument : ℕ → Bool
takes_argument c =
    c == 0x63 || c == 0x73 || c == 0x64 || c == 0x69 || c == 0x75 || c == 0x78 || c == 0x58

-- The `switch` on the character behind the percent sign.
unfoldable pub convert : ℕ → List Argument → Console → Console
unfolding print_signed print_u32 console_putchar console_write
convert c args s =
    if c == 0x63
    then console_putchar (as_word args % 256) s
    else if c == 0x73
    then console_write (as_text args) s
    else if c == 0x64 || c == 0x69
    then print_signed (as_word args) s
    else if c == 0x75
    then print_u32 (as_word args) 10 decimal s
    else if c == 0x78
    then print_u32 (as_word args) 16 hex_lower s
    else if c == 0x58
    then print_u32 (as_word args) 16 hex_upper s
    else console_putchar c s

unfoldable pub kprintf : List ℕ → List Argument → Console → Console
unfolding convert console_putchar
kprintf [] args s = s
kprintf (c ∷ []) args s = if c == 0x25 then s else console_putchar c s
kprintf (c ∷ d ∷ fmt) args s =
    let plain = kprintf (d ∷ fmt) args (console_putchar c s) in
    let left = if takes_argument d then rest_of args else args in
    let converted = kprintf fmt left (convert d args s) in if c == 0x25 then converted else plain
