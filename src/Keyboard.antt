-- ===== src/Keyboard.antt =====
-- tools/kagu_boot/src/input.cpp: the keyboard. What is typed comes from outside: the text that waits
-- on the input stream, and the answers of the polls for a key, which are 0 when they have run out.
use kagu_os.Prelude.{
  ℕ, Bool, true, false, ◌||◌, not, Option, none, some, List, [], ◌∷◌, ◌++◌, ◌==◌, if◌then◌else◌,
}
use kagu_os.Std.Text.{Bytes}
use kagu_os.Kagu.Keyboard.{
  KeyboardMode, read_line, read_line_silently, read_char, read_char_silently, parse_keyboard_mode,
}

pub record Keyboard : Type 0 where
  pub last_input : Bytes
  pub pending_input : Bool
  pub eof_reached : Bool
  pub input_queue : List Bytes
  pub stdin : Bytes
  pub polls : List ℕ

-- `std::getline`: the line, whether the end of the stream was met, and the rest of the stream
unfoldable pub get_line : Bytes → Bytes × Bool × Bytes
get_line [] = ([], true, [])
get_line (c ∷ s) =
    let (line, eof, rest) = get_line s in if c == 10 then ([], false, s) else (c ∷ line, eof, rest)

-- `readLine`
unfoldable pub take_line : Keyboard → Bytes × Keyboard
unfolding get_line
take_line k =
    let (line, eof, rest) = get_line k.stdin in
    (line, record k { eof_reached = k.eof_reached || eof; stdin = rest })

-- `readChar`: 0 where nothing can be read
unfoldable pub take_char_of : Bytes → ℕ × Bytes
take_char_of [] = (0, [])
take_char_of (c ∷ s) = (c, s)

-- What is read, what is written to `std::cout`, which is the character where it is echoed, and the
-- keyboard.
unfoldable pub take_char : Bool → Keyboard → Bytes × Bytes × Keyboard
unfolding take_char_of
take_char echo k =
    let (c, rest) = take_char_of k.stdin in
    (c ∷ [], if echo then c ∷ [] else [], record k { stdin = rest })

-- A line is not echoed by the program.
abbrev silent : Bytes × Keyboard → Bytes × Bytes × Keyboard
silent (input, k) = (input, [], k)

unfoldable pub read_mode : KeyboardMode → Keyboard → Bytes × Bytes × Keyboard
unfolding take_line take_char
read_mode read_line k = silent (take_line k)
read_mode read_line_silently k = silent (take_line k)
read_mode read_char k = take_char true k
read_mode read_char_silently k = take_char false k

-- `readInput`: what is read, what is written to `std::cout`, and the keyboard
unfoldable pub read_input : Bytes → Keyboard → Bytes × Bytes × Keyboard
unfolding read_mode parse_keyboard_mode
read_input mode k =
    let (input, shown, k') = read_mode (parse_keyboard_mode mode) k in
    (input, shown, record k' { last_input = input; pending_input = false })

-- `setBuffer`
unfoldable pub set_buffer : Bytes → Keyboard → Keyboard
set_buffer value k = record k { last_input = value }

unfoldable pub queue_input : Bytes → Keyboard → Keyboard
queue_input input k = record k { input_queue = k.input_queue ++ input ∷ []; pending_input = true }

abbrev is_nil : List Bytes → Bool
is_nil [] = true
is_nil (x ∷ xs) = false

unfoldable pub poll_queue : List Bytes → Keyboard → Option Bytes × Keyboard
poll_queue [] k = (none, record k { pending_input = false })
poll_queue (input ∷ rest) k =
    (some input, record k { input_queue = rest; pending_input = not (is_nil rest) })

unfoldable pub poll_input : Keyboard → Option Bytes × Keyboard
unfolding poll_queue
poll_input k = poll_queue k.input_queue k

unfoldable pub poll_next : List ℕ → ℕ × List ℕ
poll_next [] = (0, [])
poll_next (c ∷ cs) = (c, cs)

unfoldable pub poll_key : Keyboard → ℕ × Keyboard
unfolding poll_next
poll_key k = let (c, cs) = poll_next k.polls in (c, record k { polls = cs })
